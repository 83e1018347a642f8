-- ===== src/Rpc/Responses.antt =====
-- The channel's continuation and the service's task on any received bytes.
use common.Base.{
  ℕ, ◌+◌, ◌-◌, ◌^◌, ◌%◌, ◌<◌, ◌≤◌, ◌≡◌, refl, ◌∙◌, List, [], length, drop, Option, none, some, true,
  false, not, arith, ok, if◌then◌else◌, ℤ, to_int, ◌==◌, leb, ltb, Bool-cases, inl, inr,
}
use native.Mathlib.Decide.{dec_lt}
use common.Utils.Memory.{Pointer, offset}
use common.Utils.Buffer.{Buffer}
use common.Utils.View.{CbufferView, of_buffer}
use common.Results.{RequestResult, is_request_success}
use common.Message.Types.{
  ProtoMessage, Serializes, Payload, max_response_proto_size, TransferMsgType, ResponseResult,
  to_type, type_byte, to_response_result, is_success,
}
use common.Message.Encode.Create.{exactly, response_bytes, create_transfer_msg_res_bytes}
use common.Message.Decode.{
  field, is_type, get_transfer_msg_type, get_msg_response_code_res, get_serialized_proto_message,
}
use common.Message.Decode.Fields.{Shows, number_at, first_byte, type_byte-to_type}
use common.Message.Decode.Total.{
  well_formed, request_accessors, response_accessors, common_accessors,
}
use common.Rpc.Channel.{Readable, receive_response, parse_response}
use common.Rpc.Service.{
  Generated, Processed, answered, called, dispatch, with_service, refuse, process_request,
}

-- A well-formed message is not empty, its type byte is right, and its payload fits.
well_formed_parts :
    (type : TransferMsgType) (k size : ℕ) (mem : List ℕ)
    → well_formed type k size mem ≡ true
    → ((size == 0) ≡ false)
      × (first_byte mem ≡ type_byte type)
      × (leb (5 + number_at 1 4 mem) size ≡ true)
well_formed_parts type k size mem h = (ground (arith, h), ground (arith, h), ground (arith, h))

-- The type of a well-formed message, and its payload.
well_formed_reads :
    (type : TransferMsgType) (k : ℕ) (v : CbufferView) (mem : List ℕ)
    → Shows v mem
    → well_formed type k v.m_size mem ≡ true
    → (get_transfer_msg_type v ≡ ok (to_type (first_byte mem)))
      × (is_type (to_type (first_byte mem)) type ≡ true)
      × (get_serialized_proto_message v ≡ ok (field v 5 (number_at 1 4 mem)))
unfolding is_type
well_formed_reads type k v mem s w =
    let (size, byte, fits) = well_formed_parts type k v.m_size mem w in
    let (t, p) = common_accessors v mem s in
    (t ∙ rw size refl, ground (arith, type_byte-to_type (first_byte mem), byte), p ∙ rw fits refl)

-- Protobuf's answers on the fresh response of a method that the service has: it serialises to
-- the bytes `fresh`, which are within the limit.
abbrev pub Fresh : {Q : Type 0} → Option (Generated Q) → (ℕ → List ℕ) → Type 0
Fresh none fresh = Unit {0}
Fresh (some g) fresh =
    (idx : ℕ)
    → idx < g.method_count % 2 ^ 32
    → Serializes (g.new_response idx) (fresh idx) × (length (fresh idx) ≤ max_response_proto_size)

-- The response with a number, a result and a payload.
abbrev pub response : {Q : Type 0} → ℕ → ResponseResult → List ℕ → Processed Q
response number rc payload = answered (exactly (response_bytes number rc payload))

-- What becomes of a request for a method, with the payload at a place.
abbrev pub served :
    {Q : Type 0} → Option (Generated Q) → (ℕ → List ℕ) → ℕ → ℕ → Pointer → ℤ → Processed Q
served none fresh number idx bytes size = response number ResponseResult.not_implemented []
served (some g) fresh number idx bytes size =
    if ltb idx (g.method_count % 2 ^ 32)
    then elim (g.parse_from_array idx bytes size) [
      | none ↦ response number ResponseResult.request_parse_error (fresh idx)
      | some req ↦ called number idx req
    ]
    else response number ResponseResult.not_implemented []

refuse_lem :
    (garbage : ℕ → ℕ) {Q : Type 0} (number : ℕ) (rc : ResponseResult)
    (message : Option ProtoMessage) (payload : List ℕ)
    → Payload message payload
    → length payload ≤ max_response_proto_size
    → refuse garbage {Q = Q} number rc message ≡ ok (response number rc payload)
refuse_lem garbage number rc message payload p h =
    rw (create_transfer_msg_res_bytes garbage number message payload p rc h) refl

with_service_lem :
    (garbage : ℕ → ℕ) {Q : Type 0} (gservice : Option (Generated Q)) (fresh : ℕ → List ℕ)
    (number idx : ℕ) (bytes : Pointer) (size : ℤ)
    → Fresh gservice fresh
    → with_service garbage gservice number idx bytes size
      ≡ ok (served gservice fresh number idx bytes size)
with_service_lem garbage none fresh number idx bytes size f =
    refuse_lem garbage number ResponseResult.not_implemented none [] refl (omega arith)
with_service_lem garbage {Q} (some g) fresh number idx bytes size f =
    elim (dec_lt idx (g.method_count % 2 ^ 32)) [
      | yes there ↦
          let has : leb (g.method_count % 2 ^ 32) idx ≡ false = ground arith in
          let within : ltb idx (g.method_count % 2 ^ 32) ≡ true = ground arith in
          rw (has, within) (by_parse there (g.parse_from_array idx bytes size))
      | no missing ↦
          let lacks : leb (g.method_count % 2 ^ 32) idx ≡ true = ground arith in
          let beyond : ltb idx (g.method_count % 2 ^ 32) ≡ false = ground arith in
          rw (lacks, beyond)
            (refuse_lem garbage number ResponseResult.not_implemented none [] refl (omega arith))
    ]
  where
    by_parse :
        idx < g.method_count % 2 ^ 32
        → (parsed : Option Q)
        → dispatch garbage g number idx parsed
          ≡ ok (elim parsed [
            | none ↦ response number ResponseResult.request_parse_error (fresh idx)
            | some req ↦ called number idx req
          ])
    by_parse there none =
        let (s, h) = f idx there in
        refuse_lem garbage number ResponseResult.request_parse_error (some (g.new_response idx))
          (fresh idx) s h
    by_parse there (some req) = refl

-- For every buffer of received bytes, when protobuf serialises the fresh responses of the
-- service's methods within the limit, the service's task neither faults nor throws. It answers a
-- malformed request with exactly the bytes of a response invalid_request under the number
-- 2 ^ 64 - 1; any other request, with the number, the method index and the payload that stand in
-- it, is answered not_implemented under its number if there is no service or the service has no
-- such method, request_parse_error with a fresh response if protobuf refuses the payload, and
-- calls the method with what protobuf parsed otherwise.
pub process_request_lem :
    (garbage : ℕ → ℕ) {Q : Type 0} (gservice : Option (Generated Q)) (fresh : ℕ → List ℕ)
    (b : Buffer) (mem : List ℕ)
    → Fresh gservice fresh
    → Shows (of_buffer b) mem
    → let size = number_at 1 4 mem in
      process_request garbage gservice b
      ≡ ok (
          if well_formed TransferMsgType.req 12 b.m_size mem
          then served gservice fresh
              (number_at (5 + size) 8 mem)
              (number_at (5 + size + 8) 4 mem)
              (offset b.m_buffer 5)
              (to_int size)
          else response (2 ^ 64 - 1) ResponseResult.invalid_request [])
unfolding process_request of_buffer
process_request_lem garbage gservice fresh b mem f s =
    let (valid, number, idx) = request_accessors (of_buffer b) mem s in
    let size = number_at 1 4 mem in
    elim (Bool-cases (well_formed TransferMsgType.req 12 b.m_size mem)) [
      | inl w ↦
          (let (type, is_req, payload) =
              well_formed_reads TransferMsgType.req 12 (of_buffer b) mem s w in
            rw (valid, number, idx, w, type, is_req, payload)
              (with_service_lem garbage gservice fresh (number_at (5 + size) 8 mem)
                (number_at (5 + size + 8) 4 mem) (offset b.m_buffer 5) (to_int size) f))
      | inr w ↦
          rw (valid, w)
            (refuse_lem garbage (2 ^ 64 - 1) ResponseResult.invalid_request none [] refl
              (omega arith))
    ]

-- The result of a response, from its number and its code on.
abbrev pub judged :
    {M : Type 0} → Readable M → ℕ → ℕ → ResponseResult → CbufferView → M → RequestResult × M
judged proto req_id number code payload m =
    let (parsed, r) =
      proto.parse_from_array payload.m_buffer (to_int payload.m_size) (proto.clear m) in
    if not (number == req_id)
    then (RequestResult.unknown_error, m)
    else if not (is_success code)
    then (RequestResult.request_not_processed, proto.clear m)
    else (if parsed then RequestResult.ok else RequestResult.response_parse_error, r)

parse_response_lem :
    {M : Type 0} (proto : Readable M) (b : Buffer) (code : ResponseResult) (payload : CbufferView)
    (m : M)
    → get_msg_response_code_res (of_buffer b) ≡ ok code
    → get_serialized_proto_message (of_buffer b) ≡ ok payload
    → let (parsed, r) = proto.parse_from_array payload.m_buffer (to_int payload.m_size) m in
      parse_response proto b m
      ≡ ok (
          if not (is_success code)
          then (RequestResult.request_not_processed, m)
          else (if parsed then RequestResult.ok else RequestResult.response_parse_error, r))
unfolding parse_response
parse_response_lem proto b code payload m c p = elim (Bool-cases (is_success code)) [
  | inl fine ↦ rw (c, fine, p) refl
  | inr failed ↦ rw (c, failed) refl
]

-- For every buffer of received bytes, the channel does not fault and throws nothing: a failed
-- request keeps its result and its response; a malformed response gives invalid_response; one
-- with another number gives unknown_error; one whose code is not a success clears the response
-- and gives request_not_processed; and any other one is parsed into the cleared response and
-- gives ok or response_parse_error, as protobuf answers.
pub receive_response_lem :
    {M : Type 0} (proto : Readable M) (req_id : ℕ) (rc : RequestResult) (b : Buffer) (mem : List ℕ)
    (m : M)
    → Shows (of_buffer b) mem
    → let size = number_at 1 4 mem in
      receive_response proto req_id rc b m ≡ (
        if not (is_request_success rc)
        then ok (rc, m)
        else if not (well_formed TransferMsgType.res 9 b.m_size mem)
        then ok (RequestResult.invalid_response, m)
        else ok (
            judged proto req_id
              (number_at (5 + size) 8 mem)
              (to_response_result (first_byte (drop (5 + size + 8) mem)))
              (field (of_buffer b) 5 size)
              m))
unfolding receive_response of_buffer
receive_response_lem {M} proto req_id rc b mem m s =
    let (valid, number, code) = response_accessors (of_buffer b) mem s in
    elim (Bool-cases (is_request_success rc)) [
      | inr failed ↦ rw failed refl
      | inl fine ↦ elim (Bool-cases (well_formed TransferMsgType.res 9 b.m_size mem)) [
        | inl w ↦
            (let (type, is_res, payload) =
                well_formed_reads TransferMsgType.res 9 (of_buffer b) mem s w in
              rw
                (
                  fine,
                  valid,
                  w,
                  type,
                  is_res,
                  number,
                  parse_response_lem proto b result _ (proto.clear m) (code ∙ rw w refl) payload,
                )
                (ground arith))
        | inr w ↦ rw (fine, valid, w) refl
      ]
    ]
  where
    result : ResponseResult
    result = to_response_result (first_byte (drop (5 + number_at 1 4 mem + 8) mem))
