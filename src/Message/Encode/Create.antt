-- ===== src/Message/Encode/Create.antt =====
-- The buffers that `create_transfer_msg_req` and `create_transfer_msg_res` return.
use common.Base.{
  ℕ, suc, ◌+◌, ◌%◌, ◌^◌, ◌≤◌, ◌<◌, ◌≡◌, ◌↔◌, refl, sym, ap, ◌∙◌, List, [], ◌∷◌, ◌++◌, append-nil,
  Option, none, some, arith, length, drop, length-append, length-drop, eq-nil_of_length, ok, throws,
  message_is_too_big, ltb, true, false, true, ==_refl, ◌==◌, ensure, ◌>>=◌, ◌>>◌,
}
use native.Mathlib.Decide.{dec_le}
use common.Utils.Memory.{block, length-block}
use common.Utils.Buffer.{Buffer}
use common.Utils.Buffer
use common.Message.Types.{
  TransferMsgType, ResponseResult, type_byte, response_result_byte, ProtoMessage, Payload,
  max_request_proto_size, max_response_proto_size,
}
use common.Message.Endian.{from_uint32_to_big_endian, from_uint64_big_endian}
use common.Message.Encode.{
  put_next, fill_method_idx_bytes, serialized_size, create_transfer_msg_req,
  create_transfer_msg_res, fill_response_result_bytes,
}
use common.Message.Encode.Layout.{
  leading, leading_fields, fill_method_idx_bytes_lem, put_next_lem, length-from_uint32,
  length-from_uint64, advanced, after,
}

-- The bytes of a request and of a response, and the buffers that hold just them.
abbrev pub request_bytes : ℕ → ℕ → List ℕ → List ℕ
request_bytes number idx payload =
    leading TransferMsgType.req number payload ++ from_uint32_to_big_endian idx

abbrev pub response_bytes : ℕ → ResponseResult → List ℕ → List ℕ
response_bytes number rc payload =
    leading TransferMsgType.res number payload ++ response_result_byte rc ∷ []

abbrev pub exactly : List ℕ → Buffer
exactly bytes = record { m_buffer = some bytes; m_size = length bytes }

serialized_size-Payload :
    (message : Option ProtoMessage) (payload : List ℕ)
    → Payload message payload
    → serialized_size message ≡ length payload
unfolding serialized_size
serialized_size-Payload none payload p = ap length (sym p)
serialized_size-Payload (some m) payload p = p.size

pub length-leading :
    (type : TransferMsgType) (number : ℕ) (payload : List ℕ)
    → length (leading type number payload) ≡ 13 + length payload
length-leading type number payload = omega (
  arith,
  length-append (type_byte type ∷ [] ++ from_uint32_to_big_endian (length payload)) payload,
  length-append (from_uint32_to_big_endian (length payload)) payload,
  length-append (from_uint32_to_big_endian (length payload) ++ payload)
      (from_uint64_big_endian number),
  length-from_uint32 (length payload),
  length-from_uint64 number,
)

not-too_big : (n m : ℕ) → n ≤ m → ltb m n ≡ false
not-too_big n m h = ground arith

too_big : (n m : ℕ) → m < n → ltb m n ≡ true
too_big n m h = ground arith

-- The last check of the creators, when the last field has filled the block to its end.
finish :
    (n : ℕ) (done rest bytes : List ℕ)
    → length rest ≡ length bytes
    → n ≡ length done + length bytes
    → (do ensure (length (done ++ bytes) == n); ok (advanced n done rest bytes).buff)
      ≡ ok (exactly (done ++ bytes))
finish n done rest bytes h e =
    let whole : length (done ++ bytes) ≡ n = omega (arith, length-append done bytes) in
    let nothing =
      eq-nil_of_length (drop (length bytes) rest)
        (omega (arith, length-drop (length bytes) rest)) in
    rw (nothing, append-nil (done ++ bytes), whole, ==_refl n)

put_next_last :
    (n : ℕ) (done rest : List ℕ) (b : ℕ)
    → length rest ≡ 1
    → put_next (after n done rest) b ≡ ok (advanced n done rest (b ∷ []))
put_next_last n done [] b h = absurd (omega arith)
put_next_last n done (x ∷ rest) b h = put_next_lem n done x rest b

module _ (garbage : ℕ → ℕ) (number : ℕ) (message : Option ProtoMessage) (payload : List ℕ)
    (p : Payload message payload) where
  -- A message within the limit becomes exactly its bytes, whatever the new block held.
  pub create_transfer_msg_req_bytes :
      (idx : ℕ)
      → length payload ≤ max_request_proto_size
      → create_transfer_msg_req garbage number idx message
        ≡ ok (exactly (request_bytes number idx payload))
  unfolding create_transfer_msg_req Buffer.create
  create_transfer_msg_req_bytes idx h =
      let m = 16 + length payload in
      let n = suc m in
      let rest = block garbage m in
      let size = length-block garbage m in
      let done = leading TransferMsgType.req number payload in
      let left = drop (12 + length payload) rest in
      let spare = length-drop (12 + length payload) rest in
      let modest : length payload % 2 ^ 32 ≡ length payload = omega arith in
      let total : (5 + length payload + 12) % 2 ^ 32 ≡ n = omega arith in
      rw
        (
          serialized_size-Payload message payload p,
          not-too_big (length payload) max_request_proto_size h,
          modest,
          total,
        )
        (leading_fields n (garbage m) rest TransferMsgType.req number message payload
            (λ c4. do c5 ← fill_method_idx_bytes c4 idx; ensure (c5.pos == n); ok c5.buff) p
            (omega (arith, size)) (omega arith) (omega (arith, size))
          ∙ rw (fill_method_idx_bytes_lem n done left idx (omega (arith, size, spare))) (
              finish n done left (from_uint32_to_big_endian idx)
                (omega (arith, size, spare, length-from_uint32 idx))
                (omega (
                  arith,
                  length-leading TransferMsgType.req number payload,
                  length-from_uint32 idx,
                ))))

  pub create_transfer_msg_res_bytes :
      (rc : ResponseResult)
      → length payload ≤ max_response_proto_size
      → create_transfer_msg_res garbage number rc message
        ≡ ok (exactly (response_bytes number rc payload))
  unfolding create_transfer_msg_res Buffer.create fill_response_result_bytes
  create_transfer_msg_res_bytes rc h =
      let m = 13 + length payload in
      let n = suc m in
      let rest = block garbage m in
      let size = length-block garbage m in
      let done = leading TransferMsgType.res number payload in
      let left = drop (12 + length payload) rest in
      let spare = length-drop (12 + length payload) rest in
      let modest : length payload % 2 ^ 32 ≡ length payload = omega arith in
      let total : (5 + length payload + 9) % 2 ^ 32 ≡ n = omega arith in
      rw
        (
          serialized_size-Payload message payload p,
          not-too_big (length payload) max_response_proto_size h,
          modest,
          total,
        )
        (leading_fields n (garbage m) rest TransferMsgType.res number message payload
            (λ c4. do c5 ← put_next c4 (response_result_byte rc); ensure (c5.pos == n); ok c5.buff)
            p (omega (arith, size)) (omega arith) (omega (arith, size))
          ∙ rw (put_next_last n done left (response_result_byte rc) (omega (arith, size, spare))) (
              finish n done left (response_result_byte rc ∷ []) (omega (arith, size, spare))
                (omega (arith, length-leading TransferMsgType.res number payload))))

  request_refused :
      (idx : ℕ)
      → max_request_proto_size < length payload
      → create_transfer_msg_req garbage number idx message ≡ throws message_is_too_big
  unfolding create_transfer_msg_req
  request_refused idx h =
      rw
        (
          serialized_size-Payload message payload p,
          too_big (length payload) max_request_proto_size h,
        )
        refl

  response_refused :
      (rc : ResponseResult)
      → max_response_proto_size < length payload
      → create_transfer_msg_res garbage number rc message ≡ throws message_is_too_big
  unfolding create_transfer_msg_res
  response_refused rc h =
      rw
        (
          serialized_size-Payload message payload p,
          too_big (length payload) max_response_proto_size h,
        )
        refl

  -- Each creator refuses a message with message_is_too_big exactly if its bytes are more than its
  -- limit, whatever else it is given.
  pub create_refuses :
      (idx : ℕ) (rc : ResponseResult)
      → (create_transfer_msg_req garbage number idx message ≡ throws message_is_too_big
          ↔ max_request_proto_size < length payload)
        × (create_transfer_msg_res garbage number rc message ≡ throws message_is_too_big
            ↔ max_response_proto_size < length payload)
  create_refuses idx rc = (
    (
      λ h. elim (dec_le (length payload) max_request_proto_size) [
        | yes fits ↦ absurd (ground (arith, h, create_transfer_msg_req_bytes idx fits))
        | no big ↦ omega arith
      ],
      request_refused idx,
    ),
    (
      λ h. elim (dec_le (length payload) max_response_proto_size) [
        | yes fits ↦ absurd (ground (arith, h, create_transfer_msg_res_bytes rc fits))
        | no big ↦ omega arith
      ],
      response_refused rc,
    ),
  )
