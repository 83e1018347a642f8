-- ===== src/Message/RoundTrip.antt =====
-- The creators of transfer-message.cpp against its accessors.
use common.Base.{
  ℕ, ◌+◌, ◌^◌, ◌≤◌, ◌<◌, ◌≡◌, refl, ap, ◌∙◌, List, [], ◌∷◌, Option, none, some, true, arith, length,
  take_all, subst, sym, ==_refl, take, length-append, ok,
}
use common.Utils.Memory.{AllBytes}
use common.Utils.Buffer.{Buffer}
use common.Utils.View.{CbufferView, of_buffer}
use common.Message.Types.{
  TransferMsgType, req, res, ResponseResult, type_byte, response_result_byte, to_type, IsNamed,
  response_result_round, ProtoMessage, Payload, max_request_proto_size, max_response_proto_size,
}
use common.Message.Endian.{from_uint32_to_big_endian}
use common.Message.Endian.Value.{big_endian}
use common.Message.Encode.{create_transfer_msg_req, create_transfer_msg_res}
use common.Message.Encode.Layout.{leading, length-from_uint32}
use common.Message.Encode.Create.{
  request_bytes, response_bytes, exactly, create_transfer_msg_req_bytes,
  create_transfer_msg_res_bytes, length-leading,
}
use common.Message.Decode.{
  field, is_request_buffer_valid, is_response_buffer_valid, get_transfer_msg_type,
  get_serialized_proto_message, get_msg_number_req, get_msg_method_idx_req, get_msg_number_res,
  get_msg_response_code_res,
}
use common.Message.Decode.Fields.{Shows, number_at}
use common.Message.Decode.Total.{
  well_formed, is_request_buffer_valid_lem, is_response_buffer_valid_lem, get_transfer_msg_type_lem,
  get_serialized_proto_message_lem, get_msg_number_req_lem, get_msg_method_idx_req_lem,
  get_msg_number_res_lem, get_msg_response_code_res_lem,
}
use common.Message.Layout.{
  message, message_size, message_payload, message_number, message_trailer, message-AllBytes,
  big_endian-from_uint32, from_uint32-AllBytes,
}

-- The bytes that a view covers.
abbrev pub contents : CbufferView → List ℕ
contents v = elim v.m_buffer [ none ↦ [] | some mem ↦ take v.m_size mem ]

Payload-AllBytes :
    (message : Option ProtoMessage) (payload : List ℕ) → Payload message payload → AllBytes payload
Payload-AllBytes none payload p = subst AllBytes (sym p) tt
Payload-AllBytes (some m) payload p = p.are_bytes

-- A complete message of either kind, `k` bytes long behind the message number.
module _ (type : TransferMsgType) (number : ℕ) (payload trailer : List ℕ) (k : ℕ)
    (t : type_byte type < 256) (p : AllBytes payload) (r : AllBytes trailer)
    (h : length payload < 2 ^ 32) (hk : length trailer ≡ k) where
  abbrev written : CbufferView
  written = of_buffer (exactly (message type number payload trailer))

  written-Shows : Shows written (message type number payload trailer)
  unfolding of_buffer
  written-Shows = record {
    points = refl;
    within = omega arith;
    are_bytes = message-AllBytes type number payload trailer t p r;
  }

  written_size : number_at 1 4 (message type number payload trailer) ≡ length payload
  written_size = message_size type number payload trailer h

  m_size-written : written.m_size ≡ 13 + length payload + k
  unfolding of_buffer
  m_size-written = omega (
    arith,
    length-append (leading type number payload) trailer,
    length-leading type number payload,
    hk,
  )

  written-well_formed :
      well_formed type (8 + k) written.m_size (message type number payload trailer) ≡ true
  written-well_formed = rw (m_size-written, written_size, ==_refl (type_byte type)) (ground arith)

  -- The type and the payload of what was written.
  written_type : get_transfer_msg_type written ≡ ok (to_type (type_byte type))
  written_type =
      get_transfer_msg_type_lem written _ written-Shows ∙ rw m_size-written (ground arith)

  written_payload :
      (v : CbufferView) × (get_serialized_proto_message written ≡ ok v)
      × (contents v ≡ payload)
      × (v.m_size ≡ length payload)
  unfolding of_buffer
  written_payload = (
    field written 5 (length payload),
    get_serialized_proto_message_lem written _ written-Shows
        ∙ rw (written_size, m_size-written) (ground arith),
    message_payload type number payload trailer,
    refl,
  )

-- `create_transfer_msg_req` succeeds on every message within the limit, and the accessors of the
-- receiving side read back its number, method index and payload.
pub request_round_trip :
    (garbage : ℕ → ℕ) (number idx : ℕ) (m : Option ProtoMessage) (payload : List ℕ)
    → Payload m payload
    → number < 2 ^ 64
    → idx < 2 ^ 32
    → length payload ≤ max_request_proto_size
    → (b : Buffer) × (create_transfer_msg_req garbage number idx m ≡ ok b)
      × (is_request_buffer_valid (of_buffer b) ≡ ok true)
      × (get_transfer_msg_type (of_buffer b) ≡ ok TransferMsgType.req)
      × (get_msg_number_req (of_buffer b) ≡ ok number)
      × (get_msg_method_idx_req (of_buffer b) ≡ ok idx)
      × ((v : CbufferView) × (get_serialized_proto_message (of_buffer b) ≡ ok v)
          × (contents v ≡ payload)
          × (v.m_size ≡ length payload))
unfolding type_byte to_type
request_round_trip garbage number idx m payload p hn hi h = (
  exactly (request_bytes number idx payload),
  create_transfer_msg_req_bytes garbage number m payload p idx h,
  is_request_buffer_valid_lem v mem shows ∙ ap ok good,
  written_type req number payload trailer 4 (omega arith) bytes tb (omega arith)
      (length-from_uint32 idx),
  get_msg_number_req_lem v mem shows
      ∙ rw (good, size) (ap ok (message_number req number payload trailer hn)),
  get_msg_method_idx_req_lem v mem shows
      ∙ rw (good, size, message_trailer req number payload trailer)
          (ap ok (
            ap (big_endian 0) (take_all trailer (length-from_uint32 idx))
            ∙ big_endian-from_uint32 idx hi)),
  written_payload req number payload trailer 4 (omega arith) bytes tb (omega arith)
      (length-from_uint32 idx),
)
  where
    trailer : List ℕ
    trailer = from_uint32_to_big_endian idx

    tb : AllBytes trailer
    tb = from_uint32-AllBytes idx

    bytes : AllBytes payload
    bytes = Payload-AllBytes m payload p

    v : CbufferView
    v = of_buffer (exactly (request_bytes number idx payload))

    mem : List ℕ
    mem = request_bytes number idx payload

    shows : Shows v mem
    shows =
        written-Shows req number payload trailer 4 (omega arith) bytes tb (omega arith)
          (length-from_uint32 idx)

    size : number_at 1 4 mem ≡ length payload
    size = message_size req number payload trailer (omega arith)

    good : well_formed req 12 v.m_size mem ≡ true
    good =
        written-well_formed req number payload trailer 4 (omega arith) bytes tb (omega arith)
          (length-from_uint32 idx)

-- `create_transfer_msg_res` succeeds on every message within the limit, and the accessors of the
-- receiving side read back its number, its result, if that has a name, and its payload.
pub response_round_trip :
    (garbage : ℕ → ℕ) (number : ℕ) (rc : ResponseResult) (m : Option ProtoMessage)
    (payload : List ℕ)
    → Payload m payload
    → number < 2 ^ 64
    → IsNamed rc
    → length payload ≤ max_response_proto_size
    → (b : Buffer) × (create_transfer_msg_res garbage number rc m ≡ ok b)
      × (is_response_buffer_valid (of_buffer b) ≡ ok true)
      × (get_transfer_msg_type (of_buffer b) ≡ ok TransferMsgType.res)
      × (get_msg_number_res (of_buffer b) ≡ ok number)
      × (get_msg_response_code_res (of_buffer b) ≡ ok rc)
      × ((v : CbufferView) × (get_serialized_proto_message (of_buffer b) ≡ ok v)
          × (contents v ≡ payload)
          × (v.m_size ≡ length payload))
unfolding type_byte to_type
response_round_trip garbage number rc m payload p hn named h = (
  exactly (response_bytes number rc payload),
  create_transfer_msg_res_bytes garbage number m payload p rc h,
  is_response_buffer_valid_lem v mem shows ∙ ap ok good,
  written_type res number payload trailer 1 (omega arith) bytes tb (omega arith) refl,
  get_msg_number_res_lem v mem shows
      ∙ rw (good, size) (ap ok (message_number res number payload trailer hn)),
  get_msg_response_code_res_lem v mem shows
      ∙ rw (good, size, message_trailer res number payload trailer)
          (ap ok (response_result_round rc named).0),
  written_payload res number payload trailer 1 (omega arith) bytes tb (omega arith) refl,
)
  where
    trailer : List ℕ
    trailer = response_result_byte rc ∷ []

    tb : AllBytes trailer
    tb = ((response_result_round rc named).1, tt)

    bytes : AllBytes payload
    bytes = Payload-AllBytes m payload p

    v : CbufferView
    v = of_buffer (exactly (response_bytes number rc payload))

    mem : List ℕ
    mem = response_bytes number rc payload

    shows : Shows v mem
    shows = written-Shows res number payload trailer 1 (omega arith) bytes tb (omega arith) refl

    size : number_at 1 4 mem ≡ length payload
    size = message_size res number payload trailer (omega arith)

    good : well_formed res 9 v.m_size mem ≡ true
    good =
        written-well_formed res number payload trailer 1 (omega arith) bytes tb (omega arith) refl
