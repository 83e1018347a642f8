-- ===== src/Message/Tests.antt =====
-- Runs of the message code at concrete bytes, and the theorems at concrete inputs.
use common.Base.{
  ℕ, ◌<◌, ◌≡◌, ◌↔◌, refl, List, [], ◌∷◌, Option, none, some, true, false, arith, leb, if◌then◌else◌,
  ok, throws, message_is_too_big, invalid_buffer, ℤ, pos, negsuc,
}
use common.Utils.Memory.{store, write}
use common.Utils.Buffer
use common.Utils.Buffer.{Buffer}
use common.Utils.View.{CbufferView, of_buffer}
use common.Message.Types.{
  ProtoMessage, Serializes, ResponseResult, TransferMsgType, to_type, type_byte,
  max_request_proto_size, max_response_proto_size,
}
use common.Message.Endian.{from_uint32_to_big_endian, from_uint64_big_endian, from_uint_loop}
use common.Message.Encode.{
  create_transfer_msg_req, create_transfer_msg_res, serialized_size, fill_message_type_byte,
  put_next, fill_serialized_message_size_bytes, fill_loop, fill_serialized_message_bytes, write_all,
  fill_message_number_bytes, fill_method_idx_bytes,
}
use common.Message.Encode.Create.{
  request_bytes, exactly, create_transfer_msg_req_bytes, create_refuses,
}
use common.Message.Decode.{
  is_request_buffer_valid, is_response_buffer_valid, get_transfer_msg_type, get_msg_number_req,
  get_msg_method_idx_req, get_msg_number_res, get_msg_response_code_res,
  get_serialized_proto_message,
}
use common.Message.Decode.Fields.{Shows}
use common.Message.Decode.Total.{request_accessors, response_accessors, common_accessors}
use common.Message.RoundTrip.{contents, request_round_trip, response_round_trip}

abbrev small_write : ℤ → Option (List ℕ)
small_write (pos n) = if leb 3 n then some (7 ∷ 8 ∷ 9 ∷ []) else none
small_write (negsuc n) = none

-- A message that serialises to three bytes.
abbrev small_message : ProtoMessage
small_message = record { byte_size_long = 3; serialize_to_array = small_write }

small_message-Serializes : Serializes small_message (7 ∷ 8 ∷ 9 ∷ [])
small_message-Serializes = record {
  are_bytes = omega arith;
  size = refl;
  writes = λ n h k. ground arith;
}

abbrev garbage : ℕ → ℕ
garbage i = 0xCD

request_round_trip_example :
    (b : Buffer) × (create_transfer_msg_req garbage 300 2 (some small_message) ≡ ok b)
    × (is_request_buffer_valid (of_buffer b) ≡ ok true)
    × (get_transfer_msg_type (of_buffer b) ≡ ok TransferMsgType.req)
    × (get_msg_number_req (of_buffer b) ≡ ok 300)
    × (get_msg_method_idx_req (of_buffer b) ≡ ok 2)
    × ((v : CbufferView) × (get_serialized_proto_message (of_buffer b) ≡ ok v)
        × (contents v ≡ 7 ∷ 8 ∷ 9 ∷ [])
        × (v.m_size ≡ 3))
request_round_trip_example =
    request_round_trip garbage 300 2 (some small_message) (7 ∷ 8 ∷ 9 ∷ []) small_message-Serializes
      (omega arith) (omega arith) (omega arith)

response_round_trip_example :
    (b : Buffer) × (create_transfer_msg_res garbage 300 ResponseResult.canceled none ≡ ok b)
    × (is_response_buffer_valid (of_buffer b) ≡ ok true)
    × (get_transfer_msg_type (of_buffer b) ≡ ok TransferMsgType.res)
    × (get_msg_number_res (of_buffer b) ≡ ok 300)
    × (get_msg_response_code_res (of_buffer b) ≡ ok ResponseResult.canceled)
    × ((v : CbufferView) × (get_serialized_proto_message (of_buffer b) ≡ ok v)
        × (contents v ≡ [])
        × (v.m_size ≡ 0))
response_round_trip_example =
    response_round_trip garbage 300 ResponseResult.canceled none [] refl (omega arith) tt
      (omega arith)

-- The bytes of a request, at a glance.
create_req_run :
    create_transfer_msg_req garbage 300 2 (some small_message)
    ≡ ok (
        exactly
          (0 ∷ 0 ∷ 0 ∷ 0 ∷ 3 ∷ 7 ∷ 8 ∷ 9 ∷ 0 ∷ 0 ∷ 0 ∷ 0 ∷ 0 ∷ 0 ∷ 1 ∷ 44 ∷ 0 ∷ 0 ∷ 0 ∷ 2 ∷ []))
unfolding create_transfer_msg_req serialized_size fill_message_type_byte put_next Buffer.put
    Buffer.create write store type_byte fill_serialized_message_size_bytes fill_loop
    fill_serialized_message_bytes write_all fill_message_number_bytes fill_method_idx_bytes
    from_uint32_to_big_endian from_uint64_big_endian from_uint_loop
create_req_run = refl

create_transfer_msg_req_bytes_example :
    create_transfer_msg_req garbage 300 2 (some small_message)
    ≡ ok (exactly (request_bytes 300 2 (7 ∷ 8 ∷ 9 ∷ [])))
create_transfer_msg_req_bytes_example =
    create_transfer_msg_req_bytes garbage 300 (some small_message) (7 ∷ 8 ∷ 9 ∷ [])
      small_message-Serializes 2 (omega arith)

-- A hostile request: its header claims a payload of 2 ^ 32 - 1 bytes.
abbrev hostile : List ℕ
hostile = 0 ∷ 255 ∷ 255 ∷ 255 ∷ 255 ∷ 0 ∷ 0 ∷ 0 ∷ 0 ∷ 0 ∷ 0 ∷ 0 ∷ 0 ∷ 0 ∷ 0 ∷ 0 ∷ 0 ∷ []

abbrev hostile_view : CbufferView
hostile_view = record { m_buffer = some hostile; m_size = 17 }

hostile-Shows : Shows hostile_view hostile
hostile-Shows = record { points = refl; within = omega arith; are_bytes = omega arith }

request_accessors_example :
    (is_request_buffer_valid hostile_view ≡ ok false)
    × (get_msg_number_req hostile_view ≡ throws invalid_buffer)
    × (get_msg_method_idx_req hostile_view ≡ throws invalid_buffer)
unfolding type_byte
request_accessors_example = request_accessors hostile_view hostile hostile-Shows

response_accessors_example :
    (is_response_buffer_valid hostile_view ≡ ok false)
    × (get_msg_number_res hostile_view ≡ throws invalid_buffer)
    × (get_msg_response_code_res hostile_view ≡ throws invalid_buffer)
unfolding type_byte
response_accessors_example = response_accessors hostile_view hostile hostile-Shows

common_accessors_example :
    (get_transfer_msg_type hostile_view ≡ ok (to_type 0))
    × (get_serialized_proto_message hostile_view ≡ throws invalid_buffer)
common_accessors_example = common_accessors hostile_view hostile hostile-Shows

create_refuses_example :
    (create_transfer_msg_req garbage 300 2 (some small_message) ≡ throws message_is_too_big
      ↔ max_request_proto_size < 3)
    × (create_transfer_msg_res garbage 300 ResponseResult.ok (some small_message)
          ≡ throws message_is_too_big
        ↔ max_response_proto_size < 3)
create_refuses_example =
    create_refuses garbage 300 (some small_message) (7 ∷ 8 ∷ 9 ∷ []) small_message-Serializes 2
      ResponseResult.ok
