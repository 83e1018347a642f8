-- ===== src/Message/Decode.antt =====
-- The reading half of transfer-message.cpp.
pub mod Fields
pub mod Total
use common.Base.{
  ℕ, ◌+◌, ◌-◌, Bool, true, false, ltb, leb, ◌==◌, not, ◌||◌, Outcome, ok, throw_if, ◌&&◌, ◌>>=◌,
  ◌>>◌, invalid_buffer,
}
use common.Utils.Memory.{offset, read}
use common.Utils.View.{CbufferView}
use common.Utils.View
use common.Message.Types.{
  TransferMsgType, ResponseResult, to_type, type_byte, to_response_result, message_type_bytes_count,
  proto_size_bytes_count, message_number_bytes_count, method_idx_bytes_count, header_bytes_count,
  req_trailer_bytes_count, res_trailer_bytes_count,
}
use common.Message.Endian.{to_uint32_to_big_endian, to_uint64_big_endian}

-- `a && b` of C++: the right side runs only if the left one holds.
abbrev pub and_then : Bool → Outcome Bool → Outcome Bool
and_then a b = elim a [ true ↦ b | false ↦ ok false ]

-- `==` on `transfer_msg_type`
unfoldable pub is_type : TransferMsgType → TransferMsgType → Bool
unfolding type_byte
is_type a b = type_byte a == type_byte b

-- the view of `size` bytes at `message.data() + start`
abbrev pub field : CbufferView → ℕ → ℕ → CbufferView
field message start size = record { m_buffer = offset message.m_buffer start; m_size = size }

unfoldable pub extract_message_size : CbufferView → Outcome ℕ
extract_message_size message =
    to_uint32_to_big_endian (field message message_type_bytes_count proto_size_bytes_count)

unfoldable pub is_request_buffer_valid : CbufferView → Outcome Bool
unfolding View.to_bool
is_request_buffer_valid buff =
    and_then (View.to_bool buff && leb (header_bytes_count + req_trailer_bytes_count) buff.m_size)
      (do
        first ← View.get buff 0
        and_then (is_type (to_type first) TransferMsgType.req) (do
          size ← extract_message_size buff
          ok (leb size (buff.m_size - header_bytes_count - req_trailer_bytes_count))))

unfoldable pub is_response_buffer_valid : CbufferView → Outcome Bool
unfolding View.to_bool
is_response_buffer_valid buff =
    and_then (View.to_bool buff && leb (header_bytes_count + res_trailer_bytes_count) buff.m_size)
      (do
        first ← View.get buff 0
        and_then (is_type (to_type first) TransferMsgType.res) (do
          size ← extract_message_size buff
          ok (leb size (buff.m_size - header_bytes_count - res_trailer_bytes_count))))

unfoldable pub get_transfer_msg_type : CbufferView → Outcome TransferMsgType
unfolding View.to_bool
get_transfer_msg_type message = do
  throw_if (not (View.to_bool message) || message.m_size == 0) invalid_buffer
  first ← View.get message 0
  ok (to_type first)

unfoldable pub get_serialized_proto_message : CbufferView → Outcome CbufferView
unfolding View.to_bool
get_serialized_proto_message message = do
  throw_if (not (View.to_bool message) || ltb message.m_size header_bytes_count) invalid_buffer
  claimed ← extract_message_size message
  throw_if (ltb (message.m_size - header_bytes_count) claimed) invalid_buffer
  size ← extract_message_size message
  ok (field message header_bytes_count size)

unfoldable pub get_msg_number_req : CbufferView → Outcome ℕ
get_msg_number_req message = do
  valid ← is_request_buffer_valid message
  throw_if (not valid) invalid_buffer
  size ← extract_message_size message
  to_uint64_big_endian (field message (header_bytes_count + size) message_number_bytes_count)

unfoldable pub get_msg_method_idx_req : CbufferView → Outcome ℕ
get_msg_method_idx_req message = do
  valid ← is_request_buffer_valid message
  throw_if (not valid) invalid_buffer
  size ← extract_message_size message
  let start = header_bytes_count + size + message_number_bytes_count
  to_uint32_to_big_endian (field message start method_idx_bytes_count)

unfoldable pub get_msg_number_res : CbufferView → Outcome ℕ
get_msg_number_res message = do
  valid ← is_response_buffer_valid message
  throw_if (not valid) invalid_buffer
  size ← extract_message_size message
  to_uint64_big_endian (field message (header_bytes_count + size) message_number_bytes_count)

unfoldable pub get_msg_response_code_res : CbufferView → Outcome ResponseResult
get_msg_response_code_res message = do
  valid ← is_response_buffer_valid message
  throw_if (not valid) invalid_buffer
  size ← extract_message_size message
  let start = header_bytes_count + size + message_number_bytes_count
  code ← read (offset message.m_buffer start) 0
  ok (to_response_result code)
