-- ===== src/Message/Encode.antt =====
-- The writing half of transfer-message.cpp. The pair of references `buff` and `pos` is a cursor,
-- which each function returns anew.
pub mod Layout
pub mod Create
use common.Base.{
  Bool, ℕ, ◌+◌, ◌-◌, ◌%◌, ◌^◌, List, [], ◌∷◌, Option, none, some, ltb, leb, ◌==◌, length, Outcome,
  ok, throws, ensure, throw_if, ◌>>=◌, ◌>>◌, message_is_too_big, failed_to_serialize, to_int,
}
use common.Utils.Memory.{Pointer, write}
use common.Utils.Buffer.{Buffer}
use common.Utils.Buffer
use common.Message.Types.{
  TransferMsgType, ResponseResult, type_byte, response_result_byte, ProtoMessage,
  max_request_proto_size, max_response_proto_size, proto_size_bytes_count,
  message_number_bytes_count, method_idx_bytes_count, header_bytes_count, req_trailer_bytes_count,
  res_trailer_bytes_count,
}
use common.Message.Endian.{from_uint32_to_big_endian, from_uint64_big_endian}

pub record Cursor : Type 0 where
  pub buff : Buffer
  pub pos : ℕ

-- `buff[pos++] = b`
unfoldable pub put_next : Cursor → ℕ → Outcome Cursor
put_next c b = do buff ← Buffer.put c.buff c.pos b; ok (record { buff = buff; pos = c.pos + 1 })

-- `for(i …) buff[pos++] = bytes[i]`
unfoldable pub fill_loop : Cursor → List ℕ → Outcome Cursor
fill_loop c [] = ok c
fill_loop c (b ∷ bytes) = do c' ← put_next c b; fill_loop c' bytes

unfoldable pub fill_message_type_byte : Cursor → TransferMsgType → Outcome Cursor
fill_message_type_byte c type = put_next c (type_byte type)

unfoldable pub fill_serialized_message_size_bytes : Cursor → ℕ → Outcome Cursor
fill_serialized_message_size_bytes c size = do
  let bytes = from_uint32_to_big_endian size
  ensure (length bytes == proto_size_bytes_count)
  fill_loop c bytes

-- What `SerializeToArray` does to the memory behind `p + i`.
unfoldable pub write_all : Pointer → ℕ → List ℕ → Outcome Pointer
write_all p i [] = ok p
write_all p i (b ∷ bytes) = do p' ← write p i b; write_all p' (i + 1) bytes

unfoldable pub fill_serialized_message_bytes : Cursor → Option ProtoMessage → ℕ → Outcome Cursor
fill_serialized_message_bytes c none size = ok c
fill_serialized_message_bytes c (some message) size = do
  ensure (leb size (c.buff.m_size - c.pos))
  elim (message.serialize_to_array (to_int (c.buff.m_size - c.pos))) [
    | none ↦ throws failed_to_serialize
    | some bytes ↦ do
      p ← write_all c.buff.m_buffer c.pos bytes
      ok (record { buff = record { m_buffer = p; m_size = c.buff.m_size }; pos = c.pos + size })
  ]

unfoldable pub fill_message_number_bytes : Cursor → ℕ → Outcome Cursor
fill_message_number_bytes c number = do
  let bytes = from_uint64_big_endian number
  ensure (length bytes == message_number_bytes_count)
  fill_loop c bytes

unfoldable pub fill_method_idx_bytes : Cursor → ℕ → Outcome Cursor
fill_method_idx_bytes c idx = do
  let bytes = from_uint32_to_big_endian idx
  ensure (length bytes == method_idx_bytes_count)
  fill_loop c bytes

unfoldable pub fill_response_result_bytes : Cursor → ResponseResult → Outcome Cursor
fill_response_result_bytes c rc = put_next c (response_result_byte rc)

-- `if(message) size = message->ByteSizeLong()`, from 0
unfoldable pub serialized_size : Option ProtoMessage → ℕ
serialized_size none = 0
serialized_size (some message) = message.byte_size_long

unfoldable pub is_request_proto_too_big : ProtoMessage → Bool
is_request_proto_too_big message = ltb max_request_proto_size message.byte_size_long

unfoldable pub is_response_proto_too_big : ProtoMessage → Bool
is_response_proto_too_big message = ltb max_response_proto_size message.byte_size_long

module _ (garbage : ℕ → ℕ) where
  unfoldable pub create_transfer_msg_req : ℕ → ℕ → Option ProtoMessage → Outcome Buffer
  create_transfer_msg_req message_number method_idx message = do
    let size = serialized_size message
    throw_if (ltb max_request_proto_size size) message_is_too_big
    let buf_size = (header_bytes_count + size % 2 ^ 32 + req_trailer_bytes_count) % 2 ^ 32
    let start : Cursor = record { buff = Buffer.create garbage buf_size; pos = 0 }
    c1 ← fill_message_type_byte start TransferMsgType.req
    c2 ← fill_serialized_message_size_bytes c1 (size % 2 ^ 32)
    c3 ← fill_serialized_message_bytes c2 message (size % 2 ^ 32)
    c4 ← fill_message_number_bytes c3 message_number
    c5 ← fill_method_idx_bytes c4 method_idx
    ensure (c5.pos == buf_size)
    ok c5.buff

  unfoldable pub create_transfer_msg_res : ℕ → ResponseResult → Option ProtoMessage → Outcome Buffer
  create_transfer_msg_res message_number rc message = do
    let size = serialized_size message
    throw_if (ltb max_response_proto_size size) message_is_too_big
    let buf_size = (header_bytes_count + size % 2 ^ 32 + res_trailer_bytes_count) % 2 ^ 32
    let start : Cursor = record { buff = Buffer.create garbage buf_size; pos = 0 }
    c1 ← fill_message_type_byte start TransferMsgType.res
    c2 ← fill_serialized_message_size_bytes c1 (size % 2 ^ 32)
    c3 ← fill_serialized_message_bytes c2 message (size % 2 ^ 32)
    c4 ← fill_message_number_bytes c3 message_number
    c5 ← fill_response_result_bytes c4 rc
    ensure (c5.pos == buf_size)
    ok c5.buff

  unfoldable pub create_transfer_msg_ping : Outcome Buffer
  create_transfer_msg_ping = Buffer.put (Buffer.create garbage 1) 0 (type_byte TransferMsgType.ping)

  unfoldable pub create_transfer_msg_pong : Outcome Buffer
  create_transfer_msg_pong = Buffer.put (Buffer.create garbage 1) 0 (type_byte TransferMsgType.pong)
