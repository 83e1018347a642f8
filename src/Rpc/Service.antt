-- ===== src/Rpc/Service.antt =====
-- service (internal/service/service.h): `process_request_async` on a received request. The
-- generated service of protobuf is a parameter.
use common.Base.{
  ℕ, ◌%◌, ◌^◌, ℤ, to_int, Option, none, some, not, leb, if◌then◌else◌, Outcome, ok, ensure, ◌>>=◌,
  ◌>>◌,
}
use common.Utils.Memory.{Pointer}
use common.Utils.Buffer.{Buffer}
use common.Utils.View.{of_buffer}
use common.Message.Types.{ProtoMessage, TransferMsgType, ResponseResult}
use common.Message.Encode.{create_transfer_msg_res, is_response_proto_too_big}
use common.Message.Decode.{
  is_request_buffer_valid, get_transfer_msg_type, get_msg_number_req, get_msg_method_idx_req,
  get_serialized_proto_message, is_type,
}

-- A service that protobuf generated, for requests of type `Q`: the number of its methods, how the
-- request of a method is parsed, the fresh response of a method, and `Clear()` on a response.
pub record Generated (Q : Type 0) : Type 0 where
  pub method_count : ℕ
  pub parse_from_array : ℕ → Pointer → ℤ → Option Q
  pub new_response : ℕ → ProtoMessage
  pub clear : ProtoMessage → ProtoMessage

-- The task answers at once, or it calls a method, which answers later under the message number.
pub data Processed (Q : Type 0) : Type 0 where
  answered : Buffer → Processed Q
  called : ℕ → ℕ → Q → Processed Q

module _ (garbage : ℕ → ℕ) {Q : Type 0} where
  -- The answer to a request that is not passed on.
  abbrev pub refuse : ℕ → ResponseResult → Option ProtoMessage → Outcome (Processed Q)
  refuse number rc res = do
    message ← create_transfer_msg_res garbage number rc res
    ok (answered message)

  -- The call of method `idx`, once its request is parsed.
  abbrev pub dispatch : Generated Q → ℕ → ℕ → Option Q → Outcome (Processed Q)
  dispatch g number idx none =
      refuse number ResponseResult.request_parse_error (some (g.new_response idx))
  dispatch g number idx (some req) = ok (called number idx req)

  -- The service behind a pointer that may be null.
  abbrev pub with_service : Option (Generated Q) → ℕ → ℕ → Pointer → ℤ → Outcome (Processed Q)
  with_service none number idx bytes size = refuse number ResponseResult.not_implemented none
  with_service (some g) number idx bytes size =
      if leb (g.method_count % 2 ^ 32) idx
      then refuse number ResponseResult.not_implemented none
      else dispatch g number idx (g.parse_from_array idx bytes size)

  unfoldable pub process_request : Option (Generated Q) → Buffer → Outcome (Processed Q)
  process_request gservice req_msg = do
    valid ← is_request_buffer_valid (of_buffer req_msg)
    if not valid then refuse 0xFFFF_FFFF_FFFF_FFFF ResponseResult.invalid_request none else (do
      type ← get_transfer_msg_type (of_buffer req_msg)
      ensure (is_type type TransferMsgType.req)
      number ← get_msg_number_req (of_buffer req_msg)
      idx ← get_msg_method_idx_req (of_buffer req_msg)
      serialized ← get_serialized_proto_message (of_buffer req_msg)
      with_service gservice number idx serialized.m_buffer (to_int serialized.m_size))

  -- The callback that ends a method's call, with the response that the method has filled.
  unfoldable pub finish_request : Generated Q → ℕ → ResponseResult → ProtoMessage → Outcome Buffer
  finish_request g number rc res =
      if is_response_proto_too_big res
      then create_transfer_msg_res garbage number ResponseResult.response_too_big
          (some (g.clear res))
      else create_transfer_msg_res garbage number rc (some res)
