-- ===== src/Rpc/Channel.antt =====
-- channel (internal/channel/channel.{h,cpp}): `CallMethod` sends a request, and its continuation
-- reads the response. The response message of protobuf is a parameter: what `Clear` and
-- `ParseFromArray` do to it.
use common.Base.{
  ℕ, ◌+◌, ◌%◌, ◌^◌, ℤ, to_int, some, Bool, not, ◌==◌, if◌then◌else◌, Outcome, ok, throws, fault,
  throw_if, unexpected_type, unexpected_number, ◌>>=◌, ◌>>◌,
}
use common.Utils.Memory.{Pointer}
use common.Utils.Buffer.{Buffer}
use common.Utils.View.{of_buffer}
use common.Results.{RequestResult, is_request_success}
use common.Message.Types.{ProtoMessage, TransferMsgType, is_success}
use common.Message.Encode.{create_transfer_msg_req, is_request_proto_too_big}
use common.Message.Decode.{
  is_response_buffer_valid, get_transfer_msg_type, get_msg_number_res, get_msg_response_code_res,
  get_serialized_proto_message, is_type,
}

pub record Channel : Type 0 where
  pub m_next_req_id : ℕ

unfoldable pub create : Channel
create = record { m_next_req_id = 0 }

-- What `CallMethod` does at once: it sets the result and ends, or it passes a message on to the
-- connection.
pub data Call : Type 0 where
  refused : RequestResult → Call
  sent : ℕ → Buffer → Call

-- `garbage` is what new blocks hold, and `index` is `method->index()`.
unfoldable pub call_method : (ℕ → ℕ) → ℕ → ProtoMessage → Channel → Outcome (Channel × Call)
call_method garbage index request c =
    if is_request_proto_too_big request then ok (c, refused RequestResult.request_too_big) else (do
      let req_id = c.m_next_req_id
      message ← create_transfer_msg_req garbage req_id (index % 2 ^ 32) (some request)
      ok (record c { m_next_req_id = (req_id + 1) % 2 ^ 64 }, sent req_id message))

-- A `google::protobuf::Message` that is read: `ParseFromArray(data, size)` answers and leaves a
-- message, `Clear()` leaves another.
pub record Readable (M : Type 0) : Type 0 where
  pub clear : M → M
  pub parse_from_array : Pointer → ℤ → M → Bool × M

-- `catch(...)`, with the response as it then stands.
abbrev pub caught : {M : Type 0} → M → Outcome (RequestResult × M) → Outcome (RequestResult × M)
caught response (ok r) = ok r
caught response (throws e) = ok (RequestResult.unknown_error, response)
caught response fault = fault

module _ {M : Type 0} (proto : Readable M) where
  -- The continuation from `response->Clear()` on.
  unfoldable pub parse_response : Buffer → M → Outcome (RequestResult × M)
  parse_response buffer response = caught response (do
    res_code ← get_msg_response_code_res (of_buffer buffer)
    if not (is_success res_code) then ok (RequestResult.request_not_processed, response) else (do
      serialized ← get_serialized_proto_message (of_buffer buffer)
      let (parsed, response') =
          proto.parse_from_array serialized.m_buffer (to_int serialized.m_size) response
      ok (if parsed then RequestResult.ok else RequestResult.response_parse_error, response')))

  -- The continuation of `request_async`: the result of the call, and the response.
  unfoldable pub receive_response : ℕ → RequestResult → Buffer → M → Outcome (RequestResult × M)
  receive_response req_id rc buffer response =
      if not (is_request_success rc)
      then ok (rc, response)
      else caught response (do
        valid ← is_response_buffer_valid (of_buffer buffer)
        if not valid then ok (RequestResult.invalid_response, response) else (do
          type ← get_transfer_msg_type (of_buffer buffer)
          throw_if (not (is_type type TransferMsgType.res)) unexpected_type
          number ← get_msg_number_res (of_buffer buffer)
          throw_if (not (number == req_id)) unexpected_number
          parse_response buffer (proto.clear response)))
