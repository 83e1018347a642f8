-- ===== src/Rpc/EndToEnd.antt =====
-- A whole call: the request that a channel sends, the service that takes it, and the response that
-- the channel reads.
use common.Base.{
  ℕ, ◌+◌, ◌%◌, ◌^◌, ◌<◌, ◌≤◌, ◌≡◌, refl, List, some, true, false, arith, ok, length, to_int,
  ==_refl, ltb,
}
use common.Utils.Buffer.{Buffer}
use common.Utils.View.{CbufferView, of_buffer}
use common.Results.{RequestResult}
use common.Message.Types.{
  ProtoMessage, Serializes, TransferMsgType, ResponseResult, max_request_proto_size,
  max_response_proto_size, is_success, response_result_byte, type_byte,
}
use common.Message.Encode.{
  is_request_proto_too_big, is_response_proto_too_big, create_transfer_msg_res,
}
use common.Message.Decode.{
  is_request_buffer_valid, is_response_buffer_valid, get_transfer_msg_type, get_msg_number_req,
  get_msg_method_idx_req, get_msg_number_res, get_msg_response_code_res,
  get_serialized_proto_message, is_type,
}
use common.Message.RoundTrip.{contents, request_round_trip, response_round_trip}
use common.Rpc.Controller.{response_run}
use common.Rpc.Channel.{Channel, call_method, sent, Readable, receive_response, parse_response}
use common.Rpc.Service.{Generated, called, process_request, finish_request}

-- `ParseFromArray` makes `q` of the request bytes `bytes` of method `idx`, wherever they lie.
abbrev pub ParsesRequest : {Q : Type 0} → Generated Q → ℕ → List ℕ → Q → Type 0
ParsesRequest g idx bytes q =
    (v : CbufferView)
    → contents v ≡ bytes
    → v.m_size ≡ length bytes
    → g.parse_from_array idx v.m_buffer (to_int v.m_size) ≡ some q

-- `ParseFromArray` makes `r` of the response bytes `bytes` and the message `m`.
abbrev pub ParsesResponse : {M : Type 0} → Readable M → List ℕ → M → M → Type 0
ParsesResponse proto bytes m r =
    (v : CbufferView)
    → contents v ≡ bytes
    → v.m_size ≡ length bytes
    → proto.parse_from_array v.m_buffer (to_int v.m_size) m ≡ (true, r)

-- A valid request for a method that the service has is parsed and its method is called.
called_lem :
    (garbage : ℕ → ℕ) {Q : Type 0} (g : Generated Q) (b : Buffer) (number idx : ℕ) (v : CbufferView)
    (q : Q)
    → is_request_buffer_valid (of_buffer b) ≡ ok true
    → get_transfer_msg_type (of_buffer b) ≡ ok TransferMsgType.req
    → get_msg_number_req (of_buffer b) ≡ ok number
    → get_msg_method_idx_req (of_buffer b) ≡ ok idx
    → get_serialized_proto_message (of_buffer b) ≡ ok v
    → idx < g.method_count % 2 ^ 32
    → g.parse_from_array idx v.m_buffer (to_int v.m_size) ≡ some q
    → process_request garbage (some g) b ≡ ok (called number idx q)
unfolding process_request is_type type_byte
called_lem garbage g b number idx v q valid type n i s h p =
    rw (valid, type, n, i, s, p) (ground arith)

-- A valid response with the expected number and a success is parsed.
read_lem :
    {M : Type 0} (proto : Readable M) (b : Buffer) (number : ℕ) (v : CbufferView) (m r : M)
    → is_response_buffer_valid (of_buffer b) ≡ ok true
    → get_transfer_msg_type (of_buffer b) ≡ ok TransferMsgType.res
    → get_msg_number_res (of_buffer b) ≡ ok number
    → get_msg_response_code_res (of_buffer b) ≡ ok ResponseResult.ok
    → get_serialized_proto_message (of_buffer b) ≡ ok v
    → proto.parse_from_array v.m_buffer (to_int v.m_size) (proto.clear m) ≡ (true, r)
    → receive_response proto number RequestResult.ok b m ≡ ok (RequestResult.ok, r)
unfolding receive_response parse_response is_type type_byte is_success response_result_byte
read_lem proto b number v m r valid type n code s p =
    rw (valid, type, n, code, s, p, ==_refl number) refl

module _ (garbage : ℕ → ℕ) where
  -- The channel sends a message within the limit, under its next number.
  sent_lem :
      (c : Channel) (index : ℕ) (request : ProtoMessage) (bytes : List ℕ) (b : Buffer)
      → Serializes request bytes
      → index < 2 ^ 32
      → length bytes ≤ max_request_proto_size
      → common.Message.Encode.create_transfer_msg_req garbage c.m_next_req_id index (some request)
        ≡ ok b
      → call_method garbage index request c
        ≡ ok (record c { m_next_req_id = (c.m_next_req_id + 1) % 2 ^ 64 }, sent c.m_next_req_id b)
  unfolding call_method is_request_proto_too_big
  sent_lem c index request bytes b s hi h e = rw (small, same, e) refl
    where
      small : ltb max_request_proto_size request.byte_size_long ≡ false
      small = ground (arith, s.size)

      same : index % 2 ^ 32 ≡ index
      same = omega arith

  finish_lem :
      {Q : Type 0} (g : Generated Q) (number : ℕ) (res : ProtoMessage) (bytes : List ℕ) (b : Buffer)
      → Serializes res bytes
      → length bytes ≤ max_response_proto_size
      → create_transfer_msg_res garbage number ResponseResult.ok (some res) ≡ ok b
      → finish_request garbage g number (response_run false) res ≡ ok b
  unfolding finish_request response_run is_response_proto_too_big
  finish_lem g number res bytes b s h e = rw (small, e) refl
    where
      small : ltb max_response_proto_size res.byte_size_long ≡ false
      small = ground (arith, s.size)

-- A call within the limits goes through: the channel sends a buffer; the service, given that
-- buffer, calls the method with the request that the client serialised; and when the method ends
-- with a response, the service answers with a buffer that the channel turns into the result ok and
-- that response. The request and the response are what protobuf parses from the bytes that it
-- serialised.
pub call_lem :
    (client server : ℕ → ℕ) {Q M : Type 0} (c : Channel) (g : Generated Q) (proto : Readable M)
    (index : ℕ) (request response : ProtoMessage) (bytes_q bytes_r : List ℕ) (q : Q) (m r : M)
    → c.m_next_req_id < 2 ^ 64
    → index < g.method_count % 2 ^ 32
    → Serializes request bytes_q
    → length bytes_q ≤ max_request_proto_size
    → ParsesRequest g index bytes_q q
    → Serializes response bytes_r
    → length bytes_r ≤ max_response_proto_size
    → ParsesResponse proto bytes_r (proto.clear m) r
    → let id = c.m_next_req_id in
      (b : Buffer) × (call_method client index request c
        ≡ ok (record c { m_next_req_id = (id + 1) % 2 ^ 64 }, sent id b))
      × (process_request server (some g) b ≡ ok (called id index q))
      × ((b' : Buffer) × (finish_request server g id (response_run false) response ≡ ok b')
          × (receive_response proto id RequestResult.ok b' m ≡ ok (RequestResult.ok, r)))
call_lem client server c g proto index request response bytes_q bytes_r q m r hn hi sq hq pq sr hr
      pr =
    let id = c.m_next_req_id in
    let (b, made, valid, type, number, idx, (v, payload, shown, size)) =
      request_round_trip client id index (some request) bytes_q sq hn (omega (arith, hi)) hq in
    let (b', made', valid', type', number', code', (v', payload', shown', size')) =
      response_round_trip server id ResponseResult.ok (some response) bytes_r sr hn tt hr in
    (
      b,
      sent_lem client c index request bytes_q b sq (omega (arith, hi)) hq made,
      called_lem server g b id index v q valid type number idx payload hi (pq v shown size),
      (
        b',
        finish_lem server g id response bytes_r b' sr hr made',
        read_lem proto b' id v' m r valid' type' number' code' payload' (pr v' shown' size'),
      ),
    )
