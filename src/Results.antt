-- ===== src/Results.antt =====
-- The result enumerations: types/request-result.h, pipe/pipe-op-res.h, pipe/pipe-wait-res.h.
use common.Base.{Bool, true, false, not}

pub data RequestResult : Type 0 where
  ok unknown_error timeout canceled failed send_timeout send_canceled : RequestResult
  send_failed request_too_big request_not_processed invalid_response : RequestResult
  response_parse_error no_connection : RequestResult

pub data PipeOpRes : Type 0 where
  success canceled failed timeout : PipeOpRes

pub data PipeWaitRes : Type 0 where
  success canceled timeout failed : PipeWaitRes

-- `is_success` and `is_fail` of each enumeration
abbrev pub is_request_success : RequestResult → Bool
is_request_success ok = true
is_request_success _ = false

abbrev pub is_request_fail : RequestResult → Bool
is_request_fail rc = not (is_request_success rc)

abbrev pub is_op_success : PipeOpRes → Bool
is_op_success success = true
is_op_success _ = false

abbrev pub is_op_fail : PipeOpRes → Bool
is_op_fail r = not (is_op_success r)

abbrev pub is_wait_success : PipeWaitRes → Bool
is_wait_success success = true
is_wait_success _ = false

abbrev pub is_wait_fail : PipeWaitRes → Bool
is_wait_fail r = not (is_wait_success r)
