-- ===== src/Rpc/Controller.antt =====
-- request_controller and response_controller (rpc-lib/rpc-lib/internal/controller): the closures
-- that end a call on either side. `thrown` is whether an exception is in flight when one runs.
use common.Base.{Bool, if◌then◌else◌}
use common.Results.{RequestResult}
use common.Message.Types.{ResponseResult}

-- The result that the caller's promise gets from `request_controller::Run`, after `set_result`.
unfoldable pub request_run : Bool → RequestResult → RequestResult
request_run thrown m_request_result =
    if thrown then RequestResult.unknown_error else m_request_result

-- The result that the callback of `process_request_async` gets from `response_controller::Run`.
unfoldable pub response_run : Bool → ResponseResult
response_run thrown = if thrown then ResponseResult.unknown_error else ResponseResult.ok
