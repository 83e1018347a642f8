-- ===== src/Connection/Handlers.antt =====
-- connection::impl (internal/connection/connection.cpp). A method returns the new state and what
-- it asks of other objects, in order: the pipe below, the service above, the promises of callers.
-- The buffers of pings are created over `garbage` (Utils.Memory).
pub mod Dispatch
pub mod Watch
mod Tests
use common.Base.{
  ℕ, List, [], ◌∷◌, ◌++◌, Option, none, some, Bool, true, false, not, ◌&&◌, ◌||◌, if◌then◌else◌,
  Outcome, ok, throws, fault, ensure, ◌>>=◌, ◌>>◌,
}
use common.Base.Assoc.{find, is_absent, erase, modify, emplace}
use common.Utils.Buffer.{Buffer}
use common.Utils.Buffer
use common.Utils.View.{of_buffer}
use common.Results.{RequestResult, PipeOpRes, is_op_success, is_op_fail, is_request_fail}
use common.Message.Types.{TransferMsgType}
use common.Message.Encode.{create_transfer_msg_ping, create_transfer_msg_pong}
use common.Message.Decode.{
  is_request_buffer_valid, get_transfer_msg_type, get_msg_number_req, get_msg_number_res, is_type,
}
use common.Timer.Multiple.{MultipleTimer}
use common.Timer.Multiple
use common.Connection.Watcher.{ConnectionWatcher}
use common.Connection.Watcher

-- `request_data`. A promise is a number, given out by the caller of `request_async`.
pub record RequestData : Type 0 where
  pub promise : ℕ
  pub timer_id : ℕ
  pub is_req_sent : Bool
  pub fail_req_result : Option RequestResult

pub data State : Type 0 where
  never_started started deactivated : State

-- The fields that change, and whether there is a service. The callback of a request's timer is
-- the number of the message.
pub record Impl : Type 0 where
  pub m_state : State
  pub m_service : Bool
  pub m_request_map : List (ℕ × RequestData)
  pub m_multiple_timer : MultipleTimer ℕ
  pub m_watcher : ConnectionWatcher

pub data Effect : Type 0 where
  settle : ℕ → RequestResult → Buffer → Effect
  send_request : ℕ → Buffer → Effect
  send_control : Buffer → Effect
  serve : Buffer → Effect
  receive start_watching stop_watching stop_transport : Effect

abbrev pub is_started : State → Bool
is_started started = true
is_started _ = false

-- `connection(…)`
unfoldable pub create : Bool → ℕ → Impl
unfolding Watcher.create Multiple.fresh
create service ping_timeout = record {
  m_state = never_started;
  m_service = service;
  m_request_map = [];
  m_multiple_timer = Multiple.fresh;
  m_watcher = Watcher.create ping_timeout;
}

unfoldable pub start_from : State → Impl → Impl × List Effect
start_from never_started c = (record c { m_state = started }, start_watching ∷ receive ∷ [])
start_from _ c = (c, [])

unfoldable pub start : Impl → Impl × List Effect
start c = start_from c.m_state c

unfoldable pub deactivate : Impl → Impl × List Effect
deactivate c = (record c { m_state = deactivated }, stop_transport ∷ [])

-- `running` is what the transport answers to `is_running()`.
unfoldable pub is_active : Bool → Impl → Bool
is_active running c = is_started c.m_state && running

unfoldable pub add_request_to_map : ℕ → ℕ → Impl → Outcome Impl
add_request_to_map msg_number promise c = do
  ensure (is_absent msg_number c.m_request_map)
  (timer_id, timers) ← Multiple.start msg_number c.m_multiple_timer
  let entry : RequestData = record {
    promise = promise;
    timer_id = timer_id;
    is_req_sent = false;
    fail_req_result = none;
  }
  ok (record c {
    m_request_map = emplace msg_number entry c.m_request_map;
    m_multiple_timer = timers;
  })

-- The future that `request_async` returns: ready with a failure, or that of the promise.
pub data RequestFuture : Type 0 where
  ready : RequestResult → RequestFuture
  pending : ℕ → RequestFuture

unfoldable pub request_async :
    Bool → ℕ → Buffer → Impl → Outcome (Impl × List Effect × RequestFuture)
request_async running promise message c =
    if not (is_started c.m_state) || not running then ok (c, [], ready RequestResult.failed) else do
      valid ← is_request_buffer_valid (of_buffer message)
      ensure valid
      type ← get_transfer_msg_type (of_buffer message)
      ensure (is_type type TransferMsgType.req)
      msg_number ← get_msg_number_req (of_buffer message)
      c' ← add_request_to_map msg_number promise c
      ok (c', send_request msg_number message ∷ [], pending promise)

unfoldable pub complete_request : ℕ → RequestResult → Buffer → Impl → Impl × List Effect
complete_request number result res_msg c = elim (find number c.m_request_map) [
  | none ↦ (c, [])
  | some d ↦ (
    record c {
      m_request_map = erase number c.m_request_map;
      m_multiple_timer = Multiple.cancel d.timer_id c.m_multiple_timer;
    },
    settle d.promise result res_msg ∷ [],
  )
]

abbrev pub mark_sent : RequestData → RequestData
mark_sent d = record d { is_req_sent = true }

unfoldable pub process_request_sent : ℕ → Impl → Outcome (Impl × List Effect)
process_request_sent number c = elim (find number c.m_request_map) [
  | none ↦ ok (c, [])
  | some d ↦ elim d.fail_req_result [
    | none ↦ ok (record c { m_request_map = modify number mark_sent c.m_request_map }, [])
    | some result ↦ (do
      ensure (is_request_fail result)
      ok (
        record c { m_request_map = erase number c.m_request_map },
        settle d.promise result Buffer.empty ∷ [],
      ))
  ]
]

-- The continuation of `send_async` in `request_async`.
unfoldable pub send_callback : ℕ → PipeOpRes → Impl → Outcome (Impl × List Effect)
send_callback number PipeOpRes.success c = process_request_sent number c
send_callback number PipeOpRes.canceled c =
    ok (complete_request number RequestResult.send_canceled Buffer.empty c)
send_callback number PipeOpRes.timeout c =
    ok (complete_request number RequestResult.send_timeout Buffer.empty c)
send_callback number PipeOpRes.failed c =
    ok (complete_request number RequestResult.send_failed Buffer.empty c)

-- The callback of a request's timer.
unfoldable pub timer_callback : ℕ → Impl → Impl × List Effect
timer_callback number c = complete_request number RequestResult.timeout Buffer.empty c

-- The loop of `complete_receive_routine`: the map and the timers that it leaves, and the
-- promises that it takes out.
unfoldable pub abort_requests :
    RequestResult
    → List (ℕ × RequestData)
    → MultipleTimer ℕ
    → List (ℕ × RequestData) × MultipleTimer ℕ × List ℕ
abort_requests result [] timers = ([], timers, [])
abort_requests result ((number, d) ∷ m) timers =
    let (kept, timers', promises) = abort_requests result m (Multiple.cancel d.timer_id timers) in
    if d.is_req_sent
    then (kept, timers', d.promise ∷ promises)
    else ((number, record d { fail_req_result = some result }) ∷ kept, timers', promises)

abbrev pub settle_all : RequestResult → List ℕ → List Effect
settle_all result [] = []
settle_all result (p ∷ promises) = settle p result Buffer.empty ∷ settle_all result promises

abbrev pub abort_result : PipeOpRes → RequestResult
abort_result PipeOpRes.canceled = RequestResult.canceled
abort_result _ = RequestResult.failed

unfoldable pub complete_receive_routine : PipeOpRes → Impl → Outcome (Impl × List Effect)
complete_receive_routine r c = do
  ensure (is_op_fail r)
  ensure (elim r [ PipeOpRes.timeout ↦ false | _ ↦ true ])
  let (kept, timers, promises) = abort_requests (abort_result r) c.m_request_map c.m_multiple_timer
  ok (
    record c { m_request_map = kept; m_multiple_timer = timers },
    stop_watching ∷ settle_all (abort_result r) promises,
  )

module _ (garbage : ℕ → ℕ) where
  unfoldable pub handle_message : TransferMsgType → Buffer → Impl → Outcome (Impl × List Effect)
  handle_message TransferMsgType.req message c =
      ok (c, if c.m_service then serve message ∷ [] else [])
  handle_message TransferMsgType.res message c = do
    number ← get_msg_number_res (of_buffer message)
    ok (complete_request number RequestResult.ok message c)
  handle_message TransferMsgType.ping message c = do
    pong ← create_transfer_msg_pong garbage
    ok (c, send_control pong ∷ [])
  handle_message TransferMsgType.pong message c = ok (c, [])
  handle_message (TransferMsgType.other b) message c = fault

  -- The body of the `try` of `dispatch_receive_event`, and the `catch`.
  abbrev pub dispatch_body : Buffer → Impl → Outcome (Impl × List Effect)
  dispatch_body message c = do
    type ← get_transfer_msg_type (of_buffer message)
    (c', effects) ← handle_message type message c
    ok (record c' { m_watcher = Watcher.set_activity_flag c'.m_watcher }, effects)

  abbrev pub caught : Impl → Outcome (Impl × List Effect) → Outcome (Impl × List Effect)
  caught c (ok r) = ok r
  caught c (throws e) = ok (c, [])
  caught c fault = fault

  unfoldable pub dispatch_receive_event : Buffer → Impl → Outcome (Impl × List Effect)
  dispatch_receive_event message c = caught c (dispatch_body message c)

  -- The continuation of `recv_async` in `do_receive_async`.
  unfoldable pub receive_callback : PipeOpRes → Buffer → Impl → Outcome (Impl × List Effect)
  receive_callback result message c =
      if is_op_success result
      then (do (c', effects) ← dispatch_receive_event message c; ok (c', effects ++ receive ∷ []))
      else complete_receive_routine result c

  -- `now` and `later` are the times that the two calls of the clock answer.
  unfoldable pub process_watch_event : ℕ → ℕ → Impl → Outcome (Impl × List Effect)
  process_watch_event now later c =
      if Watcher.is_connection_not_responding now c.m_watcher
      then ok (deactivate c)
      else (let (active, w) = Watcher.check_and_drop_activity_flag c.m_watcher in
          if active then ok (record c { m_watcher = w }, []) else (do
            ping ← create_transfer_msg_ping garbage
            ok (record c { m_watcher = Watcher.set_ping_waiting later w }, send_control ping ∷ [])))
