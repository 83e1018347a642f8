-- ===== src/Connection/World/Tests.antt =====
-- A run of a connection: it starts, sends a request, the pipe breaks before the send completes,
-- and the send then reports success.
use common.Base.{ℕ, ◌≡◌, refl, List, [], ◌∷◌, none, some, true, false, ok}
use common.Base.Assoc.{find, is_absent, erase, modify, emplace}
use common.Utils.Memory.{read}
use common.Utils.Buffer
use common.Utils.Buffer.{Buffer}
use common.Utils.View
use common.Utils.View.{of_buffer}
use common.Results.{RequestResult, PipeOpRes}
use common.Message.Types.{to_type}
use common.Message.Endian.{
  from_uint32_to_big_endian, from_uint_loop, from_uint64_big_endian, to_uint_loop,
  to_uint32_to_big_endian, to_uint64_big_endian,
}
use common.Message.Encode.Create.{request_bytes, exactly}
use common.Message.Decode.{
  is_request_buffer_valid, extract_message_size, get_transfer_msg_type, get_msg_number_req, is_type,
}
use common.Timer.Multiple
use common.Timer.Multiple.{MultipleTimer}
use common.Connection.Watcher
use common.Connection.Watcher.{ConnectionWatcher}
use common.Connection.Handlers
use common.Connection.Handlers.{
  Impl, State, RequestData, start, start_from, request_async, add_request_to_map, send_callback,
  process_request_sent, receive_callback, complete_receive_routine, abort_requests, settle_all,
}
use common.Connection.World.{
  World, initial, apply, on_request, on_sent, on_received, Reach, here, next, starts, requests,
  receives, sends,
}
use common.Connection.World.Sent.{sent_returns}
use common.Connection.World.Once.{Accounted, Reach-Accounted}

abbrev garbage : ℕ → ℕ
garbage i = 0xCD

abbrev request : Buffer
request = exactly (request_bytes 7 2 [])

abbrev watcher : ConnectionWatcher
watcher = record { ping_period = 5; activity_flag = true; start_ping_waiting = none }

abbrev timers : MultipleTimer ℕ
timers = record { m_next_id = 1; timers_map = (0, record { cancelled = false; callback = 7 }) ∷ [] }

abbrev cancelled_timers : MultipleTimer ℕ
cancelled_timers = record {
  m_next_id = 1;
  timers_map = (0, record { cancelled = true; callback = 7 }) ∷ [];
}

abbrev running : List (ℕ × RequestData) → MultipleTimer ℕ → Impl
running m t = record {
  m_state = State.started;
  m_service = true;
  m_request_map = m;
  m_multiple_timer = t;
  m_watcher = watcher;
}

abbrev started : World
started = record {
  impl = running [] (record { m_next_id = 0; timers_map = [] });
  issued = 0;
  settled = [];
  outstanding = [];
}

abbrev requested : World
requested = record {
  impl =
      running
        ((7, record { promise = 0; timer_id = 0; is_req_sent = false; fail_req_result = none })
          ∷ [])
        timers;
  issued = 1;
  settled = [];
  outstanding = 7 ∷ [];
}

abbrev broken : World
broken = record {
  impl =
      running
        ((
          7,
          record {
            promise = 0;
            timer_id = 0;
            is_req_sent = false;
            fail_req_result = some RequestResult.failed;
          },
        )
          ∷ [])
        cancelled_timers;
  issued = 1;
  settled = [];
  outstanding = 7 ∷ [];
}

abbrev finished : World
finished = record {
  impl = running [] cancelled_timers;
  issued = 1;
  settled = (0, RequestResult.failed) ∷ [];
  outstanding = [];
}

request_step : on_request true request started ≡ ok requested
unfolding on_request request_async is_request_buffer_valid of_buffer View.to_bool
    get_transfer_msg_type get_msg_number_req is_type add_request_to_map is_absent emplace
    from_uint32_to_big_endian from_uint_loop from_uint64_big_endian Multiple.start
    extract_message_size to_uint32_to_big_endian to_uint64_big_endian to_uint_loop View.get View.at
    read to_type find
request_step = refl

start_step : started ≡ apply (start (initial true 5).impl) (initial true 5)
unfolding initial Handlers.create start start_from Multiple.fresh Watcher.create
start_step = refl

break_step : on_received garbage PipeOpRes.failed Buffer.empty requested ≡ ok broken
unfolding on_received receive_callback complete_receive_routine abort_requests Multiple.cancel
    modify
break_step = refl

sent_step : on_sent 7 PipeOpRes.success broken ≡ ok finished
unfolding on_sent send_callback process_request_sent find erase Buffer.empty
sent_step = refl

history : Reach garbage (initial true 5) finished
history =
    next
      (next (next (next here (starts start_step)) (requests true request request_step))
        (receives PipeOpRes.failed Buffer.empty break_step))
      (sends 7 PipeOpRes.success refl sent_step)

Reach-Accounted_example : Accounted finished
Reach-Accounted_example = Reach-Accounted garbage true 5 history

broken_history : Reach garbage (initial true 5) broken
broken_history =
    next (next (next here (starts start_step)) (requests true request request_step))
      (receives PipeOpRes.failed Buffer.empty break_step)

sent_returns_example : (u : World) × (on_sent 7 PipeOpRes.success broken ≡ ok u)
sent_returns_example = sent_returns garbage true 5 7 PipeOpRes.success broken_history
