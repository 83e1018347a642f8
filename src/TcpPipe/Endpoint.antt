-- ===== src/TcpPipe/Endpoint.antt =====
-- tcp_pipe_endpoint::impl (pipe/tcp-pipe/tcp-pipe-endpoint.cpp). The templates over the kind of
-- operation are sections over a `Kind`. A list of operations stands from its back, the operation
-- in progress, to its front. A function is one critical section; a `Turn` is what it leaves, the
-- results that are then published, the disconnect callbacks that run, and the operation on the
-- socket that it has started.
use common.Base.{
  ℕ, List, [], ◌∷◌, ◌++◌, Option, none, some, Bool, true, false, not, ◌||◌, ◌==◌, if◌then◌else◌,
  Outcome, ok, fault, ◌>>=◌,
}
use common.Utils.Buffer.{Buffer}
use common.Results.{PipeOpRes}
use common.Timer.Multiple.{MultipleTimer}
use common.Timer.Multiple

-- What the templates use of a kind of operation with progress `B`, whose buffers for asio are `R`.
-- `take` is what `take_pending_result` does to the payload.
pub record Kind (B R : Type 0) : Type 0 where
  pub add_bytes : ℕ → B → B
  pub header_buffer : B → Outcome R
  pub payload_buffer : B → Outcome R
  pub is_header_completed : B → Bool
  pub is_payload_completed : B → Outcome Bool
  pub is_payload_buffer_valid : B → Bool
  pub take : PipeOpRes → B → B × Buffer

pub record Operation (B : Type 0) : Type 0 where
  pub progress : B
  pub m_is_promise_resolved : Bool
  pub m_promise : ℕ

-- `pending_write_result` and `pending_read_result`; the buffer of a write is empty.
pub record PendingResult : Type 0 where
  pub promise : ℕ
  pub result : PipeOpRes
  pub buffer : Buffer

-- `write_operation_data` and `read_operation_data`
pub record OperationData (B : Type 0) : Type 0 where
  pub id : ℕ
  pub op : Operation B
  pub timer_id : Option ℕ

-- What the callback of a timer holds: the side of the endpoint, and the id there.
pub data Side : Type 0 where
  writer reader : Side

pub record Expiry : Type 0 where
  pub side : Side
  pub id : ℕ

abbrev pub Timer : Type 0
Timer = MultipleTimer Expiry

pub record Socket : Type 0 where
  pub is_open : Bool
  pub m_was_invalidated_by_fail : Bool
  pub m_disconnect_callbacks : List ℕ

-- `boost::system::error_code`
pub data ErrorCode : Type 0 where
  success operation_aborted failure : ErrorCode

pub data Started (R : Type 0) : Type 0 where
  header payload : R → Started R

pub record Turn (B R : Type 0) : Type 0 where
  pub operations : List (OperationData B)
  pub timer : Timer
  pub socket : Socket
  pub results : List PendingResult
  pub callbacks : List ℕ
  pub started : Option (Started R)

-- The result of the operations that a closed socket ends.
abbrev pub closing_result : Socket → PipeOpRes
closing_result s = if s.m_was_invalidated_by_fail then PipeOpRes.failed else PipeOpRes.canceled

-- The socket, and the callbacks that run.
unfoldable pub invalidate_unsafe : Bool → Socket → Socket × List ℕ
invalidate_unsafe by_cancel s = (
  record {
    is_open = false;
    m_was_invalidated_by_fail = if s.is_open then not by_cancel else s.m_was_invalidated_by_fail;
    m_disconnect_callbacks = [];
  },
  s.m_disconnect_callbacks,
)

unfoldable pub set_disconnect_callback : ℕ → Socket → Socket × List ℕ
set_disconnect_callback callback s =
    if s.is_open
    then (record s { m_disconnect_callbacks = s.m_disconnect_callbacks ++ callback ∷ [] }, [])
    else (s, callback ∷ [])

abbrev pub cancel_timer : Option ℕ → Timer → Timer
cancel_timer none t = t
cancel_timer (some id) t = Multiple.cancel id t

abbrev pub start_timer : Option ℕ → Expiry → Timer → Outcome (Option ℕ × Timer)
start_timer none expiry t = ok (none, t)
start_timer (some timeout) expiry t = do
  (timer_id, t') ← Multiple.start expiry t
  ok (some timer_id, t')

module _ {B R : Type 0} (k : Kind B R) where
  -- The operation, and its result if it has given none.
  unfoldable pub take_pending_result : PipeOpRes → Operation B → Operation B × List PendingResult
  take_pending_result r op =
      let (progress, buffer) = k.take r op.progress in
      if op.m_is_promise_resolved then (op, []) else (
        record op { progress = progress; m_is_promise_resolved = true },
        record { promise = op.m_promise; result = r; buffer = buffer } ∷ [],
      )

  unfoldable pub complete_all_operations_unsafe :
      PipeOpRes → List (OperationData B) → Timer → Timer × List PendingResult
  complete_all_operations_unsafe r [] t = (t, [])
  complete_all_operations_unsafe r (d ∷ ds) t =
      let (t', results) = complete_all_operations_unsafe r ds (cancel_timer d.timer_id t) in
      (t', (take_pending_result r d.op).1 ++ results)

  -- All operations end with `r`; `callbacks` have run.
  abbrev pub ends_with :
      PipeOpRes → List ℕ → List (OperationData B) → Timer → Socket → Outcome (Turn B R)
  ends_with r callbacks ops t s =
      let (t', results) = complete_all_operations_unsafe r ops t in
      ok (record {
        operations = [];
        timer = t';
        socket = s;
        results = results;
        callbacks = callbacks;
        started = none;
      })

  abbrev pub goes_on : Started R → List (OperationData B) → Timer → Socket → Outcome (Turn B R)
  goes_on started ops t s = ok (record {
    operations = ops;
    timer = t;
    socket = s;
    results = [];
    callbacks = [];
    started = some started;
  })

  -- `start_write_header_async` and `start_read_header_async`
  unfoldable pub start_header_async : List (OperationData B) → Timer → Socket → Outcome (Turn B R)
  start_header_async [] t s = fault
  start_header_async (d ∷ ds) t s = elim s.is_open [
    | false ↦ ends_with (closing_result s) [] (d ∷ ds) t s
    | true ↦ (do buffer ← k.header_buffer d.op.progress; goes_on (header buffer) (d ∷ ds) t s)
  ]

  -- `start_write_payload_async` and `start_read_payload_async`
  unfoldable pub start_payload_async : List (OperationData B) → Timer → Socket → Outcome (Turn B R)
  start_payload_async [] t s = fault
  start_payload_async (d ∷ ds) t s = elim (k.is_payload_buffer_valid d.op.progress) [
    | false ↦
        (let (s', callbacks) = invalidate_unsafe false s in
          ends_with PipeOpRes.failed callbacks (d ∷ ds) t s')
    | true ↦ elim s.is_open [
      | false ↦ ends_with (closing_result s) [] (d ∷ ds) t s
      | true ↦ (do buffer ← k.payload_buffer d.op.progress; goes_on (payload buffer) (d ∷ ds) t s)
    ]
  ]

  -- The branch of an error, in both handlers.
  abbrev pub fails : Bool → List (OperationData B) → Timer → Socket → Outcome (Turn B R)
  fails aborted ops t s = elim (aborted || not s.is_open) [
    | true ↦ ends_with (closing_result s) [] ops t s
    | false ↦
        (let (s', callbacks) = invalidate_unsafe false s in
          ends_with PipeOpRes.failed callbacks ops t s')
  ]

  abbrev pub with_bytes : ℕ → OperationData B → OperationData B
  with_bytes bytes d = record d { op = record d.op { progress = k.add_bytes bytes d.op.progress } }

  abbrev pub after_header :
      ErrorCode → OperationData B → List (OperationData B) → Timer → Socket → Outcome (Turn B R)
  after_header success d ds t s = elim (k.is_header_completed d.op.progress) [
    | false ↦ start_header_async (d ∷ ds) t s
    | true ↦ start_payload_async (d ∷ ds) t s
  ]
  after_header operation_aborted d ds t s = fails true (d ∷ ds) t s
  after_header failure d ds t s = fails false (d ∷ ds) t s

  unfoldable pub on_header_operation :
      ErrorCode → ℕ → List (OperationData B) → Timer → Socket → Outcome (Turn B R)
  on_header_operation ec bytes [] t s = fault
  on_header_operation ec bytes (d ∷ ds) t s = after_header ec (with_bytes bytes d) ds t s

  -- The next operation, when one has been popped.
  abbrev pub next_operation : List (OperationData B) → Timer → Socket → Outcome (Turn B R)
  next_operation [] t s = ok (record {
    operations = [];
    timer = t;
    socket = s;
    results = [];
    callbacks = [];
    started = none;
  })
  next_operation (d ∷ ds) t s = start_header_async (d ∷ ds) t s

  abbrev pub completes :
      OperationData B → List (OperationData B) → Timer → Socket → Outcome (Turn B R)
  completes d ds t s = do
    let result = (take_pending_result PipeOpRes.success d.op).1
    turn ← next_operation ds (cancel_timer d.timer_id t) s
    ok (record turn { results = result ++ turn.results })

  abbrev pub after_payload :
      ErrorCode → OperationData B → List (OperationData B) → Timer → Socket → Outcome (Turn B R)
  after_payload success d ds t s = do
    completed ← k.is_payload_completed d.op.progress
    elim completed [ false ↦ start_payload_async (d ∷ ds) t s | true ↦ completes d ds t s ]
  after_payload operation_aborted d ds t s = fails true (d ∷ ds) t s
  after_payload failure d ds t s = fails false (d ∷ ds) t s

  unfoldable pub on_payload_operation :
      ErrorCode → ℕ → List (OperationData B) → Timer → Socket → Outcome (Turn B R)
  on_payload_operation ec bytes [] t s = fault
  on_payload_operation ec bytes (d ∷ ds) t s = after_payload ec (with_bytes bytes d) ds t s

  -- `emplace_front`, and the start if the operation is the only one.
  abbrev pub emplace_front :
      List (OperationData B) → OperationData B → Timer → Socket → Outcome (Turn B R)
  emplace_front [] d t s = start_header_async (d ∷ []) t s
  emplace_front (d' ∷ ds) d t s = ok (record {
    operations = d' ∷ (ds ++ d ∷ []);
    timer = t;
    socket = s;
    results = [];
    callbacks = [];
    started = none;
  })

  -- `write_async` and `read_async` on an open socket, with the operation `progress`.
  unfoldable pub add_operation :
      Side → Option ℕ → ℕ → B → ℕ → List (OperationData B) → Timer → Socket → Outcome (Turn B R)
  add_operation side timeout promise progress id ops t s = do
    (timer_id, t') ← start_timer timeout (record { side = side; id = id }) t
    let op : Operation B = record {
      progress = progress;
      m_is_promise_resolved = false;
      m_promise = promise;
    }
    emplace_front ops (record { id = id; op = op; timer_id = timer_id }) t' s

  -- The operation `id`, not the one in progress: taken out, with its result.
  abbrev pub time_out_later :
      ℕ → PipeOpRes → List (OperationData B) → List (OperationData B) × List PendingResult
  time_out_later id r [] = ([], [])
  time_out_later id r (d ∷ ds) =
      let (ds', results) = time_out_later id r ds in
      if d.id == id then (ds, (take_pending_result r d.op).1) else (d ∷ ds', results)

  -- The callback of the timer of an operation: the one in progress stays.
  unfoldable pub on_timeout :
      ℕ → List (OperationData B) → Socket → List (OperationData B) × List PendingResult
  on_timeout id [] s = ([], [])
  on_timeout id (d ∷ ds) s =
      let r = if s.is_open then PipeOpRes.timeout else closing_result s in
      let (op, results) = take_pending_result r d.op in
      let (ds', results') = time_out_later id r ds in
      if d.id == id then (record d { op = op } ∷ ds, results) else (d ∷ ds', results')
