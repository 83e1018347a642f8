-- ===== src/TcpPipe/ServerEnv.antt =====
-- tcp_pipe_server_env::impl (pipe/tcp-pipe/tcp-pipe-server-env.cpp). The list of operations stands
-- from its back, the operation in progress, to its front. A socket that asio accepts is a number.
pub mod Events
pub mod Removed
pub mod Balance
pub mod Calls
pub mod History
pub mod Cancel
mod Tests
use common.Base.{
  ℕ, ◌+◌, ◌%◌, ◌^◌, List, [], ◌∷◌, ◌++◌, Option, none, some, Bool, true, false, not, ◌&&◌, ◌||◌,
  ◌==◌, if◌then◌else◌, Outcome, ok, ensure, ◌>>=◌, ◌>>◌,
}
use common.Results.{PipeWaitRes}
use common.Timer.Multiple.{MultipleTimer}
use common.Timer.Multiple

pub record CreateOperation : Type 0 where
  pub m_was_started : Bool
  pub m_was_canceled : Bool
  pub m_canceled_by_timer : Bool
  pub m_promise : ℕ

-- How an accept ended, the options of its socket included.
pub data Accept : Type 0 where
  accept_failed options_failed : Accept
  accepted : ℕ → Accept

unfoldable pub start : CreateOperation → Outcome CreateOperation
start op = do
  ensure (not op.m_was_started)
  ensure (not op.m_was_canceled)
  ok (record op { m_was_started = true })

abbrev pub cancel_result : Bool → PipeWaitRes
cancel_result by_timer = if by_timer then PipeWaitRes.timeout else PipeWaitRes.canceled

abbrev pub accept_result : Accept → PipeWaitRes × Option ℕ
accept_result accept_failed = (PipeWaitRes.failed, none)
accept_result options_failed = (PipeWaitRes.failed, none)
accept_result (accepted socket) = (PipeWaitRes.success, some socket)

-- The handler of the accept: the result and the endpoint that it completes with.
unfoldable pub on_accept : Accept → CreateOperation → PipeWaitRes × Option ℕ
on_accept a op =
    if op.m_was_canceled then (cancel_result op.m_canceled_by_timer, none) else accept_result a

-- The operation, and the result to complete with, if the accept does not.
unfoldable pub cancel : Bool → CreateOperation → CreateOperation × Option PipeWaitRes
cancel by_timer op = if op.m_was_canceled then (op, none) else (
  record op { m_was_canceled = true; m_canceled_by_timer = by_timer },
  if op.m_was_started then none else some (cancel_result by_timer),
)

pub record CreateOperationData : Type 0 where
  pub id : ℕ
  pub client_id : ℕ
  pub timer_id : Option ℕ
  pub op : CreateOperation

-- A call of `complete`. The future then calls `on_completed(id)`.
pub record Completion : Type 0 where
  pub id : ℕ
  pub promise : ℕ
  pub result : PipeWaitRes
  pub endpoint : Option ℕ

pub record ServerEnv : Type 0 where
  pub m_next_id : ℕ
  pub m_create_operations : List CreateOperationData
  pub m_timer : MultipleTimer ℕ

unfoldable pub create : ServerEnv
create = record { m_next_id = 0; m_create_operations = []; m_timer = Multiple.fresh }

abbrev pub start_timer : Option ℕ → ℕ → MultipleTimer ℕ → Outcome (Option ℕ × MultipleTimer ℕ)
start_timer none id t = ok (none, t)
start_timer (some timeout) id t = do (timer_id, t') ← Multiple.start id t; ok (some timer_id, t')

abbrev pub cancel_timer : Option ℕ → MultipleTimer ℕ → MultipleTimer ℕ
cancel_timer none t = t
cancel_timer (some id) t = Multiple.cancel id t

-- The start of the operation at the back, and whether there is one.
abbrev pub start_back : List CreateOperationData → Outcome (List CreateOperationData × Bool)
start_back [] = ok ([], false)
start_back (d ∷ ds) = do op ← start d.op; ok (record d { op = op } ∷ ds, true)

-- `emplace_front`, and the start if the operation is the only one.
abbrev pub emplace_front :
    CreateOperationData → List CreateOperationData → Outcome (List CreateOperationData × Bool)
emplace_front d [] = start_back (d ∷ [])
emplace_front d (d' ∷ ds) = ok (d' ∷ (ds ++ d ∷ []), false)

-- The environment, and whether an accept was started.
unfoldable pub create_pipe : ℕ → Option ℕ → ℕ → ServerEnv → Outcome (ServerEnv × Bool)
create_pipe client_id timeout promise env = do
  (timer_id, t) ← start_timer timeout env.m_next_id env.m_timer
  let op : CreateOperation = record {
    m_was_started = false;
    m_was_canceled = false;
    m_canceled_by_timer = false;
    m_promise = promise;
  }
  (ops, asked) ←
      emplace_front
        (record { id = env.m_next_id; client_id = client_id; timer_id = timer_id; op = op })
        env.m_create_operations
  ok (
    record { m_next_id = (env.m_next_id + 1) % 2 ^ 64; m_create_operations = ops; m_timer = t },
    asked,
  )

-- The call of `complete` for what `cancel` gave.
abbrev pub completion : CreateOperationData → Option PipeWaitRes → List Completion
completion d none = []
completion d (some r) =
    record { id = d.id; promise = d.op.m_promise; result = r; endpoint = none } ∷ []

-- The operation `id` behind the one in progress: cancelled and taken out.
abbrev pub time_out_later :
    ℕ → List CreateOperationData → List CreateOperationData × List Completion
time_out_later id [] = ([], [])
time_out_later id (d ∷ ds) =
    let (ds', completions) = time_out_later id ds in
    if d.id == id then (ds, completion d (cancel true d.op).1) else (d ∷ ds', completions)

abbrev pub time_out : ℕ → List CreateOperationData → List CreateOperationData × List Completion
time_out id [] = ([], [])
time_out id (d ∷ ds) =
    let (op, result) = cancel true d.op in
    let (ds', completions) = time_out_later id ds in
    if d.id == id then (record d { op = op } ∷ ds, completion d result) else (d ∷ ds', completions)

unfoldable pub on_timeout : ℕ → ServerEnv → ServerEnv × List Completion
on_timeout id env =
    let (ops, completions) = time_out id env.m_create_operations in
    (record env { m_create_operations = ops }, completions)

abbrev pub complete_back :
    ℕ
    → List CreateOperationData
    → MultipleTimer ℕ
    → Outcome ((List CreateOperationData × Bool) × MultipleTimer ℕ)
complete_back id [] t = ok (([], false), t)
complete_back id (d ∷ ds) t = elim (d.id == id) [
  | false ↦ ok ((d ∷ ds, false), t)
  | true ↦ (do started ← start_back ds; ok (started, cancel_timer d.timer_id t))
]

-- The environment, and whether an accept was started.
unfoldable pub on_completed : ℕ → ServerEnv → Outcome (ServerEnv × Bool)
on_completed id env = do
  ((ops, asked), t) ← complete_back id env.m_create_operations env.m_timer
  ok (record env { m_create_operations = ops; m_timer = t }, asked)

-- `!client_id || d.client_id == *client_id`
abbrev pub is_chosen : Option ℕ → CreateOperationData → Bool
is_chosen none d = true
is_chosen (some client_id) d = d.client_id == client_id

-- The loop, which goes from the front to the back.
abbrev pub cancel_loop :
    Option ℕ
    → List CreateOperationData
    → MultipleTimer ℕ
    → (List CreateOperationData × MultipleTimer ℕ) × List Completion
cancel_loop client_id [] t = (([], t), [])
cancel_loop client_id (d ∷ ds) t =
    let ((ds', t'), completions) = cancel_loop client_id ds t in
    if is_chosen client_id d
    then ((ds', cancel_timer d.timer_id t'), completions ++ completion d (cancel false d.op).1)
    else ((d ∷ ds', t'), completions)

abbrev pub cancel_operations :
    Option ℕ
    → List CreateOperationData
    → MultipleTimer ℕ
    → (List CreateOperationData × MultipleTimer ℕ) × List Completion
cancel_operations client_id [] t = (([], t), [])
cancel_operations client_id (d ∷ ds) t =
    let ((ds', t'), completions) = cancel_loop client_id ds t in
    let (op, result) = cancel false d.op in
    if is_chosen client_id d
    then (
      (record d { op = op } ∷ ds', cancel_timer d.timer_id t'),
      completions ++ completion d result,
    )
    else ((d ∷ ds', t'), completions)

unfoldable pub cancel_pending_server_endpoints : Option ℕ → ServerEnv → ServerEnv × List Completion
cancel_pending_server_endpoints client_id env =
    let ((ops, t), completions) = cancel_operations client_id env.m_create_operations env.m_timer in
    (record env { m_create_operations = ops; m_timer = t }, completions)
