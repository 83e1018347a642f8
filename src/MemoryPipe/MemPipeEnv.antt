-- ===== src/MemoryPipe/MemPipeEnv.antt =====
-- mem_pipe_env::impl (pipe/memory-pipe/mem-pipe-env.cpp): it pairs the two ends of a pipe. A
-- function is one critical section under `m_mtx`, and returns the promises that are then settled.
-- Promises and new pairs of buffers are numbers, given by the caller.
pub mod Pairing
pub mod Containers
pub mod Balance
pub mod Ledger
mod Tests
use common.Base.{
  ℕ, ◌+◌, ◌%◌, ◌^◌, List, [], ◌∷◌, ◌++◌, Option, none, some, Bool, true, false, not, ◌==◌, ◌||◌,
  if◌then◌else◌, length, Outcome, ok, ◌>>=◌,
}
use common.Base.Assoc.{find, is_absent, erase}
use common.Results.{PipeWaitRes}
use common.Timer.Multiple.{MultipleTimer}
use common.Timer.Multiple

-- `promise_data`, less its `id`, which is its key in the container.
pub record PromiseData : Type 0 where
  pub client_id : ℕ
  pub timer_id : Option ℕ
  pub promise : ℕ

-- The two sides of a pipe.
pub data Side : Type 0 where
  server client : Side

-- What the callback of a timer holds: the container, by its side, and the id in it.
pub record Expiry : Type 0 where
  pub side : Side
  pub id : ℕ

abbrev pub Promises : Type 0
Promises = List (ℕ × PromiseData)

pub record MemPipeEnv : Type 0 where
  pub m_next_read_promise_id : ℕ
  pub m_timer : MultipleTimer Expiry
  pub m_client_side_pipe_promises : Promises
  pub m_server_side_pipe_promises : Promises

unfoldable pub create : MemPipeEnv
create = record {
  m_next_read_promise_id = 0;
  m_timer = Multiple.fresh;
  m_client_side_pipe_promises = [];
  m_server_side_pipe_promises = [];
}

-- An endpoint of the pair of buffers `buffers`.
pub record Endpoint : Type 0 where
  pub is_server : Side
  pub buffers : ℕ

pub data Settled : Type 0 where
  settle : ℕ → PipeWaitRes → Option Endpoint → Settled

-- The future of an endpoint: ready with one, or that of the promise.
pub data EndpointFuture : Type 0 where
  ready : Endpoint → EndpointFuture
  pending : ℕ → EndpointFuture

abbrev pub opposite : Side → Side
opposite server = client
opposite client = server

-- The container of a side.
abbrev pub promises : Side → MemPipeEnv → Promises
promises server e = e.m_server_side_pipe_promises
promises client e = e.m_client_side_pipe_promises

abbrev pub set_promises : Side → Promises → MemPipeEnv → MemPipeEnv
set_promises server q e = record e { m_server_side_pipe_promises = q }
set_promises client q e = record e { m_client_side_pipe_promises = q }

-- `push_back` on a container, whose ids are unique: it drops an entry whose id is taken.
unfoldable pub push_back : ℕ → PromiseData → Promises → Promises
push_back id d q = if is_absent id q then q ++ (id, d) ∷ [] else q

abbrev pub start_timer :
    Option ℕ → Expiry → MultipleTimer Expiry → Outcome (Option ℕ × MultipleTimer Expiry)
start_timer none expiry t = ok (none, t)
start_timer (some timeout) expiry t = do
  (timer_id, t') ← Multiple.start expiry t
  ok (some timer_id, t')

abbrev pub cancel_timer : Option ℕ → MultipleTimer Expiry → MultipleTimer Expiry
cancel_timer none t = t
cancel_timer (some id) t = Multiple.cancel id t

-- The branch that waits for the other side.
abbrev pub enlist :
    ℕ → Side → Option ℕ → ℕ → MemPipeEnv → Outcome (MemPipeEnv × List Settled × EndpointFuture)
enlist client_id side timeout promise e = do
  let promise_id = e.m_next_read_promise_id
  (timer_id, t) ← start_timer timeout (record { side = side; id = promise_id }) e.m_timer
  let entry : PromiseData = record { client_id = client_id; timer_id = timer_id; promise = promise }
  let e' : MemPipeEnv = record e { m_next_read_promise_id = (promise_id + 1) % 2 ^ 64; m_timer = t }
  ok (set_promises side (push_back promise_id entry (promises side e)) e', [], pending promise)

abbrev pub match_up :
    Promises
    → ℕ
    → Side
    → Option ℕ
    → ℕ
    → ℕ
    → MemPipeEnv
    → Outcome (MemPipeEnv × List Settled × EndpointFuture)
match_up [] client_id side timeout promise buffers e = enlist client_id side timeout promise e
match_up ((id, d) ∷ other) client_id side timeout promise buffers e = ok (
  set_promises (opposite side) other (record e { m_timer = cancel_timer d.timer_id e.m_timer }),
  settle d.promise PipeWaitRes.success
        (some (record { is_server = opposite side; buffers = buffers }))
      ∷ [],
  ready (record { is_server = side; buffers = buffers }),
)

-- `create_new_pipe_end`, on the side `side`; `buffers` names the pair of buffers that it makes.
unfoldable pub create_new_pipe_end :
    ℕ → Side → Option ℕ → ℕ → ℕ → MemPipeEnv → Outcome (MemPipeEnv × List Settled × EndpointFuture)
create_new_pipe_end client_id side timeout promise buffers e =
    match_up (promises (opposite side) e) client_id side timeout promise buffers e

unfoldable pub create_pipe :
    ℕ → Option ℕ → ℕ → ℕ → MemPipeEnv → Outcome (MemPipeEnv × List Settled × EndpointFuture)
create_pipe client_id timeout promise buffers e =
    create_new_pipe_end client_id server timeout promise buffers e

unfoldable pub open_pipe :
    ℕ → Option ℕ → ℕ → ℕ → MemPipeEnv → Outcome (MemPipeEnv × List Settled × EndpointFuture)
open_pipe client_id timeout promise buffers e =
    create_new_pipe_end client_id client timeout promise buffers e

-- Whether an entry is to be cancelled; `none` is all of them.
abbrev pub is_chosen : Option ℕ → PromiseData → Bool
is_chosen none d = true
is_chosen (some client_id) d = d.client_id == client_id

-- The loop of `cancel_pending_endpoints`: what it leaves, the timers, and the promises it takes.
unfoldable pub cancel_loop :
    Option ℕ → Promises → MultipleTimer Expiry → Promises × MultipleTimer Expiry × List ℕ
cancel_loop client_id [] t = ([], t, [])
cancel_loop client_id ((id, d) ∷ q) t =
    let chosen = is_chosen client_id d in
    let (kept, t', taken) =
      cancel_loop client_id q (if chosen then cancel_timer d.timer_id t else t) in
    if chosen then (kept, t', d.promise ∷ taken) else ((id, d) ∷ kept, t', taken)

abbrev pub cancel_promises : List ℕ → List Settled
cancel_promises [] = []
cancel_promises (p ∷ ps) = settle p PipeWaitRes.canceled none ∷ cancel_promises ps

unfoldable pub cancel_pending_endpoints : Option ℕ → Side → MemPipeEnv → MemPipeEnv × List Settled
cancel_pending_endpoints client_id side e =
    let (kept, t, taken) = cancel_loop client_id (promises side e) e.m_timer in
    (set_promises side kept (record e { m_timer = t }), cancel_promises taken)

-- The callback of a timer.
unfoldable pub remove_promise_by_timeout : Side → ℕ → MemPipeEnv → MemPipeEnv × List Settled
remove_promise_by_timeout side id e = elim (find id (promises side e)) [
  | none ↦ (e, [])
  | some d ↦ (
    set_promises side (erase id (promises side e)) e,
    settle d.promise PipeWaitRes.timeout none ∷ [],
  )
]

unfoldable pub get_pending_endpoints_count : Side → MemPipeEnv → ℕ
get_pending_endpoints_count side e = length (promises side e)
