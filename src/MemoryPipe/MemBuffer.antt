-- ===== src/MemoryPipe/MemBuffer.antt =====
-- mem_buffer (pipe/memory-pipe/mem-buffer.{h,cpp}): one direction of a pipe. A function is one
-- critical section under `m_mtx`; it returns the new state and the promises that are then settled.
-- Promises are numbers, given by the caller.
pub mod Steps
pub mod Order
pub mod History
mod Tests
use common.Base.{
  ℕ, suc, ◌+◌, ◌%◌, ◌^◌, List, [], ◌∷◌, ◌++◌, Option, none, some, Bool, true, false, not, ltb,
  if◌then◌else◌, length, Outcome, ok, ◌>>=◌,
}
use common.Base.Assoc.{find, is_absent, erase}
use common.Utils.Buffer.{Buffer}
use common.Utils.Buffer
use common.Results.{PipeOpRes}
use common.Timer.Multiple.{MultipleTimer}
use common.Timer.Multiple

-- `read_promise_data`, less its `id`, which is its key in the container.
pub record ReadPromiseData : Type 0 where
  pub timer_id : Option ℕ
  pub promise : ℕ

-- The tasks that are posted to the strands.
pub record WriteTask : Type 0 where
  pub promise : ℕ
  pub data_ : Buffer
  pub timeout_point : Option ℕ

pub record ReadTask : Type 0 where
  pub promise : ℕ
  pub timeout : Option ℕ
  pub started_while_valid : Bool

-- The container of read promises is a list in its sequence, keyed by id. The callback of a timer
-- is the id of its read promise.
pub record MemBuffer : Type 0 where
  pub m_is_valid : Bool
  pub m_read_invalidation_result : PipeOpRes
  pub m_buffer : List Buffer
  pub m_read_promises : List (ℕ × ReadPromiseData)
  pub m_next_read_promise_id : ℕ
  pub m_timer : MultipleTimer ℕ
  pub m_write_strand : List WriteTask
  pub m_read_strand : List ReadTask

pub data Effect : Type 0 where
  settle_read : ℕ → PipeOpRes → Buffer → Effect
  settle_write : ℕ → PipeOpRes → Effect

unfoldable pub create : MemBuffer
create = record {
  m_is_valid = true;
  m_read_invalidation_result = PipeOpRes.failed;
  m_buffer = [];
  m_read_promises = [];
  m_next_read_promise_id = 0;
  m_timer = Multiple.fresh;
  m_write_strand = [];
  m_read_strand = [];
}

-- A deadline; `none` is `time_point::max()`.
abbrev pub deadline : ℕ → Option ℕ → Option ℕ
deadline now none = none
deadline now (some timeout) = some (now + timeout)

abbrev pub is_past : ℕ → Option ℕ → Bool
is_past now none = false
is_past now (some point) = ltb point now

-- The future of a write: ready with a failure, or that of the promise.
pub data WriteFuture : Type 0 where
  ready : PipeOpRes → WriteFuture
  pending : ℕ → WriteFuture

unfoldable pub write_async : ℕ → Option ℕ → ℕ → Buffer → MemBuffer → MemBuffer × WriteFuture
write_async now timeout promise bytes b =
    if not b.m_is_valid
    then (b, ready PipeOpRes.failed)
    else (let task : WriteTask = record {
      promise = promise;
      data_ = bytes;
      timeout_point = deadline now timeout;
    } in
        (record b { m_write_strand = b.m_write_strand ++ task ∷ [] }, pending promise))

unfoldable pub read_async : Option ℕ → ℕ → MemBuffer → MemBuffer
read_async timeout promise b =
    let task : ReadTask = record {
      promise = promise;
      timeout = timeout;
      started_while_valid = b.m_is_valid;
    } in
    record b { m_read_strand = b.m_read_strand ++ task ∷ [] }

-- `room` is whether the queue finds memory for the message.
unfoldable pub write_impl : ℕ → Bool → Buffer → Option ℕ → MemBuffer → MemBuffer × PipeOpRes
write_impl now room bytes timeout_point b =
    if not b.m_is_valid
    then (b, PipeOpRes.canceled)
    else if is_past now timeout_point
    then (b, PipeOpRes.timeout)
    else if not room
    then (b, PipeOpRes.failed)
    else (record b { m_buffer = b.m_buffer ++ bytes ∷ [] }, PipeOpRes.success)

abbrev pub cancel_timer : Option ℕ → MultipleTimer ℕ → MultipleTimer ℕ
cancel_timer none t = t
cancel_timer (some id) t = Multiple.cancel id t

abbrev pub pair_up : List (ℕ × ReadPromiseData) → List Buffer → MemBuffer → MemBuffer × List Effect
pair_up [] messages b = (b, [])
pair_up (d ∷ q) [] b = (b, [])
pair_up ((id, d) ∷ q) (message ∷ messages) b = (
  record b {
    m_buffer = messages;
    m_read_promises = q;
    m_timer = cancel_timer d.timer_id b.m_timer;
  },
  settle_read d.promise PipeOpRes.success message ∷ [],
)

unfoldable pub resolve_read_promise : MemBuffer → MemBuffer × List Effect
resolve_read_promise b = pair_up b.m_read_promises b.m_buffer b

-- `push_back` on the container, whose ids are unique: it drops an entry whose id is taken.
unfoldable pub push_back :
    ℕ → ReadPromiseData → List (ℕ × ReadPromiseData) → List (ℕ × ReadPromiseData)
push_back id d q = if is_absent id q then q ++ (id, d) ∷ [] else q

abbrev pub start_timer : Option ℕ → ℕ → MultipleTimer ℕ → Outcome (Option ℕ × MultipleTimer ℕ)
start_timer none id t = ok (none, t)
start_timer (some timeout) id t = do (timer_id, t') ← Multiple.start id t; ok (some timer_id, t')

abbrev pub await : Option ℕ → ℕ → MemBuffer → Outcome (MemBuffer × List Effect)
await timeout promise b = do
  let id = b.m_next_read_promise_id
  (timer_id, t) ← start_timer timeout id b.m_timer
  let entry : ReadPromiseData = record { timer_id = timer_id; promise = promise }
  ok (
    record b {
      m_next_read_promise_id = (id + 1) % 2 ^ 64;
      m_timer = t;
      m_read_promises = push_back id entry b.m_read_promises;
    },
    [],
  )

abbrev pub read_front : List Buffer → ℕ → Option ℕ → MemBuffer → Outcome (MemBuffer × List Effect)
read_front [] promise timeout b = await timeout promise b
read_front (message ∷ messages) promise timeout b =
    ok (record b { m_buffer = messages }, settle_read promise PipeOpRes.success message ∷ [])

unfoldable pub read_impl : ℕ → Option ℕ → Bool → MemBuffer → Outcome (MemBuffer × List Effect)
read_impl promise timeout started_while_valid b =
    if not b.m_is_valid
    then ok (
      b,
      settle_read promise
            (if started_while_valid then b.m_read_invalidation_result else PipeOpRes.failed)
            Buffer.empty
          ∷ [],
    )
    else read_front b.m_buffer promise timeout b

-- The callback of the timer of a read.
unfoldable pub timeout_callback : ℕ → MemBuffer → MemBuffer × List Effect
timeout_callback id b = elim (find id b.m_read_promises) [
  | none ↦ (b, [])
  | some d ↦ (
    record b { m_read_promises = erase id b.m_read_promises },
    settle_read d.promise PipeOpRes.timeout Buffer.empty ∷ [],
  )
]

abbrev pub fail_reads : PipeOpRes → List (ℕ × ReadPromiseData) → List Effect
fail_reads r [] = []
fail_reads r ((id, d) ∷ q) = settle_read d.promise r Buffer.empty ∷ fail_reads r q

unfoldable pub invalidate : Bool → MemBuffer → MemBuffer × List Effect
invalidate cancel_read b =
    let result = if cancel_read then PipeOpRes.canceled else PipeOpRes.failed in
    if not b.m_is_valid then (b, []) else (
      record b {
        m_is_valid = false;
        m_read_invalidation_result = result;
        m_buffer = [];
        m_read_promises = [];
        m_timer = Multiple.cancel_all b.m_timer;
      },
      fail_reads result b.m_read_promises,
    )

unfoldable pub get_pending_messages_count : MemBuffer → ℕ
get_pending_messages_count b = length b.m_buffer

unfoldable pub get_pending_read_handlers_count : MemBuffer → ℕ
get_pending_read_handlers_count b = length b.m_read_promises
