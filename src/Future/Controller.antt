-- ===== src/Future/Controller.antt =====
-- future_controller (thread/future/internal/future-controller.h), the shared state of a future.
-- Values are `V`, exceptions `E`, and a callback is a number, 0 for an empty `std::function`. A function is one critical section,
-- and gives the tasks that it posts to the thread pool.
pub mod Steps
pub mod Fair
mod Tests
use common.Base.{
  ℕ, List, [], ◌∷◌, ◌++◌, Option, none, some, Bool, true, false, not, ◌&&◌, ◌||◌, ◌==◌, ◌⊎◌, inl,
  inr, Outcome, ok, ensure, access, ◌>>=◌, ◌>>◌,
}

pub record FutureController (V E : Type 0) : Type 0 where
  pub m_on_success_queue : List ℕ
  pub m_on_fail_queue : List ℕ
  pub m_val_state : Option V
  pub m_exception : Option E

-- A task on the thread pool.
pub data Task : Type 0 where
  process_on_success process_on_fail : Task
  success_call fail_call : ℕ → Task

abbrev pub is_some : {A : Type 0} → Option A → Bool
is_some none = false
is_some (some a) = true

abbrev pub is_none : {A : Type 0} → Option A → Bool
is_none o = not (is_some o)

-- `process_on_success_async` and `process_on_fail_async`, posted one after the other
abbrev pub process_both : List Task
process_both = process_on_success ∷ process_on_fail ∷ []

-- `assert(func)`
abbrev pub is_callable : ℕ → Bool
is_callable func = not (func == 0)

-- The test of a callback before it is called with the value.
unfoldable pub call_success : ℕ → Outcome (Unit {0})
call_success func = ensure (is_callable func)

-- The calls that are posted for a queue that was swapped out.
abbrev pub calls : (ℕ → Task) → List ℕ → List Task
calls call [] = []
calls call (f ∷ fs) = call f ∷ calls call fs

module _ {V E : Type 0} where
  unfoldable pub create : FutureController V E
  create = record {
    m_on_success_queue = [];
    m_on_fail_queue = [];
    m_val_state = none;
    m_exception = none;
  }

  unfoldable pub has_value : FutureController V E → Bool
  has_value c = is_some c.m_val_state

  unfoldable pub has_exception : FutureController V E → Bool
  has_exception c = is_some c.m_exception

  unfoldable pub set_on_success_and_fail :
      ℕ → ℕ → FutureController V E → FutureController V E × List Task
  set_on_success_and_fail success_func fail_func c = (
    record c {
      m_on_success_queue = c.m_on_success_queue ++ success_func ∷ [];
      m_on_fail_queue = c.m_on_fail_queue ++ fail_func ∷ [];
    },
    process_both,
  )

  unfoldable pub set_value_state :
      V → FutureController V E → Outcome (FutureController V E × List Task)
  set_value_state value c = do
    ensure (is_none c.m_val_state)
    ok (record c { m_val_state = some value }, process_both)

  unfoldable pub set_exception : E → FutureController V E → FutureController V E × List Task
  set_exception e c = (record c { m_exception = some e }, process_both)

  -- The task of `process_on_success_async`.
  unfoldable pub run_process_on_success :
      FutureController V E → Outcome (FutureController V E × List Task)
  run_process_on_success c = do
    ensure (not (is_some c.m_val_state && is_some c.m_exception))
    elim c.m_val_state [
      | some v ↦ ok (record c { m_on_success_queue = [] }, calls success_call c.m_on_success_queue)
      | none ↦ elim c.m_exception [
        | some e ↦ ok (record c { m_on_success_queue = [] }, [])
        | none ↦ ok (c, [])
      ]
    ]

  -- The task of `process_on_fail_async`.
  unfoldable pub run_process_on_fail :
      FutureController V E → Outcome (FutureController V E × List Task)
  run_process_on_fail c = do
    ensure (not (is_some c.m_val_state && is_some c.m_exception))
    elim c.m_exception [
      | some e ↦ ok (record c { m_on_fail_queue = [] }, calls fail_call c.m_on_fail_queue)
      | none ↦ elim c.m_val_state [
        | some v ↦ ok (record c { m_on_fail_queue = [] }, [])
        | none ↦ ok (c, [])
      ]
    ]

  unfoldable pub get_value_state : FutureController V E → Outcome V
  get_value_state c = access c.m_val_state

  -- `get`, which waits while there is nothing: an exception is thrown, a value returned.
  unfoldable pub get : FutureController V E → Option (V ⊎ E)
  get c = elim c.m_exception [
    | some e ↦ some (inr e)
    | none ↦ elim c.m_val_state [ some v ↦ some (inl v) | none ↦ none ]
  ]

  -- The exception that a callback is called with.
  unfoldable pub call_fail : ℕ → FutureController V E → Outcome E
  call_fail func c = do e ← access c.m_exception; ensure (is_callable func); ok e

  -- The test of `wait` and `wait_for`.
  unfoldable pub is_ready : FutureController V E → Bool
  is_ready c = is_some c.m_val_state || is_some c.m_exception
