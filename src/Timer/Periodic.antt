-- ===== src/Timer/Periodic.antt =====
-- periodic_timer (timer/periodic-timer.{h,cpp}). A stop callback is a number; the functions return
-- those that they post, in order. The timer's callback runs outside the mutex, between the two
-- parts of the wait handler.
pub mod Activity
mod Tests
use common.Base.{
  ℕ, ◌+◌, ◌%◌, ◌^◌, List, [], ◌∷◌, ◌++◌, Option, none, some, Bool, true, false, not, ◌&&◌, ltb,
  if◌then◌else◌, Outcome, ok, ensure, throw_if, logic_error, ◌>>=◌, ◌>>◌,
}

pub data CallbackRet : Type 0 where
  continue abort : CallbackRet

-- Where the one wait of the timer is: there is none, it is on (and perhaps cancelled), or its
-- handler is running the callback.
pub data Phase : Type 0 where
  idle : Phase
  waiting : Bool → Phase
  running : Phase

pub record PeriodicTimer : Type 0 where
  pub m_is_active : Bool
  pub m_is_stopped : Bool
  pub m_current_periods_count : ℕ
  pub m_total_periods_count : ℕ
  pub m_stop_callbacks : List ℕ
  pub phase : Phase

unfoldable pub create : PeriodicTimer
create = record {
  m_is_active = false;
  m_is_stopped = false;
  m_current_periods_count = 0;
  m_total_periods_count = 0;
  m_stop_callbacks = [];
  phase = idle;
}

unfoldable pub start_period : PeriodicTimer → PeriodicTimer
start_period t = record t { phase = waiting false }

unfoldable pub start : ℕ → PeriodicTimer → Outcome PeriodicTimer
unfolding start_period
start total_periods t = do
  throw_if t.m_is_active logic_error
  ok (
      start_period (record t {
        m_is_active = true;
        m_is_stopped = false;
        m_current_periods_count = 0;
        m_total_periods_count = total_periods;
      }))

abbrev pub posted : Option ℕ → List ℕ
posted none = []
posted (some callback) = callback ∷ []

-- `m_timer.cancel()`: a wait that is on ends with an error, unless it has expired.
abbrev pub cancel_wait : Phase → Phase
cancel_wait (waiting cancelled) = waiting true
cancel_wait p = p

unfoldable pub stop_async : Option ℕ → PeriodicTimer → PeriodicTimer × List ℕ
stop_async callback t = if not t.m_is_active then (t, posted callback) else (
  record t {
    m_stop_callbacks = t.m_stop_callbacks ++ posted callback;
    phase = if t.m_is_stopped then t.phase else cancel_wait t.phase;
    m_is_stopped = true;
  },
  [],
)

unfoldable pub deactivate : PeriodicTimer → PeriodicTimer × List ℕ
deactivate t =
    (record t { m_is_active = false; m_stop_callbacks = []; phase = idle }, t.m_stop_callbacks)

-- The wait handler, up to the call of the callback.
unfoldable pub on_wait : Bool → PeriodicTimer → PeriodicTimer × List ℕ
on_wait ec t = if ec then deactivate t else (record t { phase = running }, [])

abbrev pub is_continue : CallbackRet → Bool
is_continue continue = true
is_continue abort = false

-- The wait handler from the callback's answer on; a callback that throws answers `abort`.
unfoldable pub after_callback : CallbackRet → PeriodicTimer → PeriodicTimer × List ℕ
after_callback ret t =
    let count = (t.m_current_periods_count + 1) % 2 ^ 64 in
    let t' : PeriodicTimer = record t { m_current_periods_count = count } in
    if is_continue ret && (not t.m_is_stopped && ltb count t.m_total_periods_count)
    then (start_period t', [])
    else deactivate t'
