-- ===== src/Timer/Multiple.antt =====
-- multiple_timer (timer/multiple-timer.{h,cpp}): one map of one-shot timers. A `steady_timer`
-- with its wait handler is an entry; the handler runs as an event of the io_context.
use common.Base.{
  Outcome, ok, ensure, ◌>>◌, ℕ, ◌+◌, ◌%◌, ◌^◌, List, [], ◌∷◌, Option, none, some, Bool, true, false,
  if◌then◌else◌, length,
}
use common.Base.Assoc.{is_absent, erase, modify, emplace}

-- A wait that has not run its handler: whether it was cancelled, and its callback.
pub record Wait (C : Type 0) : Type 0 where
  pub cancelled : Bool
  pub callback : C

pub record MultipleTimer (C : Type 0) : Type 0 where
  pub m_next_id : ℕ
  pub timers_map : List (ℕ × Wait C)

module _ {C : Type 0} where
  -- `multiple_timer(io_context)`
  unfoldable pub fresh : MultipleTimer C
  fresh = record { m_next_id = 0; timers_map = [] }

  -- The id of the new timer, and the timers with it.
  unfoldable pub start : C → MultipleTimer C → Outcome (ℕ × MultipleTimer C)
  start callback t = do
    ensure (is_absent t.m_next_id t.timers_map)
    ok (
      t.m_next_id,
      record {
        m_next_id = (t.m_next_id + 1) % 2 ^ 64;
        timers_map =
            emplace t.m_next_id (record { cancelled = false; callback = callback }) t.timers_map;
      },
    )

  abbrev pub cancel_wait : Wait C → Wait C
  cancel_wait w = record { cancelled = true; callback = w.callback }

  unfoldable pub cancel : ℕ → MultipleTimer C → MultipleTimer C
  cancel id t = record t { timers_map = modify id cancel_wait t.timers_map }

  abbrev pub cancel_each : List (ℕ × Wait C) → List (ℕ × Wait C)
  cancel_each [] = []
  cancel_each ((id, w) ∷ m) = (id, cancel_wait w) ∷ cancel_each m

  unfoldable pub cancel_all : MultipleTimer C → MultipleTimer C
  cancel_all t = record t { timers_map = cancel_each t.timers_map }

  -- The wait handler of a timer: the map without it, and the callback to run, if the wait ended
  -- without an error.
  unfoldable pub on_wait : ℕ → Bool → C → MultipleTimer C → MultipleTimer C × Option C
  on_wait id ec callback t =
      (record t { timers_map = erase id t.timers_map }, if ec then none else some callback)

  unfoldable pub get_active_timers_count : MultipleTimer C → ℕ
  get_active_timers_count t = length t.timers_map
