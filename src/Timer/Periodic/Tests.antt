-- ===== src/Timer/Periodic/Tests.antt =====
-- A run of a periodic_timer: it starts with two periods, runs once, is stopped and ends.
use common.Base.{◌≡◌, refl, [], ◌∷◌, some, true, false, ok}
use common.Timer.Periodic.{
  PeriodicTimer, waiting, continue, create, start, start_period, stop_async, on_wait,
  after_callback, deactivate,
}
use common.Timer.Periodic.Activity.{
  World, new_world, Live, Reach, here, next, starts, stops, waits, answers, Reach-Live,
}

abbrev started : PeriodicTimer
started = record {
  m_is_active = true;
  m_is_stopped = false;
  m_current_periods_count = 0;
  m_total_periods_count = 2;
  m_stop_callbacks = [];
  phase = waiting false;
}

abbrev stopped : PeriodicTimer
stopped = (stop_async (some 9) (after_callback continue (on_wait false started).0).0).0

start_step : start 2 create ≡ ok started
unfolding start create start_period
start_step = refl

abbrev ended : World
ended = record { timer = (on_wait true stopped).0; given = 9 ∷ []; done = 9 ∷ [] }

history : Reach new_world ended
unfolding create stop_async after_callback on_wait start_period deactivate
history =
    next
      (next
        (next (next (next here (starts 2 started start_step refl)) (waits false false refl refl))
          (answers continue refl refl))
        (stops (some 9) refl))
      (waits true true refl refl)

Reach-Live_example : Live ended
Reach-Live_example = Reach-Live history

-- The stop callback is posted when the timer ends.
posted_run : (on_wait true stopped).1 ≡ 9 ∷ []
unfolding stop_async after_callback on_wait start_period deactivate
posted_run = refl
