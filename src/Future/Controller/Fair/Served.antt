-- ===== src/Future/Controller/Fair/Served.antt =====
-- The callbacks of a future_controller when the tasks of its thread pool have run.
use common.Base.{
  ℕ, ◌<◌, ◌≡◌, refl, ap, true, List, [], ◌∷◌, ◌++◌, Option, none, some, ok, subst, arith, All,
}
use native.Mathlib.Decide.{dec_lt}
use common.Future.Controller.{
  Task, process_on_success, process_on_fail, success_call, fail_call, run_process_on_success,
  run_process_on_fail, call_success, call_fail, get_value_state, is_callable,
}
use common.Future.Controller.Steps.{World, Ran, run, new_world, Reach}
use common.Future.Controller.Fair.{
  count, count_calls, tally, success_weight, fail_weight, success_scan, fail_scan, tally-append,
  Fair, success_numbers, fail_numbers, Right, IsFair,
}
use common.Future.Controller.Fair.History.{Reach-IsFair}

-- A callback that was set, where no empty one was.
callable_of : (f : ℕ) (xs : List ℕ) → count 0 xs ≡ 0 → 0 < count f xs → is_callable f ≡ true
callable_of f xs h k = elim (dec_lt 0 f) [
  | yes some_ ↦ ground arith
  | no empty ↦ let z : f ≡ 0 = omega arith in absurd (omega (arith, h, ap (λ n. count n xs) z))
]

module _ {V E : Type 0} where
  -- Of the callback `p` for a value and `q` for an exception, when no task is left.
  abbrev pub Answered : Option V → Option E → ℕ → ℕ → World V E → Type 0
  Answered none none p q w = (w.succeeded ≡ []) × (w.failed ≡ [])
  Answered (some v) _ p q w =
      (count_calls p w.succeeded ≡ count p w.on_success)
      × All (λ x. x.1 ≡ v) w.succeeded
      × (w.failed ≡ [])
  Answered none (some e) p q w =
      (count_calls q w.failed ≡ count q w.on_fail)
      × All (λ x. x.1 ≡ e) w.failed
      × (w.succeeded ≡ [])

  -- In every state that a future_controller can reach when its owner sets a value or an exception
  -- at most once and no callback is empty, and in which no task is left, the callbacks are answered: with a value, every
  -- success callback was called as often as it was set, always with that value, and no fail
  -- callback was called; with an exception, the same for the fail callbacks and the exception;
  -- with neither, none was called.
  pub answered_lem :
      {w : World V E} (p q : ℕ)
      → Reach new_world w
      → w.tasks ≡ []
      → Answered w.controller.m_val_state w.controller.m_exception p q w
  answered_lem {w} p q r idle =
      let x = Reach-IsFair r in
      by_state w.controller.m_val_state w.controller.m_exception (x.fair p q) x.values x.exceptions
    where
      by_state :
          (val : Option V) (exc : Option E)
          → Fair val exc (success_numbers p w) (fail_numbers q w)
          → Right val w.succeeded
          → Right exc w.failed
          → Answered val exc p q w
      by_state none none x a b = (a, b)
      by_state (some v) none x a b = (
        ground (arith, x, ap (tally (success_weight p)) idle, ap (tally success_scan) idle),
        a,
        b,
      )
      by_state none (some e) x a b =
          (ground (arith, x, ap (tally (fail_weight q)) idle, ap (tally fail_scan) idle), b, a)
      by_state (some v) (some e) x a b = absurd x

  pub fair_returns :
      (w : World V E) (before : List Task) (task : Task) (later : List Task)
      → IsFair w
      → w.tasks ≡ before ++ task ∷ later
      → (ran : Ran V E) × (run task w.controller ≡ ok ran)
  unfolding run run_process_on_success run_process_on_fail call_success call_fail get_value_state
  fair_returns w before task later x f =
      by_task task w.controller.m_val_state w.controller.m_exception (λ p q.
        subst
          (λ ts.
            Fair w.controller.m_val_state w.controller.m_exception
              (success_numbers p (record w { tasks = ts }))
              (fail_numbers q (record w { tasks = ts })))
          f (x.fair p q))
    where
      by_task :
          (task : Task) (val : Option V) (exc : Option E)
          → ((p q : ℕ)
              → Fair val exc
                  (success_numbers p (record w { tasks = before ++ task ∷ later }))
                  (fail_numbers q (record w { tasks = before ++ task ∷ later })))
          → (ran : Ran V E) × (run task (record {
            m_on_success_queue = w.controller.m_on_success_queue;
            m_on_fail_queue = w.controller.m_on_fail_queue;
            m_val_state = val;
            m_exception = exc;
          })
              ≡ ok ran)
      by_task task (some v) (some e) y = absurd (y 0 0)
      by_task process_on_success none none y = (_, refl)
      by_task process_on_success (some v) none y = (_, refl)
      by_task process_on_success none (some e) y = (_, refl)
      by_task process_on_fail none none y = (_, refl)
      by_task process_on_fail (some v) none y = (_, refl)
      by_task process_on_fail none (some e) y = (_, refl)
      by_task (success_call f) (some v) none y =
          rw
            (callable_of f w.on_success x.callable.0 (
              ground
                (arith, y f f, tally-append (success_weight f) before (success_call f ∷ later))))
            (_, refl)
      by_task (success_call f) none none y =
          absurd
            (ground (arith, y f f, tally-append (success_weight f) before (success_call f ∷ later)))
      by_task (success_call f) none (some e) y =
          absurd
            (ground (arith, y f f, tally-append (success_weight f) before (success_call f ∷ later)))
      by_task (fail_call f) none (some e) y =
          rw
            (callable_of f w.on_fail x.callable.1
              (ground (arith, y f f, tally-append (fail_weight f) before (fail_call f ∷ later))))
            (_, refl)
      by_task (fail_call f) none none y =
          absurd (ground (arith, y f f, tally-append (fail_weight f) before (fail_call f ∷ later)))
      by_task (fail_call f) (some v) none y =
          absurd (ground (arith, y f f, tally-append (fail_weight f) before (fail_call f ∷ later)))

  -- In every state that a future_controller can reach when its owner sets a value or an exception
  -- at most once and no callback is empty, no assertion fails in any of its tasks, those on the
  -- callbacks included.
  pub task_returns :
      (w : World V E) (before : List Task) (task : Task) (later : List Task)
      → Reach new_world w
      → w.tasks ≡ before ++ task ∷ later
      → (ran : Ran V E) × (run task w.controller ≡ ok ran)
  task_returns w before task later r f = fair_returns w before task later (Reach-IsFair r) f
