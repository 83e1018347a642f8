-- ===== src/Future/Controller/Fair/Drain.antt =====
-- The tasks of a future_controller until none is left.
use common.Base.{
  ℕ, zero, suc, ◌+◌, ◌<◌, ◌≤◌, length, length-append, ◌≡◌, refl, ap, List, [], ◌∷◌, ◌++◌, Option,
  none, some, ok, ensure_ok, checked_ok, ok_injective, subst, arith,
}
use common.Future.Controller.{
  FutureController, Task, process_on_success, process_on_fail, success_call, fail_call,
  run_process_on_success, run_process_on_fail, call_success, call_fail, calls, get_value_state,
  is_callable,
}
use common.Future.Controller.Steps.{World, Ran, run, new_world, after_run, runs, Reach, next}
use common.Future.Controller.Fair.{IsFair}
use common.Future.Controller.Fair.History.{runs-IsFair, Reach-IsFair}
use common.Future.Controller.Fair.Served.{Answered, answered_lem, fair_returns}

-- `n` tasks run, in any order, and nothing else happens.
pub data Runs {V E : Type 0} (u : World V E) : ℕ → World V E → Type 0 where
  stops : Runs u 0 u
  runs_one :
      {n : ℕ} {w : World V E} (before : List Task) (task : Task) (later : List Task) (ran : Ran V E)
      → w.tasks ≡ before ++ task ∷ later
      → run task w.controller ≡ ok ran
      → Runs u n (after_run w (before ++ later) ran)
      → Runs u (suc n) w

-- The tasks that there are and those that the waiting callbacks may become.
abbrev pub work : {V E : Type 0} → World V E → ℕ
work w =
    length w.tasks + (length w.controller.m_on_success_queue + length w.controller.m_on_fail_queue)

length-calls : (call : ℕ → Task) (fs : List ℕ) → length (calls call fs) ≡ length fs
length-calls call [] = refl
length-calls call (f ∷ fs) = ap suc (length-calls call fs)

module _ {V E : Type 0} where
  abbrev Moved : ℕ → Ran V E → Type 0
  Moved n ran =
      length ran.posted
        + (length ran.controller.m_on_success_queue + length ran.controller.m_on_fail_queue)
      ≤ n

  run-le :
      (task : Task) (qs qf : List ℕ) (val : Option V) (exc : Option E) (ran : Ran V E)
      → let c : FutureController V E = record {
        m_on_success_queue = qs;
        m_on_fail_queue = qf;
        m_val_state = val;
        m_exception = exc;
      } in
        run task c ≡ ok ran → Moved (length qs + length qf) ran
  unfolding run run_process_on_success run_process_on_fail call_success call_fail get_value_state
  run-le process_on_success qs qf none none ran h =
      subst (Moved (length qs + length qf)) (ok_injective h) (omega arith)
  run-le process_on_success qs qf (some v) none ran h =
      subst (Moved (length qs + length qf)) (ok_injective h)
        (omega (arith, length-calls success_call qs))
  run-le process_on_success qs qf none (some e) ran h =
      subst (Moved (length qs + length qf)) (ok_injective h) (omega arith)
  run-le process_on_success qs qf (some v) (some e) ran h = cc
  run-le process_on_fail qs qf none none ran h =
      subst (Moved (length qs + length qf)) (ok_injective h) (omega arith)
  run-le process_on_fail qs qf (some v) none ran h =
      subst (Moved (length qs + length qf)) (ok_injective h) (omega arith)
  run-le process_on_fail qs qf none (some e) ran h =
      subst (Moved (length qs + length qf)) (ok_injective h)
        (omega (arith, length-calls fail_call qf))
  run-le process_on_fail qs qf (some v) (some e) ran h = cc
  run-le (success_call f) qs qf none exc ran h = let (_, g) = ensure_ok (is_callable f) _ h in cc
  run-le (success_call f) qs qf (some v) exc ran h =
      subst (Moved (length qs + length qf)) (ok_injective (ensure_ok (is_callable f) _ h).1)
        (omega arith)
  run-le (fail_call f) qs qf val none ran h = cc
  run-le (fail_call f) qs qf val (some e) ran h =
      subst (Moved (length qs + length qf)) (ok_injective (checked_ok (is_callable f) e _ h))
        (omega arith)

  work-after_run :
      (w : World V E) (before : List Task) (task : Task) (later : List Task) (ran : Ran V E)
      → w.tasks ≡ before ++ task ∷ later
      → run task w.controller ≡ ok ran
      → work (after_run w (before ++ later) ran) < work w
  work-after_run w before task later ran f h = omega (
    arith,
    ap length f,
    length-append before (task ∷ later),
    length-append before later,
    length-append (before ++ later) ran.posted,
    run-le task w.controller.m_on_success_queue w.controller.m_on_fail_queue
        w.controller.m_val_state w.controller.m_exception ran h,
  )

  -- Whatever the order in which a thread pool runs the tasks of a future_controller, it runs no
  -- more of them than there are tasks and waiting callbacks, as long as nothing else is set.
  pub Runs-le : {u w : World V E} {n : ℕ} → Runs u n w → n + work u ≤ work w
  Runs-le stops = omega arith
  Runs-le {w = w} (runs_one before task later ran f h r) =
      omega (arith, Runs-le r, work-after_run w before task later ran f h)

  drains :
      (n : ℕ) (w : World V E) (ts : List Task)
      → IsFair w
      → work w ≤ n
      → w.tasks ≡ ts
      → (u : World V E) × (k : ℕ) × Runs u k w × (u.tasks ≡ [])
  drains n w [] x h f = (w, 0, stops, f)
  drains zero w (t ∷ ts) x h f = absurd (omega (arith, ap length f))
  drains (suc n) w (t ∷ ts) x h f =
      let (ran, e) = fair_returns w [] t ts x f in
      let (u, k, r, idle) =
        drains n (after_run w ts ran) (ts ++ ran.posted) (runs-IsFair w [] t ts ran f e x)
          (omega (arith, work-after_run w [] t ts ran f e)) refl in
      (u, suc k, runs_one [] t ts ran f e r, idle)

  Runs-Reach : {u w t : World V E} {n : ℕ} → Runs u n w → Reach t w → Reach t u
  Runs-Reach stops a = a
  Runs-Reach (runs_one before task later ran f h r) a =
      Runs-Reach r (next a (runs before task later ran f h refl))

  -- From every state that a future_controller can reach when its owner sets a value or an
  -- exception at most once and no callback is empty, its tasks can be run until none is left, with no more runs than there
  -- are tasks and waiting callbacks; and then the callbacks are answered: with a value, every
  -- success callback was called as often as it was set, always with that value, and no fail
  -- callback was called; with an exception, the same for the fail callbacks and the exception;
  -- with neither, none was called.
  pub drained_lem :
      {w : World V E} (p q : ℕ)
      → Reach new_world w
      → (u : World V E) × (n : ℕ) × Runs u n w
        × (n ≤ work w)
        × (u.tasks ≡ [])
        × Answered u.controller.m_val_state u.controller.m_exception p q u
  drained_lem {w} p q r =
      let (u, n, k, idle) = drains (work w) w w.tasks (Reach-IsFair r) (omega arith) refl in
      (u, n, k, omega (arith, Runs-le k), idle, answered_lem p q (Runs-Reach k r) idle)
