-- ===== src/Future/Controller/Fair.antt =====
-- The callbacks of a future_controller, counted.
pub mod Run
pub mod History
pub mod Served
pub mod Drain
use common.Base.{
  ℕ, ◌+◌, ◌<◌, ◌≡◌, refl, sym, ap, ◌∙◌, List, [], ◌∷◌, ◌++◌, Option, none, some, Bool, true, false,
  not, ◌&&◌, ◌==◌, if◌then◌else◌, ◌⊎◌, inl, inr, Outcome, ok, ensure, ensure_ok, bind_ok,
  ok_injective, subst, arith, All, ◌>>=◌, ◌>>◌,
}
use common.Future.Controller.{
  FutureController, Task, process_on_success, process_on_fail, success_call, fail_call, create,
  set_on_success_and_fail, set_value_state, set_exception, run_process_on_success,
  run_process_on_fail, call_success, call_fail, calls, is_some, is_none, process_both,
  get_value_state,
}
use common.Future.Controller.Steps.{
  World, Ran, run, new_world, after_run, Step, registers, sets_value, sets_exception, runs, Reach,
  here, next,
}

-- How often a callback stands in a list, and among calls.
abbrev pub count : ℕ → List ℕ → ℕ
count p [] = 0
count p (q ∷ qs) = (if q == p then 1 else 0) + count p qs

abbrev pub count_calls : {A : Type 0} → ℕ → List (ℕ × A) → ℕ
count_calls p [] = 0
count_calls p ((q, a) ∷ qs) = (if q == p then 1 else 0) + count_calls p qs

-- The sum of a weight over the tasks.
abbrev pub tally : (Task → ℕ) → List Task → ℕ
tally g [] = 0
tally g (t ∷ ts) = g t + tally g ts

abbrev pub success_weight : ℕ → Task → ℕ
success_weight p (success_call f) = if f == p then 1 else 0
success_weight p _ = 0

abbrev pub fail_weight : ℕ → Task → ℕ
fail_weight p (fail_call f) = if f == p then 1 else 0
fail_weight p _ = 0

abbrev pub success_scan : Task → ℕ
success_scan process_on_success = 1
success_scan _ = 0

abbrev pub fail_scan : Task → ℕ
fail_scan process_on_fail = 1
fail_scan _ = 0

pub count-append : (p : ℕ) (xs ys : List ℕ) → count p (xs ++ ys) ≡ count p xs + count p ys
count-append p [] ys = omega arith
count-append p (x ∷ xs) ys = omega (arith, count-append p xs ys)

pub count_calls-append :
    {A : Type 0} (p : ℕ) (xs ys : List (ℕ × A))
    → count_calls p (xs ++ ys) ≡ count_calls p xs + count_calls p ys
count_calls-append p [] ys = omega arith
count_calls-append p ((x, a) ∷ xs) ys = omega (arith, count_calls-append p xs ys)

pub tally-append : (g : Task → ℕ) (xs ys : List Task) → tally g (xs ++ ys) ≡ tally g xs + tally g ys
tally-append g [] ys = omega arith
tally-append g (x ∷ xs) ys = omega (arith, tally-append g xs ys)

-- The calls that are posted for a queue.
pub tally-calls :
    (p : ℕ) (fs : List ℕ)
    → (tally (success_weight p) (calls success_call fs) ≡ count p fs)
      × (tally (fail_weight p) (calls success_call fs) ≡ 0)
      × (tally (success_weight p) (calls fail_call fs) ≡ 0)
      × (tally (fail_weight p) (calls fail_call fs) ≡ count p fs)
tally-calls p [] = (refl, refl, refl, refl)
tally-calls p (f ∷ fs) =
    let (a, b, c, d) = tally-calls p fs in
    (omega (arith, a), omega (arith, b), omega (arith, c), omega (arith, d))

-- What is known of a callback from the numbers: how often it was set, stands in its queue, in a
-- task and among the calls made, and how many tasks scan its queue.
pub record Numbers : Type 0 where
  pub registered : ℕ
  pub queued : ℕ
  pub posted : ℕ
  pub called : ℕ
  pub scans : ℕ

-- Of a callback that can still be called, of one that cannot, and of one that waits.
abbrev pub Served : Numbers → Type 0
Served n = (n.registered ≡ n.queued + n.posted + n.called) × ((n.queued ≡ 0) ⊎ (0 < n.scans))

abbrev pub Silent : Numbers → Type 0
Silent n = (n.posted ≡ 0) × (n.called ≡ 0)

abbrev pub Waits : Numbers → Type 0
Waits n = (n.registered ≡ n.queued) × (n.posted ≡ 0) × (n.called ≡ 0)

abbrev pub Fair : {V E : Type 0} → Option V → Option E → Numbers → Numbers → Type 0
Fair none none s f = Waits s × Waits f
Fair (some v) none s f = Served s × Silent f
Fair none (some e) s f = Silent s × Served f
Fair (some v) (some e) s f = ⊥

abbrev pub success_numbers : {V E : Type 0} → ℕ → World V E → Numbers
success_numbers p w = record {
  registered = count p w.on_success;
  queued = count p w.controller.m_on_success_queue;
  posted = tally (success_weight p) w.tasks;
  called = count_calls p w.succeeded;
  scans = tally success_scan w.tasks;
}

abbrev pub fail_numbers : {V E : Type 0} → ℕ → World V E → Numbers
fail_numbers p w = record {
  registered = count p w.on_fail;
  queued = count p w.controller.m_on_fail_queue;
  posted = tally (fail_weight p) w.tasks;
  called = count_calls p w.failed;
  scans = tally fail_scan w.tasks;
}

-- The calls were made with what the controller holds.
abbrev pub Right : {A : Type 0} → Option A → List (ℕ × A) → Type 0
Right none xs = xs ≡ []
Right (some a) xs = All (λ x. x.1 ≡ a) xs

pub record IsFair {V E : Type 0} (w : World V E) : Type 0 where
  pub fair :
      (p q : ℕ)
      → Fair w.controller.m_val_state w.controller.m_exception
          (success_numbers p w)
          (fail_numbers q w)
  pub values : Right w.controller.m_val_state w.succeeded
  pub exceptions : Right w.controller.m_exception w.failed
  pub callable : (count 0 w.on_success ≡ 0) × (count 0 w.on_fail ≡ 0)
