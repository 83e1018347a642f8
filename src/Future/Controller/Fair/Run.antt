-- ===== src/Future/Controller/Fair/Run.antt =====
-- The tasks of a future_controller, one by one.
use common.Base.{
  ℕ, ◌+◌, ◌≡◌, refl, sym, ◌∙◌, List, [], ◌∷◌, ◌++◌, append-nil, Option, none, some, inl, inr, ok,
  ensure_ok, checked_ok, ok_injective, subst, arith, All,
}
use common.Future.Controller.{
  Task, process_on_success, process_on_fail, success_call, fail_call, run_process_on_success,
  run_process_on_fail, call_success, call_fail, calls, get_value_state, is_callable,
}
use common.Future.Controller.Steps.{World, Ran, run, after_run}
use common.Future.Controller.Fair.{
  tally, success_weight, fail_weight, success_scan, fail_scan, count_calls-append, tally-append,
  tally-calls, Numbers, Fair, IsFair,
}

Right-append :
    {A : Type 0} (a : A) (xs : List (ℕ × A)) (f : ℕ)
    → All (λ (x : ℕ × A). x.1 ≡ a) xs
    → All (λ (x : ℕ × A). x.1 ≡ a) (xs ++ (f, a) ∷ [])
Right-append a [] f h = (refl, tt)
Right-append a (x ∷ xs) f h = (h.0, Right-append a xs f h.1)

-- The tasks that are left behind one that runs, and those that it posts.
left :
    (before later : List Task) (g : Task → ℕ) (task : Task) (posted : List Task)
    → tally g ((before ++ later) ++ posted) + g task
      ≡ tally g (before ++ task ∷ later) + tally g posted
left before later g task posted = omega (
  arith,
  tally-append g (before ++ later) posted,
  tally-append g before later,
  tally-append g before (task ∷ later),
)

module _ {V E : Type 0} where
  -- Two callbacks are set.
  pub registers-Fair :
      (val : Option V) (exc : Option E) (s s' f f' : Numbers) (a b : ℕ)
      → s'.registered ≡ s.registered + a
      → s'.queued ≡ s.queued + a
      → s'.posted ≡ s.posted
      → s'.called ≡ s.called
      → s'.scans ≡ s.scans + 1
      → f'.registered ≡ f.registered + b
      → f'.queued ≡ f.queued + b
      → f'.posted ≡ f.posted
      → f'.called ≡ f.called
      → f'.scans ≡ f.scans + 1
      → Fair val exc s f
      → Fair val exc s' f'
  registers-Fair none none s s' f f' a b e₀ e₁ e₂ e₃ e₄ g₀ g₁ g₂ g₃ g₄ x = omega arith
  registers-Fair (some v) none s s' f f' a b e₀ e₁ e₂ e₃ e₄ g₀ g₁ g₂ g₃ g₄ x =
      ((omega arith, inr (omega arith)), omega arith)
  registers-Fair none (some e) s s' f f' a b e₀ e₁ e₂ e₃ e₄ g₀ g₁ g₂ g₃ g₄ x =
      (omega arith, (omega arith, inr (omega arith)))
  registers-Fair (some v) (some e) s s' f f' a b e₀ e₁ e₂ e₃ e₄ g₀ g₁ g₂ g₃ g₄ x = x

module _ {V E : Type 0} (before later : List Task) (qs qf on_success on_fail : List ℕ)
    (succeeded : List (ℕ × V)) (failed : List (ℕ × E)) where
  abbrev at : Task → Option V → Option E → World V E
  at task val exc = record {
    controller = record {
      m_on_success_queue = qs;
      m_on_fail_queue = qf;
      m_val_state = val;
      m_exception = exc;
    };
    tasks = before ++ task ∷ later;
    on_success = on_success;
    on_fail = on_fail;
    succeeded = succeeded;
    failed = failed;
  }

  abbrev After : Task → Option V → Option E → Ran V E → Type 0
  After task val exc ran = IsFair (after_run (at task val exc) (before ++ later) ran)

  scan_success-IsFair :
      (val : Option V) (exc : Option E) (ran : Ran V E)
      → IsFair (at process_on_success val exc)
      → run process_on_success (at process_on_success val exc).controller ≡ ok ran
      → After process_on_success val exc ran
  unfolding run run_process_on_success
  scan_success-IsFair none none ran x h =
      subst (After process_on_success none none) (ok_injective h) (record {
        fair = λ p q. omega (
          arith,
          x.fair p q,
          left before later (success_weight p) process_on_success [],
          left before later (fail_weight q) process_on_success [],
          count_calls-append p succeeded [],
          count_calls-append q failed [],
        );
        values = append-nil succeeded ∙ x.values;
        exceptions = append-nil failed ∙ x.exceptions;
        callable = x.callable;
      })
  scan_success-IsFair (some v) none ran x h =
      subst (After process_on_success (some v) none) (ok_injective h) (record {
        fair = λ p q. (
          (
            omega (
              arith,
              x.fair p q,
              left before later (success_weight p) process_on_success (calls success_call qs),
              (tally-calls p qs).0,
              count_calls-append p succeeded [],
            ),
            inl refl,
          ),
          omega (
            arith,
            x.fair p q,
            left before later (fail_weight q) process_on_success (calls success_call qs),
            (tally-calls q qs).1,
            count_calls-append q failed [],
          ),
        );
        values = subst (All (λ (y : ℕ × V). y.1 ≡ v)) (sym (append-nil succeeded)) x.values;
        exceptions = append-nil failed ∙ x.exceptions;
        callable = x.callable;
      })
  scan_success-IsFair none (some e) ran x h =
      subst (After process_on_success none (some e)) (ok_injective h) (record {
        fair = λ p q. (
          omega (
            arith,
            x.fair p q,
            left before later (success_weight p) process_on_success [],
            count_calls-append p succeeded [],
          ),
          ground (
            arith,
            x.fair p q,
            left before later (fail_weight q) process_on_success [],
            left before later fail_scan process_on_success [],
            count_calls-append q failed [],
          ),
        );
        values = append-nil succeeded ∙ x.values;
        exceptions = subst (All (λ (y : ℕ × E). y.1 ≡ e)) (sym (append-nil failed)) x.exceptions;
        callable = x.callable;
      })
  scan_success-IsFair (some v) (some e) ran x h = absurd (x.fair 0 0)

  scan_fail-IsFair :
      (val : Option V) (exc : Option E) (ran : Ran V E)
      → IsFair (at process_on_fail val exc)
      → run process_on_fail (at process_on_fail val exc).controller ≡ ok ran
      → After process_on_fail val exc ran
  unfolding run run_process_on_fail
  scan_fail-IsFair none none ran x h =
      subst (After process_on_fail none none) (ok_injective h) (record {
        fair = λ p q. omega (
          arith,
          x.fair p q,
          left before later (success_weight p) process_on_fail [],
          left before later (fail_weight q) process_on_fail [],
          count_calls-append p succeeded [],
          count_calls-append q failed [],
        );
        values = append-nil succeeded ∙ x.values;
        exceptions = append-nil failed ∙ x.exceptions;
        callable = x.callable;
      })
  scan_fail-IsFair (some v) none ran x h =
      subst (After process_on_fail (some v) none) (ok_injective h) (record {
        fair = λ p q. (
          ground (
            arith,
            x.fair p q,
            left before later (success_weight p) process_on_fail [],
            left before later success_scan process_on_fail [],
            count_calls-append p succeeded [],
          ),
          omega (
            arith,
            x.fair p q,
            left before later (fail_weight q) process_on_fail [],
            count_calls-append q failed [],
          ),
        );
        values = subst (All (λ (y : ℕ × V). y.1 ≡ v)) (sym (append-nil succeeded)) x.values;
        exceptions = append-nil failed ∙ x.exceptions;
        callable = x.callable;
      })
  scan_fail-IsFair none (some e) ran x h =
      subst (After process_on_fail none (some e)) (ok_injective h) (record {
        fair = λ p q. (
          omega (
            arith,
            x.fair p q,
            left before later (success_weight p) process_on_fail (calls fail_call qf),
            (tally-calls p qf).2,
            count_calls-append p succeeded [],
          ),
          (
            omega (
              arith,
              x.fair p q,
              left before later (fail_weight q) process_on_fail (calls fail_call qf),
              (tally-calls q qf).3,
              count_calls-append q failed [],
            ),
            inl refl,
          ),
        );
        values = append-nil succeeded ∙ x.values;
        exceptions = subst (All (λ (y : ℕ × E). y.1 ≡ e)) (sym (append-nil failed)) x.exceptions;
        callable = x.callable;
      })
  scan_fail-IsFair (some v) (some e) ran x h = absurd (x.fair 0 0)

  success_call-IsFair :
      (f : ℕ) (val : Option V) (exc : Option E) (ran : Ran V E)
      → IsFair (at (success_call f) val exc)
      → run (success_call f) (at (success_call f) val exc).controller ≡ ok ran
      → After (success_call f) val exc ran
  unfolding run call_success get_value_state
  success_call-IsFair f none exc ran x h = let (_, g) = ensure_ok (is_callable f) _ h in cc
  success_call-IsFair f (some v) none ran x h =
      subst (After (success_call f) (some v) none) (ok_injective (ensure_ok (is_callable f) _ h).1)
        (record {
          fair = λ p q. (
            ground (
              arith,
              x.fair p q,
              left before later (success_weight p) (success_call f) [],
              left before later success_scan (success_call f) [],
              count_calls-append p succeeded ((f, v) ∷ []),
            ),
            omega (
              arith,
              x.fair p q,
              left before later (fail_weight q) (success_call f) [],
              count_calls-append q failed [],
            ),
          );
          values = Right-append v succeeded f x.values;
          exceptions = append-nil failed ∙ x.exceptions;
          callable = x.callable;
        })
  success_call-IsFair f (some v) (some e) ran x h = absurd (x.fair 0 0)

  fail_call-IsFair :
      (f : ℕ) (val : Option V) (exc : Option E) (ran : Ran V E)
      → IsFair (at (fail_call f) val exc)
      → run (fail_call f) (at (fail_call f) val exc).controller ≡ ok ran
      → After (fail_call f) val exc ran
  unfolding run call_fail
  fail_call-IsFair f val none ran x h = cc
  fail_call-IsFair f none (some e) ran x h =
      subst (After (fail_call f) none (some e)) (ok_injective (checked_ok (is_callable f) e _ h))
        (record {
          fair = λ p q. (
            omega (
              arith,
              x.fair p q,
              left before later (success_weight p) (fail_call f) [],
              count_calls-append p succeeded [],
            ),
            ground (
              arith,
              x.fair p q,
              left before later (fail_weight q) (fail_call f) [],
              left before later fail_scan (fail_call f) [],
              count_calls-append q failed ((f, e) ∷ []),
            ),
          );
          values = append-nil succeeded ∙ x.values;
          exceptions = Right-append e failed f x.exceptions;
          callable = x.callable;
        })
  fail_call-IsFair f (some v) (some e) ran x h = absurd (x.fair 0 0)

  pub run-IsFair :
      (task : Task) (val : Option V) (exc : Option E) (ran : Ran V E)
      → IsFair (at task val exc)
      → run task (at task val exc).controller ≡ ok ran
      → After task val exc ran
  run-IsFair process_on_success val exc ran x h = scan_success-IsFair val exc ran x h
  run-IsFair process_on_fail val exc ran x h = scan_fail-IsFair val exc ran x h
  run-IsFair (success_call f) val exc ran x h = success_call-IsFair f val exc ran x h
  run-IsFair (fail_call f) val exc ran x h = fail_call-IsFair f val exc ran x h
