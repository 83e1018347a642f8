-- ===== src/Future/Controller/Fair/History.antt =====
-- The callbacks of a future_controller over a history of its tasks.
use common.Base.{
  ℕ, ◌≡◌, refl, sym, List, [], ◌∷◌, ◌++◌, Option, none, some, true, inr, ok, ensure_ok,
  ok_injective, subst, arith, All,
}
use common.Future.Controller.{
  FutureController, Task, create, set_on_success_and_fail, set_value_state, set_exception, is_none,
  process_both,
}
use common.Future.Controller.Steps.{
  World, Ran, run, new_world, after_run, Step, registers, sets_value, sets_exception, runs, Reach,
  here, next,
}
use common.Future.Controller.Fair.{
  count, success_weight, fail_weight, success_scan, fail_scan, count-append, tally-append, Fair,
  success_numbers, fail_numbers, Right, IsFair,
}
use common.Future.Controller.Fair.Run.{registers-Fair, run-IsFair}

module _ {V E : Type 0} where
  abbrev with_value : V → World V E → World V E
  with_value v w = record w {
    controller = record w.controller { m_val_state = some v };
    tasks = w.tasks ++ process_both;
  }

  abbrev with_exception : E → World V E → World V E
  with_exception e w = record w {
    controller = record w.controller { m_exception = some e };
    tasks = w.tasks ++ process_both;
  }

  value-IsFair :
      (v : V) (w : World V E)
      → w.controller.m_val_state ≡ none
      → w.controller.m_exception ≡ none
      → IsFair w
      → IsFair (with_value v w)
  value-IsFair v w no_value no_exception x = record {
    fair = λ p q.
        let y : Fair {V = V} {E = E} none none (success_numbers p w) (fail_numbers q w) =
          subst (λ e. Fair {V = V} {E = E} none e (success_numbers p w) (fail_numbers q w))
            no_exception
            (subst (λ o. Fair o w.controller.m_exception (success_numbers p w) (fail_numbers q w))
              no_value (x.fair p q)) in
        subst
          (λ e.
            Fair (some v) e (success_numbers p (with_value v w)) (fail_numbers q (with_value v w)))
          (sym no_exception)
          (
            (
              omega (arith, y, tally-append (success_weight p) w.tasks process_both),
              inr (omega (arith, tally-append success_scan w.tasks process_both)),
            ),
            omega (arith, y, tally-append (fail_weight q) w.tasks process_both),
          );
    values =
        subst (All (λ (y : ℕ × V). y.1 ≡ v))
          (sym (subst (λ o. Right o w.succeeded) no_value x.values)) tt;
    exceptions = x.exceptions;
    callable = x.callable;
  }

  exception-IsFair :
      (e : E) (w : World V E)
      → w.controller.m_val_state ≡ none
      → w.controller.m_exception ≡ none
      → IsFair w
      → IsFair (with_exception e w)
  exception-IsFair e w no_value no_exception x = record {
    fair = λ p q.
        let y : Fair {V = V} {E = E} none none (success_numbers p w) (fail_numbers q w) =
          subst (λ e. Fair {V = V} {E = E} none e (success_numbers p w) (fail_numbers q w))
            no_exception
            (subst (λ o. Fair o w.controller.m_exception (success_numbers p w) (fail_numbers q w))
              no_value (x.fair p q)) in
        subst
          (λ o.
            Fair o (some e) (success_numbers p (with_exception e w))
              (fail_numbers q (with_exception e w)))
          (sym no_value)
          (
            omega (arith, y, tally-append (success_weight p) w.tasks process_both),
            (
              omega (arith, y, tally-append (fail_weight q) w.tasks process_both),
              inr (omega (arith, tally-append fail_scan w.tasks process_both)),
            ),
          );
    values = x.values;
    exceptions =
        subst (All (λ (y : ℕ × E). y.1 ≡ e))
          (sym (subst (λ o. Right o w.failed) no_exception x.exceptions)) tt;
    callable = x.callable;
  }

  -- A task that runs.
  pub runs-IsFair :
      (w : World V E) (before : List Task) (task : Task) (later : List Task) (ran : Ran V E)
      → w.tasks ≡ before ++ task ∷ later
      → run task w.controller ≡ ok ran
      → IsFair w
      → IsFair (after_run w (before ++ later) ran)
  runs-IsFair w before task later ran f h x =
      run-IsFair before later w.controller.m_on_success_queue w.controller.m_on_fail_queue
        w.on_success w.on_fail w.succeeded w.failed task w.controller.m_val_state
        w.controller.m_exception ran (subst (λ ts. IsFair (record w { tasks = ts })) f x) h

  Step-IsFair : {w u : World V E} → Step w u → IsFair w → IsFair u
  unfolding set_on_success_and_fail set_value_state set_exception
  Step-IsFair {w} (registers s f hs hf e) x = subst IsFair (sym e) (record {
    fair = λ p q.
        registers-Fair w.controller.m_val_state w.controller.m_exception (success_numbers p w) _
          (fail_numbers q w) _ (count p (s ∷ [])) (count q (f ∷ []))
          (count-append p w.on_success (s ∷ []))
          (count-append p w.controller.m_on_success_queue (s ∷ []))
          (omega (arith, tally-append (success_weight p) w.tasks process_both)) refl
          (tally-append success_scan w.tasks process_both) (count-append q w.on_fail (f ∷ []))
          (count-append q w.controller.m_on_fail_queue (f ∷ []))
          (omega (arith, tally-append (fail_weight q) w.tasks process_both)) refl
          (tally-append fail_scan w.tasks process_both) (x.fair p q);
    values = x.values;
    exceptions = x.exceptions;
    callable = (
      ground (arith, hs, x.callable.0, count-append 0 w.on_success (s ∷ [])),
      ground (arith, hf, x.callable.1, count-append 0 w.on_fail (f ∷ [])),
    );
  })
  Step-IsFair {w} (sets_value v c posted no_exception h e) x =
      let (free, f) = ensure_ok (is_none w.controller.m_val_state) _ h in
      subst IsFair (sym e) (
        subst
          (λ (r : FutureController V E × List Task).
            IsFair (record w { controller = r.0; tasks = w.tasks ++ r.1 }))
          (ok_injective f)
          (value-IsFair v w (none_of w.controller.m_val_state free) no_exception x))
    where
      none_of : (o : Option V) → is_none o ≡ true → o ≡ none
      none_of none k = refl
      none_of (some a) k = cc
  Step-IsFair {w} (sets_exception e no_value no_exception q) x =
      subst IsFair (sym q) (exception-IsFair e w no_value no_exception x)
  Step-IsFair {w} (runs before task later ran f h e) x =
      subst IsFair (sym e) (runs-IsFair w before task later ran f h x)

  pub Reach-IsFair : {w : World V E} → Reach new_world w → IsFair w
  unfolding create
  Reach-IsFair here = record {
    fair = λ p q. omega arith;
    values = refl;
    exceptions = refl;
    callable = (refl, refl);
  }
  Reach-IsFair (next r step) = Step-IsFair step (Reach-IsFair r)
