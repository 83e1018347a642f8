-- ===== src/Future/Controller/Tests.antt =====
-- future_controller at concrete inputs.
use common.Base.{ℕ, ◌≤◌, ◌≡◌, refl, [], ◌∷◌, none, some, All, ok}
use common.Future.Controller.{
  process_on_success, process_on_fail, success_call, create, set_on_success_and_fail,
  set_value_state, run_process_on_success, run_process_on_fail, call_success, get_value_state,
  process_both,
}
use common.Future.Controller.Steps.{
  World, Ran, run, new_world, registers, sets_value, runs, Reach, here, next,
}
use common.Future.Controller.Fair.{count_calls}
use common.Future.Controller.Fair.Served.{answered_lem, task_returns, Answered}
use common.Future.Controller.Fair.Drain.{Runs, work, drained_lem}

abbrev NumberWorld : Type 0
NumberWorld = World ℕ ℕ

-- A callback is set, then the value 5.
abbrev with_value : NumberWorld
with_value = record {
  controller = record {
    m_on_success_queue = 1 ∷ [];
    m_on_fail_queue = 2 ∷ [];
    m_val_state = some 5;
    m_exception = none;
  };
  tasks = process_on_success ∷ process_on_fail ∷ process_on_success ∷ process_on_fail ∷ [];
  on_success = 1 ∷ [];
  on_fail = 2 ∷ [];
  succeeded = [];
  failed = [];
}

with_value-Reach : Reach new_world with_value
unfolding create set_on_success_and_fail set_value_state
with_value-Reach =
    next (next here (registers 1 2 refl refl refl))
      (sets_value 5 with_value.controller process_both refl refl refl)

drained_lem_example :
    (u : NumberWorld) × (n : ℕ) × Runs u n with_value
    × (n ≤ work with_value)
    × (u.tasks ≡ [])
    × Answered u.controller.m_val_state u.controller.m_exception 1 2 u
drained_lem_example = drained_lem 1 2 with_value-Reach

abbrev done : NumberWorld
done = record with_value {
  controller = record {
    m_on_success_queue = [];
    m_on_fail_queue = [];
    m_val_state = some 5;
    m_exception = none;
  };
  tasks = [];
  succeeded = (1, 5) ∷ [];
}

done-Reach : Reach new_world done
unfolding create set_on_success_and_fail set_value_state run run_process_on_success
    run_process_on_fail call_success get_value_state
done-Reach =
    next
      (next
        (next
          (next
            (next with_value-Reach (
              runs [] process_on_success
                (process_on_fail ∷ process_on_success ∷ process_on_fail ∷ []) _ refl refl refl))
            (runs [] process_on_fail (process_on_success ∷ process_on_fail ∷ success_call 1 ∷ []) _
              refl refl refl))
          (runs [] process_on_success (process_on_fail ∷ success_call 1 ∷ []) _ refl refl refl))
        (runs [] process_on_fail (success_call 1 ∷ []) _ refl refl refl))
      (runs [] (success_call 1) [] _ refl refl refl)

answered_once :
    (count_calls 1 done.succeeded ≡ 1)
    × All (λ (x : ℕ × ℕ). x.1 ≡ 5) done.succeeded
    × (done.failed ≡ [])
answered_once = answered_lem 1 2 done-Reach refl

task_returns_example : (ran : Ran ℕ ℕ) × (run process_on_fail with_value.controller ≡ ok ran)
task_returns_example =
    task_returns with_value (process_on_success ∷ []) process_on_fail
      (process_on_success ∷ process_on_fail ∷ []) with_value-Reach refl
