-- ===== src/Future/Controller/Steps.antt =====
-- A future_controller among the tasks of its thread pool, which run in any order.
use common.Base.{ℕ, ◌≡◌, List, [], ◌∷◌, ◌++◌, none, true, Outcome, ok, ◌>>=◌, ◌>>◌}
use common.Future.Controller.{
  FutureController, Task, process_on_success, process_on_fail, success_call, fail_call, create,
  set_on_success_and_fail, set_value_state, set_exception, run_process_on_success,
  run_process_on_fail, call_success, call_fail, get_value_state, is_callable,
}

-- `on_success` and `on_fail` are the callbacks that were set, `succeeded` and `failed` the calls
-- that were made.
pub record World (V E : Type 0) : Type 0 where
  pub controller : FutureController V E
  pub tasks : List Task
  pub on_success : List ℕ
  pub on_fail : List ℕ
  pub succeeded : List (ℕ × V)
  pub failed : List (ℕ × E)

-- What a task leaves: the controller, the tasks that it posts and the calls that it makes.
pub record Ran (V E : Type 0) : Type 0 where
  pub controller : FutureController V E
  pub posted : List Task
  pub success : List (ℕ × V)
  pub failure : List (ℕ × E)

module _ {V E : Type 0} where
  -- A callback for a value takes it from its `fvalue`, which asks for `get_value_state`.
  unfoldable pub run : Task → FutureController V E → Outcome (Ran V E)
  run process_on_success c = do
    (c', posted) ← run_process_on_success c
    ok (record { controller = c'; posted = posted; success = []; failure = [] })
  run process_on_fail c = do
    (c', posted) ← run_process_on_fail c
    ok (record { controller = c'; posted = posted; success = []; failure = [] })
  run (success_call f) c = do
    call_success f
    v ← get_value_state c
    ok (record { controller = c; posted = []; success = (f, v) ∷ []; failure = [] })
  run (fail_call f) c = do
    e ← call_fail f c
    ok (record { controller = c; posted = []; success = []; failure = (f, e) ∷ [] })

  abbrev pub new_world : World V E
  new_world = record {
    controller = create;
    tasks = [];
    on_success = [];
    on_fail = [];
    succeeded = [];
    failed = [];
  }

  abbrev pub after_run : World V E → List Task → Ran V E → World V E
  after_run w rest ran = record {
    controller = ran.controller;
    tasks = rest ++ ran.posted;
    on_success = w.on_success;
    on_fail = w.on_fail;
    succeeded = w.succeeded ++ ran.success;
    failed = w.failed ++ ran.failure;
  }

  -- The callbacks are not empty, and the owner of the promise sets a value or an exception once.
  pub data Step (w : World V E) (u : World V E) : Type 0 where
    registers :
        (s f : ℕ)
        → is_callable s ≡ true
        → is_callable f ≡ true
        → u ≡ record w {
          controller = (set_on_success_and_fail s f w.controller).0;
          tasks = w.tasks ++ (set_on_success_and_fail s f w.controller).1;
          on_success = w.on_success ++ s ∷ [];
          on_fail = w.on_fail ++ f ∷ [];
        }
        → Step w u
    sets_value :
        (v : V) (c : FutureController V E) (posted : List Task)
        → w.controller.m_exception ≡ none
        → set_value_state v w.controller ≡ ok (c, posted)
        → u ≡ record w { controller = c; tasks = w.tasks ++ posted }
        → Step w u
    sets_exception :
        (e : E)
        → w.controller.m_val_state ≡ none
        → w.controller.m_exception ≡ none
        → u ≡ record w {
          controller = (set_exception e w.controller).0;
          tasks = w.tasks ++ (set_exception e w.controller).1;
        }
        → Step w u
    runs :
        (before : List Task) (task : Task) (later : List Task) (ran : Ran V E)
        → w.tasks ≡ before ++ task ∷ later
        → run task w.controller ≡ ok ran
        → u ≡ after_run w (before ++ later) ran
        → Step w u

  pub data Reach (w : World V E) : World V E → Type 0 where
    here : Reach w w
    next : {t u : World V E} → Reach w t → Step t u → Reach w u
