-- ===== src/Rpc/ServerConnector/Brackets.antt =====
-- What a server_connector tells its owner.
use common.Base.{
  ℕ, ◌+◌, ◌≡◌, refl, sym, ap, ◌∙◌, List, [], ◌∷◌, ◌++◌, Option, none, some, Bool, true, false, ◌==◌,
  if◌then◌else◌, Bool-cases, inl, inr, ok, throws, logic_error, bind_ok, ok_injective, subst, arith,
}
use common.Rpc.ServerConnector.{
  Notification, started, stopped, new_connection, Task, connect_pipe, read_request, write_response,
  ServerConnector, Turn, quiet, create, is_running, is_active, set_flag, connect,
  start_pipe_connect, start, stop_run, stop_impl, notify_on_new_connection, on_pipe, ends,
  on_request, on_response, run_task, erase_connection_future_from_map,
}
use common.Rpc.ServerConnector.Events.{
  World, new_world, after, Step, starts, stops, runs, Reach, here, next,
}

-- Whether the owner takes the connector for running, after one more notification; `none` is an
-- order that makes no sense.
abbrev pub told : Option Bool → Notification → Option Bool
told (some false) started = some true
told (some true) stopped = some false
told (some true) (new_connection id) = some true
told _ n = none

abbrev pub told_all : Option Bool → List Notification → Option Bool
told_all s [] = s
told_all s (n ∷ ns) = told_all (told s n) ns

told_all-append :
    (s : Option Bool) (xs ys : List Notification)
    → told_all s (xs ++ ys) ≡ told_all (told_all s xs) ys
told_all-append s [] ys = refl
told_all-append s (x ∷ xs) ys = told_all-append (told s x) xs ys

-- No run but the current one has its flag up.
abbrev pub OneRun : ServerConnector → Type 0
OneRun c = (r : ℕ) → c.flags r ≡ true → c.m_is_running_sp ≡ some r

pub record Tells (c : ServerConnector) (turn : Turn) : Type 0 where
  pub one_run : OneRun turn.connector
  pub told_so : told_all (some (is_active c)) turn.notified ≡ some (is_active turn.connector)

active_of_flag : (c : ServerConnector) (r : ℕ) → OneRun c → c.flags r ≡ true → is_active c ≡ true
unfolding is_active
active_of_flag c r one h = ap (λ o. is_running o c) (one r h) ∙ h

no_run : (c : ServerConnector) → c.m_is_running_sp ≡ none → is_active c ≡ false
unfolding is_active
no_run c h = ap (λ o. is_running o c) h

same_running :
    (o : Option ℕ) (c c' : ServerConnector) → c.flags ≡ c'.flags → is_running o c ≡ is_running o c'
same_running none c c' h = refl
same_running (some r) c c' h = ap (λ (f : ℕ → Bool). f r) h

quiet-Tells : (c : ServerConnector) → OneRun c → Tells c (quiet c)
quiet-Tells c one = record { one_run = one; told_so = refl }

connect-Tells : (run : Option ℕ) (c : ServerConnector) → OneRun c → Tells c (connect run c)
unfolding is_active
connect-Tells run c one = record {
  one_run = one;
  told_so = ap some (same_running c.m_is_running_sp c (connect run c).connector refl);
}

stop_run-Tells :
    (r : ℕ) (c : ServerConnector) → c.flags r ≡ true → OneRun c → Tells c (stop_run r c)
stop_run-Tells r c up one = record {
  one_run = λ x h. only x (x == r) refl h;
  told_so = rw (active_of_flag c r one up) (ap some (sym (no_run (stop_run r c).connector refl)));
}
  where
    only :
        (x : ℕ) (b : Bool) → (x == r) ≡ b → (if b then false else c.flags x) ≡ true → none ≡ some x
    only x true e h = cc
    only x false e h = absurd (ground (arith, e, one x h, one r up))

stop_impl-Tells : (run : Option ℕ) (c : ServerConnector) → OneRun c → Tells c (stop_impl run c)
unfolding stop_impl
stop_impl-Tells none c one = quiet-Tells c one
stop_impl-Tells (some r) c one = elim (Bool-cases (c.flags r)) [
  | inr down ↦ rw down (quiet-Tells c one)
  | inl up ↦ rw up (stop_run-Tells r c up one)
]

start_again-Tells :
    (run : Option ℕ) (c : ServerConnector) (turn : Turn)
    → OneRun c
    → start_pipe_connect false run c ≡ ok turn
    → Tells c turn
unfolding start_pipe_connect
start_again-Tells run c turn one h = by_test (is_running run c) h
  where
    by_test : (b : Bool) → (if b then ok (connect run c) else ok (quiet c)) ≡ ok turn → Tells c turn
    by_test true h = subst (Tells c) (ok_injective h) (connect-Tells run c one)
    by_test false h = subst (Tells c) (ok_injective h) (quiet-Tells c one)

-- `start`, on a connector that does not run.
start-Tells : (c : ServerConnector) (turn : Turn) → OneRun c → start c ≡ ok turn → Tells c turn
unfolding start is_active
start-Tells c turn one h = by_test (is_running c.m_is_running_sp up) refl h
  where
    up : ServerConnector
    up = record c { flags = set_flag c.allocated true c.flags; allocated = c.allocated + 1 }

    was_idle : (o : Option ℕ) → is_running o up ≡ false → is_running o c ≡ false
    was_idle none e = refl
    was_idle (some r) e = ground (arith, e)

    only :
        is_running c.m_is_running_sp up ≡ false
        → (x : ℕ) (b : Bool) → (x == c.allocated) ≡ b
        → (if b then true else c.flags x) ≡ true
        → some c.allocated ≡ some x
    only idle x true e h = ground (arith, e)
    only idle x false e h =
        absurd
          (ground (arith, h, was_idle c.m_is_running_sp idle, ap (λ o. is_running o c) (one x h)))

    by_test :
        (b : Bool)
        → is_running c.m_is_running_sp up ≡ b
        → (elim b [
          | true ↦ throws logic_error
          | false ↦
              ok
                (record (connect
                  (some c.allocated)
                  (record up { m_is_running_sp = some c.allocated })) { notified = started ∷ [] })
        ])
          ≡ ok turn
        → Tells c turn
    by_test true e h = cc
    by_test false e h = subst (Tells c) (ok_injective h) (record {
      one_run = λ x k. only e x (x == c.allocated) refl k;
      told_so = rw (was_idle c.m_is_running_sp e) (ap some (ground arith));
    })

notify-Tells :
    (id : ℕ) (run : Option ℕ) (c : ServerConnector)
    → OneRun c
    → told_all (some (is_active c)) (notify_on_new_connection id run c) ≡ some (is_active c)
unfolding notify_on_new_connection
notify-Tells id none c one = refl
notify-Tells id (some r) c one = elim (Bool-cases (c.flags r)) [
  | inl up ↦ rw (up, active_of_flag c r one up) refl
  | inr down ↦ rw down refl
]

ends-Tells : (id : ℕ) (c : ServerConnector) → OneRun c → Tells c (ends id c)
unfolding erase_connection_future_from_map is_active
ends-Tells id c one = record {
  one_run = one;
  told_so = ap some (same_running c.m_is_running_sp c (ends id c).connector refl);
}

run_task-Tells :
    (good : Bool) (task : Task) (c : ServerConnector) (turn : Turn)
    → OneRun c
    → run_task good task c ≡ ok turn
    → Tells c turn
unfolding run_task on_pipe on_request on_response
run_task-Tells true (connect_pipe id run) c turn one h =
    let (t, f, g) = bind_ok (start_pipe_connect false run c) _ {b = turn} h in
    let x = start_again-Tells run c t one f in
    subst (Tells c) (ok_injective g) (record { one_run = x.one_run; told_so = x.told_so })
run_task-Tells false (connect_pipe id run) c turn one h =
    let x = stop_impl-Tells run c one in
    subst (Tells c) (ok_injective h) (record { one_run = x.one_run; told_so = x.told_so })
run_task-Tells true (read_request id run) c turn one h =
    subst (Tells c) (ok_injective h) (record { one_run = one; told_so = refl })
run_task-Tells false (read_request id run) c turn one h =
    subst (Tells c) (ok_injective h) (ends-Tells id c one)
run_task-Tells true (write_response id run) c turn one h =
    let x = ends-Tells id c one in
    subst (Tells c) (ok_injective h)
      (record { one_run = x.one_run; told_so = notify-Tells id run c one ∙ x.told_so })
run_task-Tells false (write_response id run) c turn one h =
    subst (Tells c) (ok_injective h) (ends-Tells id c one)

pub record Bracketed (w : World) : Type 0 where
  pub one_run : OneRun w.connector
  pub told_so : told_all (some false) w.notified ≡ some (is_active w.connector)

after-Bracketed :
    (w : World) (left : List Task) (turn : Turn)
    → Tells w.connector turn
    → Bracketed w
    → Bracketed (after w left turn)
after-Bracketed w left turn t x = record {
  one_run = t.one_run;
  told_so =
      told_all-append (some false) w.notified turn.notified
      ∙ ap (λ s. told_all s turn.notified) x.told_so
      ∙ t.told_so;
}

Step-Bracketed : {w u : World} → Step w u → Bracketed w → Bracketed u
Step-Bracketed {w} (starts turn h e) x =
    subst Bracketed (sym e)
      (after-Bracketed w w.tasks turn (start-Tells w.connector turn x.one_run h) x)
Step-Bracketed {w} (stops run e) x = subst Bracketed (sym e) (
    after-Bracketed w w.tasks (stop_impl run w.connector)
      (stop_impl-Tells run w.connector x.one_run) x)
Step-Bracketed {w} (runs before task later good turn f h e) x = subst Bracketed (sym e) (
    after-Bracketed w (before ++ later) turn (run_task-Tells good task w.connector turn x.one_run h)
      x)

Reach-Bracketed : {w : World} → Reach new_world w → Bracketed w
unfolding create is_active
Reach-Bracketed here = record { one_run = λ r h. cc; told_so = refl }
Reach-Bracketed (next r step) = Step-Bracketed step (Reach-Bracketed r)

-- In every history of a server_connector, its owner is told of a start, then of connections, and
-- then of a stop before the next start; no connection is told outside a run; and after the last
-- notification so far the connector is active exactly if the owner takes it for started.
pub notified_lem :
    {w : World}
    → Reach new_world w
    → told_all (some false) w.notified ≡ some (is_active w.connector)
notified_lem r = (Reach-Bracketed r).told_so
