-- ===== src/Rpc/ServerConnector/Attempts.antt =====
-- The connections that a server_connector tries to make, and their promises.
use common.Base.{
  ℕ, ◌+◌, ◌%◌, ◌^◌, ◌≡◌, refl, sym, ap, List, [], ◌∷◌, ◌++◌, Option, none, some, Bool, true, false,
  ◌==◌, if◌then◌else◌, ok, throws, logic_error, bind_ok, ok_injective, subst, arith,
}
use common.Rpc.ServerConnector.{
  Notification, started, erase_connection_future_from_map, Task, connect_pipe, read_request,
  write_response, ServerConnector, Turn, quiet, create, is_running, set_flag, connect,
  start_pipe_connect, start, stop_impl, on_pipe, on_request, on_response, run_task,
}
use common.Rpc.ServerConnector.Events.{
  World, new_world, given, after, Step, starts, stops, runs, Reach, here, next,
}

abbrev pub count : ℕ → List ℕ → ℕ
count p [] = 0
count p (q ∷ qs) = (if q == p then 1 else 0) + count p qs

-- How often a connection is under way.
abbrev pub is_of : ℕ → Task → ℕ
is_of p (connect_pipe id run) = if id == p then 1 else 0
is_of p (read_request id run) = if id == p then 1 else 0
is_of p (write_response id run) = if id == p then 1 else 0

abbrev pub under_way : ℕ → List Task → ℕ
under_way p [] = 0
under_way p (t ∷ ts) = is_of p t + under_way p ts

count-append : (p : ℕ) (xs ys : List ℕ) → count p (xs ++ ys) ≡ count p xs + count p ys
count-append p [] ys = omega arith
count-append p (x ∷ xs) ys = omega (arith, count-append p xs ys)

under_way-append :
    (p : ℕ) (xs ys : List Task) → under_way p (xs ++ ys) ≡ under_way p xs + under_way p ys
under_way-append p [] ys = omega arith
under_way-append p (x ∷ xs) ys = omega (arith, under_way-append p xs ys)

given_none :
    (c c' : ServerConnector) → c'.m_next_connection_id ≡ c.m_next_connection_id → given c c' ≡ []
given_none c c' h = ground (arith, h)

given_one :
    (c c' : ServerConnector)
    → c'.m_next_connection_id ≡ (c.m_next_connection_id + 1) % 2 ^ 64
    → given c c' ≡ c.m_next_connection_id ∷ []
given_one c c' h = ground (arith, h)

stop_impl_lem :
    (run : Option ℕ) (c : ServerConnector)
    → ((stop_impl run c).tasks ≡ [])
      × ((stop_impl run c).completed ≡ [])
      × ((stop_impl run c).connector.m_next_connection_id ≡ c.m_next_connection_id)
unfolding stop_impl
stop_impl_lem none c = (refl, refl, refl)
stop_impl_lem (some r) c = ground arith

module _ (p : ℕ) where
  -- A turn of the connector `c` that begins with `n` of the connection under way.
  abbrev Keeps : ServerConnector → ℕ → Turn → Type 0
  Keeps c n turn =
      count p (given c turn.connector) + n ≡ count p turn.completed + under_way p turn.tasks

  -- A turn that gives no id.
  silent-Keeps :
      (c : ServerConnector) (n : ℕ) (turn : Turn)
      → turn.connector.m_next_connection_id ≡ c.m_next_connection_id
      → n ≡ count p turn.completed + under_way p turn.tasks
      → Keeps c n turn
  silent-Keeps c n turn same h = rw (given_none c turn.connector same) (omega (arith, h))

  connect-Keeps :
      (run : Option ℕ) (c c₀ : ServerConnector) (told : List Notification)
      → c.m_next_connection_id ≡ c₀.m_next_connection_id
      → Keeps c₀ 0 (record (connect run c) { notified = told })
  connect-Keeps run c c₀ told same =
      rw (given_one c₀ (connect run c).connector (ap (λ n. (n + 1) % 2 ^ 64) same))
        (rw same (omega arith))

  start_again-Keeps :
      (run : Option ℕ) (c : ServerConnector) (turn : Turn)
      → start_pipe_connect false run c ≡ ok turn
      → Keeps c 0 turn
  unfolding start_pipe_connect
  start_again-Keeps run c turn h = by_test (is_running run c) h
    where
      by_test :
          (b : Bool) → (if b then ok (connect run c) else ok (quiet c)) ≡ ok turn → Keeps c 0 turn
      by_test true h = subst (Keeps c 0) (ok_injective h) (connect-Keeps run c c [] refl)
      by_test false h = subst (Keeps c 0) (ok_injective h) (silent-Keeps c 0 (quiet c) refl refl)

  start-Keeps : (c : ServerConnector) (turn : Turn) → start c ≡ ok turn → Keeps c 0 turn
  unfolding start
  start-Keeps c turn h = by_test (is_running c.m_is_running_sp up) h
    where
      up : ServerConnector
      up = record c { flags = set_flag c.allocated true c.flags; allocated = c.allocated + 1 }

      by_test :
          (b : Bool)
          → (elim b [
            | true ↦ throws logic_error
            | false ↦
                ok
                  (record (connect
                    (some c.allocated)
                    (record up { m_is_running_sp = some c.allocated })) { notified = started ∷ [] })
          ])
            ≡ ok turn
          → Keeps c 0 turn
      by_test true h = cc
      by_test false h = subst (Keeps c 0) (ok_injective h) (
          connect-Keeps (some c.allocated) (record up { m_is_running_sp = some c.allocated }) c
            (started ∷ []) refl)

  run_task-Keeps :
      (good : Bool) (task : Task) (c : ServerConnector) (turn : Turn)
      → run_task good task c ≡ ok turn
      → Keeps c (is_of p task) turn
  unfolding run_task on_pipe on_request on_response erase_connection_future_from_map
  run_task-Keeps true (connect_pipe id run) c turn h =
      let (t, f, g) = bind_ok (start_pipe_connect false run c) _ {b = turn} h in
      subst (Keeps c (is_of p (connect_pipe id run))) (ok_injective g) (
        omega (
          arith,
          start_again-Keeps run c t f,
          under_way-append p t.tasks (read_request id run ∷ []),
        ))
  run_task-Keeps false (connect_pipe id run) c turn h =
      let (no_tasks, _, same) = stop_impl_lem run c in
      subst (Keeps c (is_of p (connect_pipe id run))) (ok_injective h) (
        silent-Keeps c (is_of p (connect_pipe id run))
          (record (stop_impl run c) { completed = id ∷ [] }) same (rw no_tasks (omega arith)))
  run_task-Keeps true (read_request id run) c turn h =
      subst (Keeps c (is_of p (read_request id run))) (ok_injective h) (
        silent-Keeps c (is_of p (read_request id run)) (on_request true id run c) refl
          (omega arith))
  run_task-Keeps false (read_request id run) c turn h =
      subst (Keeps c (is_of p (read_request id run))) (ok_injective h) (
        silent-Keeps c (is_of p (read_request id run)) (on_request false id run c) refl
          (omega arith))
  run_task-Keeps true (write_response id run) c turn h =
      subst (Keeps c (is_of p (write_response id run))) (ok_injective h) (
        silent-Keeps c (is_of p (write_response id run)) (on_response true id run c) refl
          (omega arith))
  run_task-Keeps false (write_response id run) c turn h =
      subst (Keeps c (is_of p (write_response id run))) (ok_injective h) (
        silent-Keeps c (is_of p (write_response id run)) (on_response false id run c) refl
          (omega arith))

  stops-Keeps : (run : Option ℕ) (c : ServerConnector) → Keeps c 0 (stop_impl run c)
  stops-Keeps run c =
      let (no_tasks, none_completed, same) = stop_impl_lem run c in
      silent-Keeps c 0 (stop_impl run c) same (rw (no_tasks, none_completed) refl)

  abbrev Kept : World → Type 0
  Kept w = count p w.issued ≡ count p w.completed + under_way p w.tasks

  after-Kept :
      (w : World) (left : List Task) (turn : Turn) (n : ℕ)
      → under_way p left + n ≡ under_way p w.tasks
      → Keeps w.connector n turn
      → Kept w
      → Kept (after w left turn)
  after-Kept w left turn n e k x = omega (
    arith,
    x,
    e,
    k,
    count-append p w.issued (given w.connector turn.connector),
    count-append p w.completed turn.completed,
    under_way-append p left turn.tasks,
  )

  Step-Kept : {w u : World} → Step w u → Kept w → Kept u
  Step-Kept {w} (starts turn h e) x =
      subst Kept (sym e)
        (after-Kept w w.tasks turn 0 (omega arith) (start-Keeps w.connector turn h) x)
  Step-Kept {w} (stops run e) x = subst Kept (sym e) (
      after-Kept w w.tasks (stop_impl run w.connector) 0 (omega arith) (stops-Keeps run w.connector)
        x)
  Step-Kept {w} (runs before task later good turn f h e) x = subst Kept (sym e) (
      after-Kept w (before ++ later) turn (is_of p task)
        (omega (
          arith,
          ap (under_way p) f,
          under_way-append p before later,
          under_way-append p before (task ∷ later),
        ))
        (run_task-Keeps good task w.connector turn h) x)

  -- In every state that a server_connector can reach, each connection that was given an id (which
  -- moves m_next_connection_id on) has one continuation under way or its promise has been set, as
  -- often as the id was given: no attempt is lost, and none ends twice.
  pub attempts_lem :
      {w : World} → Reach new_world w → count p w.issued ≡ count p w.completed + under_way p w.tasks
  unfolding create
  attempts_lem here = refl
  attempts_lem (next r step) = Step-Kept step (attempts_lem r)
