-- ===== src/Rpc/ServerConnector/Tests.antt =====
-- server_connector::impl at concrete inputs.
use common.Base.{◌+◌, ◌≡◌, refl, [], ◌∷◌, some, true, false, Outcome, ok}
use common.Rpc.ServerConnector.{
  connect_pipe, read_request, write_response, started, stopped, new_connection, Turn, create, start,
  start_pipe_connect, stop_impl, on_pipe, on_request, on_response, run_task,
  notify_on_new_connection, erase_connection_future_from_map, is_active,
}
use common.Rpc.ServerConnector.Events.{
  World, new_world, after, starts, stops, runs, Reach, here, next,
}
use common.Rpc.ServerConnector.Brackets.{told_all, notified_lem}
use common.Rpc.ServerConnector.Attempts.{count, under_way, attempts_lem}

abbrev turn_of : Outcome Turn → Turn
turn_of (ok t) = t
turn_of _ = record { connector = create; notified = []; tasks = []; completed = [] }

abbrev running : World
running = after new_world [] (turn_of (start create))

-- A client connects and is let in; then the connector is stopped.
abbrev connected : World
connected = after running [] (turn_of (run_task true (connect_pipe 0 (some 0)) running.connector))

abbrev let_in : World
let_in =
    after connected (connect_pipe 1 (some 0) ∷ [])
      (turn_of (run_task true (read_request 0 (some 0)) connected.connector))

abbrev served : World
served =
    after let_in (connect_pipe 1 (some 0) ∷ [])
      (turn_of (run_task true (write_response 0 (some 0)) let_in.connector))

abbrev ended : World
ended = after served served.tasks (stop_impl (some 0) served.connector)

history : Reach new_world ended
unfolding create start start_pipe_connect stop_impl run_task on_pipe on_request on_response
    notify_on_new_connection erase_connection_future_from_map
history =
    next
      (next
        (next
          (next (next here (starts (turn_of (start create)) refl refl))
            (runs [] (connect_pipe 0 (some 0)) [] true _ refl refl refl))
          (runs (connect_pipe 1 (some 0) ∷ []) (read_request 0 (some 0)) [] true _ refl refl refl))
        (runs (connect_pipe 1 (some 0) ∷ []) (write_response 0 (some 0)) [] true _ refl refl refl))
      (stops (some 0) refl)

told_of : ended.notified ≡ started ∷ new_connection 0 ∷ stopped ∷ []
unfolding create start start_pipe_connect stop_impl run_task on_pipe on_request on_response
    notify_on_new_connection erase_connection_future_from_map
told_of = refl

notified_lem_example : told_all (some false) ended.notified ≡ some (is_active ended.connector)
notified_lem_example = notified_lem history

attempts_lem_example : count 0 ended.issued ≡ count 0 ended.completed + under_way 0 ended.tasks
attempts_lem_example = attempts_lem 0 history
