-- ===== src/Rpc/ServerConnector.antt =====
-- server_connector::impl (internal/connector/server-connector.cpp). A `shared_ptr<bool>` is a place
-- of a heap of flags, since the runs share them with their continuations. A function is one critical
-- section or one continuation, with what it asks of others.
pub mod Events
pub mod Brackets
pub mod Attempts
mod Tests
use common.Base.{
  ℕ, ◌+◌, ◌%◌, ◌^◌, List, [], ◌∷◌, ◌++◌, Option, none, some, Bool, true, false, not, ◌&&◌, ◌||◌,
  ◌==◌, if◌then◌else◌, length, Outcome, ok, throws, logic_error, ◌>>=◌,
}

pub data Notification : Type 0 where
  started stopped : Notification
  new_connection : ℕ → Notification

-- A continuation that waits for the pipe, for the request of the handshake or for the end of the
-- response, with the id of its connection and its run.
pub data Task : Type 0 where
  connect_pipe read_request write_response : ℕ → Option ℕ → Task

pub record ServerConnector : Type 0 where
  pub m_next_connection_id : ℕ
  pub m_is_running_sp : Option ℕ
  pub flags : ℕ → Bool
  pub allocated : ℕ
  pub m_connection_future_map : List ℕ

-- What a function leaves, the notifications that it posts to the strand, the continuations that
-- it hangs on futures, and the promises of connections that it sets.
pub record Turn : Type 0 where
  pub connector : ServerConnector
  pub notified : List Notification
  pub tasks : List Task
  pub completed : List ℕ

abbrev pub quiet : ServerConnector → Turn
quiet c = record { connector = c; notified = []; tasks = []; completed = [] }

unfoldable pub create : ServerConnector
create = record {
  m_next_connection_id = 0;
  m_is_running_sp = none;
  flags = λ r. false;
  allocated = 0;
  m_connection_future_map = [];
}

-- `is_running_sp && *is_running_sp`
abbrev pub is_running : Option ℕ → ServerConnector → Bool
is_running none c = false
is_running (some r) c = c.flags r

unfoldable pub is_active : ServerConnector → Bool
is_active c = is_running c.m_is_running_sp c

unfoldable pub get_pending_connections_count : ServerConnector → ℕ
get_pending_connections_count c = length c.m_connection_future_map

abbrev pub set_flag : ℕ → Bool → (ℕ → Bool) → ℕ → Bool
set_flag r b flags x = if x == r then b else flags x

-- The keys of a map behind `map[key] = ...` and behind `erase`.
abbrev pub without : ℕ → List ℕ → List ℕ
without id [] = []
without id (x ∷ xs) = let rest = without id xs in if x == id then rest else x ∷ rest

abbrev pub with_key : ℕ → List ℕ → List ℕ
with_key id map = id ∷ without id map

-- `start_pipe_connect` behind its tests.
abbrev pub connect : Option ℕ → ServerConnector → Turn
connect run c = record {
  connector = record c {
    m_next_connection_id = (c.m_next_connection_id + 1) % 2 ^ 64;
    m_connection_future_map = with_key c.m_next_connection_id c.m_connection_future_map;
  };
  notified = [];
  tasks = connect_pipe c.m_next_connection_id run ∷ [];
  completed = [];
}

unfoldable pub start_pipe_connect : Bool → Option ℕ → ServerConnector → Outcome Turn
start_pipe_connect first_time run c = elim first_time [
  | true ↦ elim (is_running c.m_is_running_sp c) [
    | true ↦ throws logic_error
    | false ↦
        ok (record (connect run (record c { m_is_running_sp = run })) { notified = started ∷ [] })
  ]
  | false ↦ if is_running run c then ok (connect run c) else ok (quiet c)
]

-- `start` makes a new flag.
unfoldable pub start : ServerConnector → Outcome Turn
unfolding start_pipe_connect
start c =
    start_pipe_connect true (some c.allocated)
      (record c { flags = set_flag c.allocated true c.flags; allocated = c.allocated + 1 })

abbrev pub stop_run : ℕ → ServerConnector → Turn
stop_run r c = record {
  connector = record c {
    flags = set_flag r false c.flags;
    m_is_running_sp = none;
    m_connection_future_map = [];
  };
  notified = stopped ∷ [];
  tasks = [];
  completed = [];
}

unfoldable pub stop_impl : Option ℕ → ServerConnector → Turn
stop_impl none c = quiet c
stop_impl (some r) c = if c.flags r then stop_run r c else quiet c

unfoldable pub stop : ServerConnector → Turn
unfolding stop_impl
stop c = stop_impl c.m_is_running_sp c

unfoldable pub notify_on_new_connection : ℕ → Option ℕ → ServerConnector → List Notification
notify_on_new_connection id run c = if is_running run c then new_connection id ∷ [] else []

unfoldable pub erase_connection_future_from_map : ℕ → ServerConnector → ServerConnector
erase_connection_future_from_map id c = record c {
  m_connection_future_map = without id c.m_connection_future_map;
}

-- The pipe is connected, or has failed.
unfoldable pub on_pipe : Bool → ℕ → Option ℕ → ServerConnector → Outcome Turn
on_pipe connected id run c = elim connected [
  | true ↦ (do
    turn ← start_pipe_connect false run c
    ok (record turn { tasks = turn.tasks ++ read_request id run ∷ [] }))
  | false ↦ (let turn = stop_impl run c in ok (record turn { completed = id ∷ [] }))
]

-- The end of `establish_connection`: its `finally`, and the promise.
abbrev pub ends : ℕ → ServerConnector → Turn
ends id c = record {
  connector = erase_connection_future_from_map id c;
  notified = [];
  tasks = [];
  completed = id ∷ [];
}

-- The request has come and is accepted, or not.
unfoldable pub on_request : Bool → ℕ → Option ℕ → ServerConnector → Turn
on_request accepted id run c =
    if accepted then record (quiet c) { tasks = write_response id run ∷ [] } else ends id c

-- The response is written, or has failed.
unfoldable pub on_response : Bool → ℕ → Option ℕ → ServerConnector → Turn
on_response sent id run c =
    if sent then record (ends id c) { notified = notify_on_new_connection id run c } else ends id c

unfoldable pub run_task : Bool → Task → ServerConnector → Outcome Turn
run_task good (connect_pipe id run) c = on_pipe good id run c
run_task good (read_request id run) c = ok (on_request good id run c)
run_task good (write_response id run) c = ok (on_response good id run c)
