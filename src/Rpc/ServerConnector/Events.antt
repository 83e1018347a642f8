-- ===== src/Rpc/ServerConnector/Events.antt =====
-- A server_connector among its events: calls of `start` and `stop`, and its continuations, which
-- run in any order and end well or badly.
use common.Base.{ℕ, ◌≡◌, List, [], ◌∷◌, ◌++◌, Option, Bool, ◌==◌, if◌then◌else◌, ok}
use common.Rpc.ServerConnector.{
  Notification, Task, ServerConnector, Turn, create, start, stop_impl, run_task,
}

-- `stop` reads its run in a critical section of its own, so that it may be any run by then.
-- `issued` are the connections that were given an id, one by one.
pub record World : Type 0 where
  pub connector : ServerConnector
  pub tasks : List Task
  pub notified : List Notification
  pub issued : List ℕ
  pub completed : List ℕ

abbrev pub new_world : World
new_world = record { connector = create; tasks = []; notified = []; issued = []; completed = [] }

-- The id that a turn has given to a new connection, if it has.
abbrev pub given : ServerConnector → ServerConnector → List ℕ
given c c' =
    if c'.m_next_connection_id == c.m_next_connection_id then [] else c.m_next_connection_id ∷ []

abbrev pub after : World → List Task → Turn → World
after w left turn = record {
  connector = turn.connector;
  tasks = left ++ turn.tasks;
  notified = w.notified ++ turn.notified;
  issued = w.issued ++ given w.connector turn.connector;
  completed = w.completed ++ turn.completed;
}

pub data Step (w : World) (u : World) : Type 0 where
  starts : (turn : Turn) → start w.connector ≡ ok turn → u ≡ after w w.tasks turn → Step w u
  stops : (run : Option ℕ) → u ≡ after w w.tasks (stop_impl run w.connector) → Step w u
  runs :
      (before : List Task) (task : Task) (later : List Task) (good : Bool) (turn : Turn)
      → w.tasks ≡ before ++ task ∷ later
      → run_task good task w.connector ≡ ok turn
      → u ≡ after w (before ++ later) turn
      → Step w u

pub data Reach (w : World) : World → Type 0 where
  here : Reach w w
  next : {t u : World} → Reach w t → Step t u → Reach w u
