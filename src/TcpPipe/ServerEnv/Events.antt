-- ===== src/TcpPipe/ServerEnv/Events.antt =====
-- A tcp_pipe_server_env among its events: calls, the accept, the timers and the futures.
use common.Base.{ℕ, ◌+◌, ◌^◌, ◌<◌, ◌≡◌, List, [], ◌∷◌, ◌++◌, Option, Bool, true, false, ◌||◌, ok}
use common.TcpPipe.ServerEnv.{
  CreateOperationData, Accept, Completion, ServerEnv, create, create_pipe, on_accept, on_timeout,
  on_completed, cancel_pending_server_endpoints,
}

-- `completing` are the operations whose futures have still to call `on_completed`, `issued` the
-- promises given out and `settled` the calls of `complete`.
pub record World : Type 0 where
  pub env : ServerEnv
  pub accepting : Bool
  pub completing : List ℕ
  pub issued : List ℕ
  pub settled : List Completion

abbrev pub ids : List Completion → List ℕ
ids [] = []
ids (c ∷ cs) = c.id ∷ ids cs

abbrev pub new_world : World
new_world = record { env = create; accepting = false; completing = []; issued = []; settled = [] }

abbrev pub accept_completion : Accept → CreateOperationData → Completion
accept_completion a d = record {
  id = d.id;
  promise = d.op.m_promise;
  result = (on_accept a d.op).0;
  endpoint = (on_accept a d.op).1;
}

-- What is left by a function that cancels operations.
abbrev pub after_cancel : World → ServerEnv × List Completion → World
after_cancel w r = record w {
  env = r.0;
  completing = w.completing ++ ids r.1;
  settled = w.settled ++ r.1;
}

pub data Step (w : World) (u : World) : Type 0 where
  creates :
      (client_id : ℕ) (timeout : Option ℕ) (promise : ℕ) (env : ServerEnv) (asked : Bool)
      → w.env.m_next_id + 1 < 2 ^ 64
      → create_pipe client_id timeout promise w.env ≡ ok (env, asked)
      → u ≡ record w {
        env = env;
        accepting = w.accepting || asked;
        issued = w.issued ++ promise ∷ [];
      }
      → Step w u
  accepts :
      (a : Accept) (d : CreateOperationData) (ds : List CreateOperationData)
      → w.accepting ≡ true
      → w.env.m_create_operations ≡ d ∷ ds
      → u ≡ record w {
        accepting = false;
        completing = w.completing ++ d.id ∷ [];
        settled = w.settled ++ accept_completion a d ∷ [];
      }
      → Step w u
  times_out : (id : ℕ) → u ≡ after_cancel w (on_timeout id w.env) → Step w u
  cancels :
      (client_id : Option ℕ)
      → u ≡ after_cancel w (cancel_pending_server_endpoints client_id w.env)
      → Step w u
  completes :
      (before : List ℕ) (id : ℕ) (later : List ℕ) (env : ServerEnv) (asked : Bool)
      → w.completing ≡ before ++ id ∷ later
      → on_completed id w.env ≡ ok (env, asked)
      → u ≡ record w { env = env; accepting = w.accepting || asked; completing = before ++ later }
      → Step w u

pub data Reach (w : World) : World → Type 0 where
  here : Reach w w
  next : {t u : World} → Reach w t → Step t u → Reach w u
