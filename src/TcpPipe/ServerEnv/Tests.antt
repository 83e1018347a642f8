-- ===== src/TcpPipe/ServerEnv/Tests.antt =====
-- tcp_pipe_server_env::impl at concrete inputs.
use common.Base.{ℕ, ◌+◌, ◌≡◌, refl, List, [], ◌∷◌, none, some, Bool, true, false, ok, arith}
use common.Results.{PipeWaitRes}
use common.Timer.Multiple
use common.TcpPipe.ServerEnv.{
  CreateOperationData, ServerEnv, accepted, create, create_pipe, start, on_accept, on_completed,
  cancel, cancel_pending_server_endpoints,
}
use common.TcpPipe.ServerEnv.Events.{World, new_world, creates, accepts, Reach, here, next}
use common.TcpPipe.ServerEnv.Balance.{Balanced}
use common.TcpPipe.ServerEnv.Cancel.{Cancels, cancel_pending_lem}
use common.TcpPipe.ServerEnv.History.{Reach-Balanced, on_completed_returns}

-- The operations of two calls of `create_pipe`, the first one started.
abbrev operation : ℕ → Bool → CreateOperationData
operation n started = record {
  id = n;
  client_id = n + 10;
  timer_id = none;
  op = record {
    m_was_started = started;
    m_was_canceled = false;
    m_canceled_by_timer = false;
    m_promise = n + 20;
  };
}

abbrev env_of : ℕ → List CreateOperationData → ServerEnv
env_of n ops = record { m_next_id = n; m_create_operations = ops; m_timer = Multiple.fresh }

-- A client has connected, and the first future has still to say so.
abbrev connected : World
connected = record {
  env = env_of 2 (operation 0 true ∷ operation 1 false ∷ []);
  accepting = false;
  completing = 0 ∷ [];
  issued = 20 ∷ 21 ∷ [];
  settled = record { id = 0; promise = 20; result = PipeWaitRes.success; endpoint = some 5 } ∷ [];
}

connected-Reach : Reach new_world connected
unfolding create create_pipe start on_accept
connected-Reach =
    next
      (next
        (next here
          (creates 10 none 20 (env_of 1 (operation 0 true ∷ [])) true (omega arith) refl refl))
        (creates 11 none 21 (env_of 2 (operation 0 true ∷ operation 1 false ∷ [])) false
          (omega arith) refl refl))
      (accepts (accepted 5) (operation 0 true) (operation 1 false ∷ []) refl refl refl)

Reach-Balanced_example :
    Balanced 21 1 2 false (operation 0 true ∷ operation 1 false ∷ []) (0 ∷ []) connected.settled
Reach-Balanced_example = Reach-Balanced 21 connected-Reach

on_completed_returns_example : (r : ServerEnv × Bool) × (on_completed 0 connected.env ≡ ok r)
on_completed_returns_example = on_completed_returns 0 connected-Reach

-- The next operation starts.
on_completed_next : on_completed 0 connected.env ≡ ok (env_of 2 (operation 1 true ∷ []), true)
unfolding on_completed start
on_completed_next = refl

cancel_pending_lem_example :
    Cancels
      (some 11)
      (operation 0 true)
      (operation 1 false ∷ [])
      connected.env.m_timer
      (cancel_pending_server_endpoints (some 11) connected.env)
cancel_pending_lem_example =
    cancel_pending_lem (some 11) (operation 0 true) (operation 1 false ∷ []) connected-Reach refl

cancels_one :
    (cancel_pending_server_endpoints (some 11) connected.env).1
    ≡ record { id = 1; promise = 21; result = PipeWaitRes.canceled; endpoint = none } ∷ []
unfolding cancel_pending_server_endpoints cancel
cancels_one = refl
