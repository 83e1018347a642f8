-- ===== src/MemoryPipe/MemPipeEnv/Ledger.antt =====
-- mem_pipe_env::impl among its events, with the promises that its calls are given.
use common.Base.{
  ℕ, ◌+◌, ◌^◌, ◌<◌, ◌≡◌, refl, sym, List, [], ◌∷◌, ◌++◌, Option, some, Bool, arith, inl, ok, subst,
}
use common.Base.Assoc.{find}
use common.Timer.Multiple.{Wait}
use common.MemoryPipe.MemPipeEnv.{
  MemPipeEnv, Promises, PromiseData, Side, server, client, Expiry, Settled, settle, EndpointFuture,
  ready, pending, opposite, promises, set_promises, enlist, match_up, create_new_pipe_end,
  cancel_loop, cancel_promises, cancel_pending_endpoints, remove_promise_by_timeout, start_timer,
  push_back,
}
use common.MemoryPipe.MemPipeEnv
use common.MemoryPipe.MemPipeEnv.Pairing.{
  on_timer, OneSided, match_up-OneSided, on_timer-OneSided, cancel-OneSided,
}
use common.MemoryPipe.MemPipeEnv.Containers.{count, owed}
use common.MemoryPipe.MemPipeEnv.Balance.{
  returned, settles, settles-append, returned-append, Balanced, recount, match_up-Balanced,
  on_timer-Balanced, cancel-Balanced,
}

-- `asked` are the promises that the calls were given, `at_once` those of them whose call returned
-- an endpoint at once, and `settled` what was settled.
pub record World : Type 0 where
  pub env : MemPipeEnv
  pub asked : List ℕ
  pub at_once : List ℕ
  pub settled : List Settled

abbrev pub new_world : World
new_world = record { env = MemPipeEnv.create; asked = []; at_once = []; settled = [] }

pub data Step (w : World) (u : World) : Type 0 where
  asks :
      (client_id : ℕ) (side : Side) (timeout : Option ℕ) (promise buffers : ℕ) (e : MemPipeEnv)
      (settled : List Settled) (future : EndpointFuture)
      → w.env.m_next_read_promise_id + 1 < 2 ^ 64
      → create_new_pipe_end client_id side timeout promise buffers w.env ≡ ok (e, settled, future)
      → u ≡ record {
        env = e;
        asked = promise ∷ w.asked;
        at_once = returned promise future ++ w.at_once;
        settled = settled ++ w.settled;
      }
      → Step w u
  cancels :
      (client_id : Option ℕ) (side : Side)
      → u ≡ record w {
        env = (cancel_pending_endpoints client_id side w.env).0;
        settled = (cancel_pending_endpoints client_id side w.env).1 ++ w.settled;
      }
      → Step w u
  waits :
      (id : ℕ) (ec : Bool) (wait : Wait Expiry)
      → find id w.env.m_timer.timers_map ≡ some wait
      → u ≡ record w {
        env = (on_timer id ec wait.callback w.env).0;
        settled = (on_timer id ec wait.callback w.env).1 ++ w.settled;
      }
      → Step w u

pub data Reach (w : World) : World → Type 0 where
  here : Reach w w
  next : {t u : World} → Reach w t → Step t u → Reach w u

-- No server end or no client end waits; and of a promise `p`, the calls that were given it are
-- those that returned at once, those that wait, in either container, and those that were settled.
pub record Joins (p : ℕ) (w : World) : Type 0 where
  pub one_sided : OneSided w.env
  pub account :
      count p w.asked
      ≡ count p w.at_once
        + (owed p w.env.m_server_side_pipe_promises + owed p w.env.m_client_side_pipe_promises)
        + settles p w.settled

module _ (p : ℕ) where
  abbrev Settles : World → Type 0
  Settles w = Balanced p (count p w.asked) (count p w.at_once + settles p w.settled) w.env

  Step-Settles : {w u : World} → Step w u → Settles w → Settles u
  unfolding create_new_pipe_end
  Step-Settles {w} (asks client_id side timeout promise buffers e settled future hi h f) b =
      subst Settles (sym f) (
        recount p e refl
          (omega
            (arith, returned-append p promise future w.at_once, settles-append p settled w.settled))
          (match_up-Balanced p (promises (opposite side) w.env) client_id side timeout promise
            buffers (count p w.asked) (count p w.at_once + settles p w.settled) w.env
            (e, settled, future) refl hi h b))
  Step-Settles {w} (cancels client_id side f) b =
      let r = cancel_pending_endpoints client_id side w.env in
      subst Settles (sym f) (
        recount p r.0 refl (omega (arith, settles-append p r.1 w.settled)) (
          cancel-Balanced p client_id side (count p w.asked)
            (count p w.at_once + settles p w.settled) w.env b))
  Step-Settles {w} (waits id ec wait h f) b =
      let r = on_timer id ec wait.callback w.env in
      subst Settles (sym f) (
        recount p r.0 refl (omega (arith, settles-append p r.1 w.settled)) (
          on_timer-Balanced p id ec wait.callback (count p w.asked)
            (count p w.at_once + settles p w.settled) w.env b))

  Reach-Settles : {w : World} → Reach new_world w → Settles w
  unfolding MemPipeEnv.create find
  Reach-Settles here = record {
    server_side = (tt, λ k l. refl);
    client_side = (tt, λ k l. refl);
    account = refl;
  }
  Reach-Settles (next r s) = Step-Settles s (Reach-Settles r)

Step-OneSided : {w u : World} → Step w u → OneSided w.env → OneSided u.env
unfolding create_new_pipe_end
Step-OneSided {w} (asks client_id side timeout promise buffers e settled future hi h f) o =
    subst (λ (u : World). OneSided u.env) (sym f)
      (match_up-OneSided (promises (opposite side) w.env) client_id side timeout promise buffers
        w.env (e, settled, future) refl h o)
Step-OneSided {w} (cancels client_id side f) o =
    subst (λ (u : World). OneSided u.env) (sym f) (cancel-OneSided client_id side w.env o)
Step-OneSided {w} (waits id ec wait h f) o =
    subst (λ (u : World). OneSided u.env) (sym f) (on_timer-OneSided id ec wait.callback w.env o)

Reach-OneSided : {w : World} → Reach new_world w → OneSided w.env
unfolding MemPipeEnv.create
Reach-OneSided here = inl refl
Reach-OneSided (next r s) = Step-OneSided s (Reach-OneSided r)

-- In every state that a mem_pipe_env can reach before its ids wrap, no server end waits or no
-- client end waits; and each call for an end has returned an endpoint at once, waits in one of the
-- two containers, or has had its promise settled, exactly one of these, as often as its promise
-- was given.
pub Reach-Joins : (p : ℕ) {w : World} → Reach new_world w → Joins p w
Reach-Joins p r = record {
  one_sided = Reach-OneSided r;
  account = let b = Reach-Settles p r in omega (arith, b.account);
}
