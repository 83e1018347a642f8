-- ===== src/MemoryPipe/MemPipeEnv/Balance.antt =====
-- The calls for an end of a pipe that mem_pipe_env has not answered.
use common.Base.{
  ℕ, ◌+◌, ◌%◌, ◌^◌, ◌<◌, ◌≤◌, ◌≡◌, refl, ap, List, [], ◌∷◌, ◌++◌, Option, Bool, true, false, ◌==◌,
  if◌then◌else◌, arith, inl, inr, Option-cases, ok, bind_ok, ok_injective, subst,
}
use common.Base.Assoc.{find, erase}
use common.Timer.Multiple.{MultipleTimer, Wait}
use common.Timer.Multiple
use common.MemoryPipe.MemPipeEnv.{
  MemPipeEnv, Promises, PromiseData, Side, server, client, Expiry, Settled, settle, EndpointFuture,
  ready, pending, opposite, promises, set_promises, enlist, match_up, cancel_loop, cancel_promises,
  cancel_pending_endpoints, remove_promise_by_timeout, start_timer, push_back,
}
use common.MemoryPipe.MemPipeEnv.Pairing.{on_timer}
use common.MemoryPipe.MemPipeEnv.Containers.{
  count, owed, Kept, Kept-later, push_back-Kept, tail-Kept, erase-Kept, owed-push_back, owed-erase,
  cancel_loop-Kept, owed-cancel_loop,
}

abbrev pub returned : ℕ → EndpointFuture → List ℕ
returned promise (ready endpoint) = promise ∷ []
returned promise (pending p) = []

abbrev pub settles : ℕ → List Settled → ℕ
settles p [] = 0
settles p (settle q r endpoint ∷ s) = (if q == p then 1 else 0) + settles p s

pub settles-append :
    (p : ℕ) (xs ys : List Settled) → settles p (xs ++ ys) ≡ settles p xs + settles p ys
settles-append p [] ys = omega arith
settles-append p (settle q r endpoint ∷ xs) ys = omega (arith, settles-append p xs ys)

settles-cancel_promises : (p : ℕ) (ps : List ℕ) → settles p (cancel_promises ps) ≡ count p ps
settles-cancel_promises p [] = refl
settles-cancel_promises p (q ∷ qs) = omega (arith, settles-cancel_promises p qs)

module _ (p : ℕ) where
  -- `n` calls, of which `m` have been answered.
  pub record Balanced (n m : ℕ) (e : MemPipeEnv) : Type 0 where
    pub server_side : Kept e.m_next_read_promise_id e.m_server_side_pipe_promises
    pub client_side : Kept e.m_next_read_promise_id e.m_client_side_pipe_promises
    pub account :
        n ≡ (owed p e.m_server_side_pipe_promises + owed p e.m_client_side_pipe_promises) + m

  side-Kept :
      (side : Side) {n m : ℕ} (e : MemPipeEnv)
      → Balanced n m e
      → Kept e.m_next_read_promise_id (promises side e)
  side-Kept server e b = b.server_side
  side-Kept client e b = b.client_side

  -- A container that is changed.
  set_promises-Balanced :
      (side : Side) (q : Promises) (fresh : ℕ) (t : MultipleTimer Expiry) (n n' m m' : ℕ)
      (e : MemPipeEnv)
      → e.m_next_read_promise_id ≤ fresh
      → Kept fresh q
      → n' + m + owed p (promises side e) ≡ n + m' + owed p q
      → Balanced n m e
      → Balanced n' m'
          (set_promises side q (record e { m_next_read_promise_id = fresh; m_timer = t }))
  set_promises-Balanced server q fresh t n n' m m' e le k h b = record {
    server_side = k;
    client_side = Kept-later e.m_client_side_pipe_promises le b.client_side;
    account = omega (arith, b.account);
  }
  set_promises-Balanced client q fresh t n n' m m' e le k h b = record {
    server_side = Kept-later e.m_server_side_pipe_promises le b.server_side;
    client_side = k;
    account = omega (arith, b.account);
  }

  pub recount :
      {n n' m m' : ℕ} (e : MemPipeEnv) → n ≡ n' → m ≡ m' → Balanced n m e → Balanced n' m' e
  recount e h k b = record {
    server_side = b.server_side;
    client_side = b.client_side;
    account = omega (arith, b.account, h, k);
  }

  abbrev pub one : ℕ → ℕ
  one promise = if promise == p then 1 else 0

  abbrev pub Asked : ℕ → ℕ → ℕ → MemPipeEnv × List Settled × EndpointFuture → Type 0
  Asked promise n m out =
      Balanced (one promise + n) (count p (returned promise out.2) + (settles p out.1 + m)) out.0

  enlist-Balanced :
      (client_id : ℕ) (side : Side) (timeout : Option ℕ) (promise n m : ℕ) (e : MemPipeEnv)
      (out : MemPipeEnv × List Settled × EndpointFuture)
      → e.m_next_read_promise_id + 1 < 2 ^ 64
      → enlist client_id side timeout promise e ≡ ok out
      → Balanced n m e
      → Asked promise n m out
  enlist-Balanced client_id side timeout promise n m e out hi h b =
      let id = e.m_next_read_promise_id in
      let ((timer_id, t), _, f) =
        bind_ok (start_timer timeout (record { side = side; id = id }) e.m_timer) _ h in
      let entry : PromiseData = record {
        client_id = client_id;
        timer_id = timer_id;
        promise = promise;
      } in
      let k = side-Kept side e b in
      let same : (id + 1) % 2 ^ 64 ≡ id + 1 = omega arith in
      subst (Asked promise n m) (ok_injective f) (
        rw same (
          set_promises-Balanced side (push_back id entry (promises side e)) (id + 1) t n
            (one promise + n) m (0 + (0 + m)) e (omega arith)
            (push_back-Kept id entry (promises side e) k)
            (omega (arith, owed-push_back p id entry (promises side e) k)) b))

  pub match_up-Balanced :
      (q : Promises) (client_id : ℕ) (side : Side) (timeout : Option ℕ) (promise buffers n m : ℕ)
      (e : MemPipeEnv) (out : MemPipeEnv × List Settled × EndpointFuture)
      → promises (opposite side) e ≡ q
      → e.m_next_read_promise_id + 1 < 2 ^ 64
      → match_up q client_id side timeout promise buffers e ≡ ok out
      → Balanced n m e
      → Asked promise n m out
  match_up-Balanced [] client_id side timeout promise buffers n m e out other hi h b =
      enlist-Balanced client_id side timeout promise n m e out hi h b
  match_up-Balanced ((id, d) ∷ q) client_id side timeout promise buffers n m e out other hi h b =
      let k = subst (Kept e.m_next_read_promise_id) other (side-Kept (opposite side) e b) in
      subst (Asked promise n m) (ok_injective h) (
        set_promises-Balanced (opposite side) q e.m_next_read_promise_id _ n (one promise + n) m
          ((one promise + 0) + ((one d.promise + 0) + m)) e (omega arith) (tail-Kept id d q k)
          (omega (arith, ap (owed p) other)) b)

  -- Calls that are answered without a new one.
  abbrev pub Answered : ℕ → ℕ → MemPipeEnv × List Settled → Type 0
  Answered n m r = Balanced n (settles p r.1 + m) r.0

  remove-Balanced :
      (side : Side) (id n m : ℕ) (e : MemPipeEnv)
      → Balanced n m e
      → Answered n m (remove_promise_by_timeout side id e)
  unfolding remove_promise_by_timeout
  remove-Balanced side id n m e b = elim (Option-cases (find id (promises side e))) [
    | inl h ↦ rw (h, remove_promise_by_timeout) (recount e refl (omega arith) b)
    | inr (d, h) ↦
        let k = side-Kept side e b in
        rw (h, remove_promise_by_timeout)
          (set_promises-Balanced side (erase id (promises side e)) e.m_next_read_promise_id
            e.m_timer n n m ((one d.promise + 0) + m) e (omega arith)
            (erase-Kept id (promises side e) k)
            (omega (arith, owed-erase p id d (promises side e) k h)) b)
  ]

  pub on_timer-Balanced :
      (id : ℕ) (ec : Bool) (x : Expiry) (n m : ℕ) (e : MemPipeEnv)
      → Balanced n m e
      → Answered n m (on_timer id ec x e)
  unfolding on_timer Multiple.on_wait
  on_timer-Balanced id true x n m e b = record {
    server_side = b.server_side;
    client_side = b.client_side;
    account = omega (arith, b.account);
  }
  on_timer-Balanced id false x n m e b =
      remove-Balanced x.side x.id n m
        (record e { m_timer = record e.m_timer { timers_map = erase id e.m_timer.timers_map } })
        (record { server_side = b.server_side; client_side = b.client_side; account = b.account })

  pub cancel-Balanced :
      (client_id : Option ℕ) (side : Side) (n m : ℕ) (e : MemPipeEnv)
      → Balanced n m e
      → Answered n m (cancel_pending_endpoints client_id side e)
  unfolding cancel_pending_endpoints
  cancel-Balanced client_id side n m e b =
      let q = promises side e in
      let taken = (cancel_loop client_id q e.m_timer).2 in
      set_promises-Balanced side (cancel_loop client_id q e.m_timer).0 e.m_next_read_promise_id
        (cancel_loop client_id q e.m_timer).1 n n m (settles p (cancel_promises taken) + m) e
        (omega arith) (cancel_loop-Kept client_id q e.m_timer (side-Kept side e b))
        (omega (arith, owed-cancel_loop p client_id q e.m_timer, settles-cancel_promises p taken)) b

  -- The ledgers grow at the front.
  pub returned-append :
      (promise : ℕ) (f : EndpointFuture) (xs : List ℕ)
      → count p (returned promise f ++ xs) ≡ count p (returned promise f) + count p xs
  returned-append promise (ready endpoint) xs = omega arith
  returned-append promise (pending q) xs = omega arith
