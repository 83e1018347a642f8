-- ===== src/TcpPipe/ServerEnv/History.antt =====
-- A tcp_pipe_server_env over a history of its events.
use common.Base.{
  ℕ, suc, ◌+◌, ◌<◌, ◌^◌, ◌≡◌, refl, sym, List, [], ◌∷◌, ◌++◌, Option, Bool, true, false, ◌||◌, ◌==◌,
  if◌then◌else◌, All, arith, subst, ok, bind_ok, ok_injective, ◌>>=◌,
}
use common.Timer.Multiple.{MultipleTimer}
use common.TcpPipe.ServerEnv.{
  CreateOperation, CreateOperationData, ServerEnv, cancel_timer, start_back, emplace_front,
  complete_back,
}
use common.TcpPipe.ServerEnv.Removed.{Waiting, owed}
use common.TcpPipe.ServerEnv.{
  create, create_pipe, on_timeout, on_completed, cancel_pending_server_endpoints, start_timer,
}
use common.TcpPipe.ServerEnv.Events.{
  World, new_world, accept_completion, Step, creates, accepts, times_out, cancels, completes, Reach,
  here, next,
}
use common.TcpPipe.ServerEnv.Balance.{
  InOrder, Completing, Balanced, time_out-Balanced, cancel_operations-Balanced, accept-Balanced,
}
use common.TcpPipe.ServerEnv.Calls.{emplace_front-Balanced, complete_back-Balanced, start_fresh}

abbrev pub count : ℕ → List ℕ → ℕ
count p [] = 0
count p (q ∷ qs) = (if q == p then 1 else 0) + count p qs

count-append : (p : ℕ) (xs ys : List ℕ) → count p (xs ++ ys) ≡ count p xs + count p ys
count-append p [] ys = omega arith
count-append p (x ∷ xs) ys = omega (arith, count-append p xs ys)

All-middle :
    (P : ℕ → Type 0) (xs : List ℕ) (y : ℕ) (ys : List ℕ)
    → All P (xs ++ y ∷ ys)
    → P y × All P (xs ++ ys)
All-middle P [] y ys h = h
All-middle P (x ∷ xs) y ys h = let (a, b) = All-middle P xs y ys h.1 in (a, (h.0, b))

module _ (p : ℕ) where
  abbrev Fair : World → Type 0
  Fair w =
      Balanced p (count p w.issued) w.env.m_next_id w.accepting w.env.m_create_operations
        w.completing w.settled

  create_pipe-Fair :
      (client_id : ℕ) (timeout : Option ℕ) (promise : ℕ) (w : World) (r : ServerEnv × Bool)
      → w.env.m_next_id + 1 < 2 ^ 64
      → create_pipe client_id timeout promise w.env ≡ ok r
      → Fair w
      → Fair (record w {
        env = r.0;
        accepting = w.accepting || r.1;
        issued = w.issued ++ promise ∷ [];
      })
  unfolding create_pipe
  create_pipe-Fair client_id timeout promise w r small h x =
      let ((timer_id, t), _, f) =
        bind_ok (start_timer timeout w.env.m_next_id w.env.m_timer) _ {b = r} h in
      let op : CreateOperation = record {
        m_was_started = false;
        m_was_canceled = false;
        m_canceled_by_timer = false;
        m_promise = promise;
      } in
      let d : CreateOperationData = record {
        id = w.env.m_next_id;
        client_id = client_id;
        timer_id = timer_id;
        op = op;
      } in
      let (ops, g, e) = bind_ok (emplace_front d w.env.m_create_operations) _ {b = r} f in
      let y =
        emplace_front-Balanced p (count p w.issued) w.env.m_next_id w.completing w.settled
          w.accepting d w.env.m_create_operations ops refl refl refl x g in
      subst
        (λ (r : ServerEnv × Bool). Fair (record w {
          env = r.0;
          accepting = w.accepting || r.1;
          issued = w.issued ++ promise ∷ [];
        }))
        (ok_injective e)
        (subst
          (λ k.
            Balanced p (count p (w.issued ++ promise ∷ [])) k (w.accepting || ops.1) ops.0
              w.completing w.settled)
          {x = w.env.m_next_id + 1} (omega arith)
          (subst
            (λ k.
              Balanced p k (w.env.m_next_id + 1) (w.accepting || ops.1) ops.0 w.completing
                w.settled)
            {x = count p w.issued + owed p (d ∷ [])}
            (omega (arith, count-append p w.issued (promise ∷ []))) y))

  on_completed-Fair :
      (before : List ℕ) (id : ℕ) (later : List ℕ) (w : World) (r : ServerEnv × Bool)
      → w.completing ≡ before ++ id ∷ later
      → on_completed id w.env ≡ ok r
      → Fair w
      → Fair (record w { env = r.0; accepting = w.accepting || r.1; completing = before ++ later })
  unfolding on_completed
  on_completed-Fair before id later w r e h x =
      let (((ops, asked), t), f, g) =
        bind_ok (complete_back id w.env.m_create_operations w.env.m_timer) _ {b = r} h in
      let (o, rest) =
        All-middle (Completing w.accepting w.env.m_next_id w.env.m_create_operations) before id
          later
          (subst (All (Completing w.accepting w.env.m_next_id w.env.m_create_operations)) e
            x.over) in
      subst
        (λ (r : ServerEnv × Bool).
          Fair
            (record w { env = r.0; accepting = w.accepting || r.1; completing = before ++ later }))
        (ok_injective g)
        (let y =
            complete_back-Balanced p (count p w.issued) w.env.m_next_id (before ++ later) w.settled
              id w.accepting w.env.m_create_operations w.env.m_timer ((ops, asked), t) o.1
              (record { in_order = x.in_order; over = rest; account = x.account }) f in
          record { in_order = y.in_order; over = y.over; account = y.account })

  Step-Fair : {w u : World} → Step w u → Fair w → Fair u
  unfolding on_timeout cancel_pending_server_endpoints
  Step-Fair {w} (creates client_id timeout promise env asked small h e) x =
      subst Fair (sym e) (create_pipe-Fair client_id timeout promise w (env, asked) small h x)
  Step-Fair {w} (accepts a d ds under_way f e) x = subst Fair (sym e) (
      subst
        (λ ops.
          Balanced p (count p w.issued) w.env.m_next_id false ops (w.completing ++ d.id ∷ [])
            (w.settled ++ accept_completion a d ∷ []))
        (sym f)
        (accept-Balanced p (count p w.issued) w.env.m_next_id w.accepting w.completing w.settled d
          ds (accept_completion a d) under_way refl
          (subst
            (λ ops.
              Balanced p (count p w.issued) w.env.m_next_id w.accepting ops w.completing w.settled)
            f x)))
  Step-Fair {w} (times_out id e) x = subst Fair (sym e) (
      time_out-Balanced p (count p w.issued) w.env.m_next_id w.accepting w.completing w.settled id
        w.env.m_create_operations x)
  Step-Fair {w} (cancels client_id e) x = subst Fair (sym e) (
      cancel_operations-Balanced p (count p w.issued) w.env.m_next_id w.accepting w.completing
        w.settled client_id w.env.m_create_operations w.env.m_timer x)
  Step-Fair {w} (completes before id later env asked f h e) x =
      subst Fair (sym e) (on_completed-Fair before id later w (env, asked) f h x)

  -- In every state that a tcp_pipe_server_env can reach before its ids wrap, only the operation
  -- at the back was started, and those behind it have ids that grow and were neither started nor
  -- cancelled; an operation whose future has still to call on_completed has left the list, or is
  -- at the back with its accept over; and each promise that create_pipe gave out has been
  -- settled, or is owed by an operation behind the back or by the one at the back while its
  -- accept is under way, as often as it was given out.
  pub Reach-Balanced :
      {w : World}
      → Reach new_world w
      → Balanced p
          (count p w.issued)
          w.env.m_next_id
          w.accepting
          w.env.m_create_operations
          w.completing
          w.settled
  unfolding create
  Reach-Balanced here = record { in_order = refl; over = tt; account = refl }
  Reach-Balanced (next r step) = Step-Fair step (Reach-Balanced r)

-- In every state that a tcp_pipe_server_env can reach before its ids wrap, no assertion fails in
-- on_completed: the next operation can be started.
pub on_completed_returns :
    (id : ℕ) {w : World}
    → Reach new_world w
    → (r : ServerEnv × Bool) × (on_completed id w.env ≡ ok r)
unfolding on_completed
on_completed_returns id {w} r =
    let (t, e) = by_ops w.env.m_create_operations (Reach-Balanced 0 r).in_order in rw e (_, refl)
  where
    starts :
        (lo : ℕ) (ds : List CreateOperationData)
        → Waiting lo w.env.m_next_id ds
        → (t : List CreateOperationData × Bool) × (start_back ds ≡ ok t)
    starts lo [] h = (_, refl)
    starts lo (d ∷ ds) h = rw (start_fresh d.op h.1 h.2) (_, refl)

    by_test :
        (b : Bool) (d : CreateOperationData) (ds : List CreateOperationData)
        → Waiting (suc d.id) w.env.m_next_id ds
        → (t : (List CreateOperationData × Bool) × MultipleTimer ℕ) × ((elim b [
          | false ↦ ok ((d ∷ ds, false), w.env.m_timer)
          | true ↦ start_back ds >>= λ started. ok (started, cancel_timer d.timer_id w.env.m_timer)
        ])
            ≡ ok t)
    by_test false d ds h = (_, refl)
    by_test true d ds h = let (t, e) = starts (suc d.id) ds h in rw e (_, refl)

    by_ops :
        (ops : List CreateOperationData)
        → InOrder w.accepting w.env.m_next_id ops
        → (t : (List CreateOperationData × Bool) × MultipleTimer ℕ) × (complete_back id ops
              w.env.m_timer
            ≡ ok t)
    by_ops [] h = (_, refl)
    by_ops (d ∷ ds) h = by_test (d.id == id) d ds h.1
