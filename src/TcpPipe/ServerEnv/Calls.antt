-- ===== src/TcpPipe/ServerEnv/Calls.antt =====
-- The calls of a tcp_pipe_server_env that start operations.
use common.Base.{
  ℕ, suc, ◌+◌, ◌≡◌, refl, sym, ap, ◌∙◌, List, [], ◌∷◌, ◌++◌, Bool, true, false, ◌||◌, ◌==◌, All,
  arith, subst, ok, bind_ok, ok_injective, ◌>>=◌,
}
use common.Timer.Multiple.{MultipleTimer}
use common.TcpPipe.ServerEnv.{
  CreateOperation, CreateOperationData, Completion, start, cancel_timer, start_back, emplace_front,
  complete_back,
}
use common.TcpPipe.ServerEnv.Removed.{Waiting, NotIn, owed, settles, All-map}
use common.TcpPipe.ServerEnv.Balance.{Over, Completing, Balanced}

Waiting-append :
    (lo hi : ℕ) (ds : List CreateOperationData) (d : CreateOperationData)
    → d.id ≡ hi
    → d.op.m_was_started ≡ false
    → d.op.m_was_canceled ≡ false
    → Waiting lo hi ds
    → Waiting lo (hi + 1) (ds ++ d ∷ [])
Waiting-append lo hi [] d e s c h = (omega (arith, h, e), s, c, omega (arith, e))
Waiting-append lo hi (x ∷ ds) d e s c h =
    (h.0, h.1, h.2, Waiting-append (suc x.id) hi ds d e s c h.3)

NotIn-append :
    (c : ℕ) (ds : List CreateOperationData) (d : CreateOperationData)
    → (d.id == c) ≡ false
    → NotIn c ds
    → NotIn c (ds ++ d ∷ [])
NotIn-append c [] d e h = (e, tt)
NotIn-append c (x ∷ ds) d e h = (h.0, NotIn-append c ds d e h.1)

owed-append : (p : ℕ) (xs ys : List CreateOperationData) → owed p (xs ++ ys) ≡ owed p xs + owed p ys
owed-append p [] ys = omega arith
owed-append p (x ∷ xs) ys = omega (arith, owed-append p xs ys)

or_false : (b : Bool) → (b || false) ≡ b
or_false true = refl
or_false false = refl

pub start_fresh :
    (op : CreateOperation)
    → op.m_was_started ≡ false
    → op.m_was_canceled ≡ false
    → start op ≡ ok (record op { m_was_started = true })
unfolding start
start_fresh op s c = simp (s, c) refl

module _ (p n hi : ℕ) (completing : List ℕ) (settled : List Completion) where
  -- A new operation, under the next id.
  pub emplace_front-Balanced :
      (accepting : Bool) (d : CreateOperationData) (ops : List CreateOperationData)
      (r : List CreateOperationData × Bool)
      → d.id ≡ hi
      → d.op.m_was_started ≡ false
      → d.op.m_was_canceled ≡ false
      → Balanced p n hi accepting ops completing settled
      → emplace_front d ops ≡ ok r
      → Balanced p (n + owed p (d ∷ [])) (hi + 1) (accepting || r.1) r.0 completing settled
  emplace_front-Balanced accepting d [] r e s c x h =
      let (op, f, g) =
        bind_ok (start d.op) (λ op. ok (record d { op = op } ∷ [], true)) {b = r} h in
      let f' : record d.op { m_was_started = true } ≡ op =
        ok_injective (sym (start_fresh d.op s c) ∙ f) in
      subst
        (λ (r : List CreateOperationData × Bool).
          Balanced p (n + owed p (d ∷ [])) (hi + 1) (accepting || r.1) r.0 completing settled)
        (ap (λ (o : CreateOperation). (record d { op = o } ∷ [], true)) f' ∙ ok_injective g)
        (rw x.in_order (record {
          in_order = (refl, omega (arith, e));
          over =
              All-map (Completing accepting hi [])
                (Completing true (hi + 1)
                  (record d { op = record d.op { m_was_started = true } } ∷ []))
                completing
                (λ c k. (omega (arith, k.0), ((λ q. absurd (ground (arith, e, k.0, q))), tt)))
                x.over;
          account = omega (arith, x.account);
        }))
  emplace_front-Balanced accepting d (y ∷ ys) r e s c x h =
      subst
        (λ (r : List CreateOperationData × Bool).
          Balanced p (n + owed p (d ∷ [])) (hi + 1) (accepting || r.1) r.0 completing settled)
        (ok_injective h)
        (record {
          in_order = (x.in_order.0, Waiting-append (suc y.id) hi ys d e s c x.in_order.1);
          over =
              All-map (Completing accepting hi (y ∷ ys))
                (Completing (accepting || false) (hi + 1) (y ∷ (ys ++ d ∷ []))) completing
                (λ c k. (
                  omega (arith, k.0),
                  (
                    (λ q. ap (λ b. b || false) (k.1.0 q)),
                    NotIn-append c ys d (ground (arith, e, k.0)) k.1.1,
                  ),
                ))
                x.over;
          account = ground (arith, x.account, owed-append p ys (d ∷ []));
        })

  -- The operation `id` is over: the next one starts if it was at the back.
  pub complete_back-Balanced :
      (id : ℕ) (accepting : Bool) (ops : List CreateOperationData) (t : MultipleTimer ℕ)
      (r : (List CreateOperationData × Bool) × MultipleTimer ℕ)
      → Over accepting ops id
      → Balanced p n hi accepting ops completing settled
      → complete_back id ops t ≡ ok r
      → Balanced p n hi (accepting || r.0.1) r.0.0 completing settled
  complete_back-Balanced id accepting [] t r o x h =
      subst
        (λ (r : (List CreateOperationData × Bool) × MultipleTimer ℕ).
          Balanced p n hi (accepting || r.0.1) r.0.0 completing settled)
        (ok_injective h) (rw (or_false accepting) x)
  complete_back-Balanced id accepting (d ∷ ds) t r o x h = by_test (d.id == id) o.0 h
    where
      next_back :
          (ds : List CreateOperationData) (r : List CreateOperationData × Bool)
          → accepting ≡ false
          → Waiting (suc d.id) hi ds
          → All (Completing accepting hi (d ∷ ds)) completing
          → n ≡ settles p settled + owed p ds
          → start_back ds ≡ ok r
          → Balanced p n hi (accepting || r.1) r.0 completing settled
      next_back [] r idle w v a h =
          subst
            (λ (r : List CreateOperationData × Bool).
              Balanced p n hi (accepting || r.1) r.0 completing settled)
            (ok_injective h)
            (record {
              in_order = or_false accepting ∙ idle;
              over =
                  All-map (Completing accepting hi (d ∷ [])) (Completing (accepting || false) hi [])
                    completing (λ c k. (k.0, tt)) v;
              account = a;
            })
      next_back (y ∷ ys) r idle w v a h =
          let (op, f, g) =
            bind_ok (start y.op) (λ op. ok (record y { op = op } ∷ ys, true)) {b = r} h in
          let f' : record y.op { m_was_started = true } ≡ op =
            ok_injective (sym (start_fresh y.op w.1 w.2) ∙ f) in
          subst
            (λ (r : List CreateOperationData × Bool).
              Balanced p n hi (accepting || r.1) r.0 completing settled)
            (ap (λ (o : CreateOperation). (record y { op = o } ∷ ys, true)) f' ∙ ok_injective g)
            (rw idle (record {
              in_order = (refl, w.3);
              over =
                  All-map (Completing accepting hi (d ∷ y ∷ ys))
                    (Completing true hi
                      (record y { op = record y.op { m_was_started = true } } ∷ ys))
                    completing (λ c k. (k.0, ((λ q. absurd (ground (arith, q, k.1.1.0))), k.1.1.1)))
                    v;
              account = omega (arith, a);
            }))

      by_test :
          (b : Bool)
          → (b ≡ true → accepting ≡ false)
          → (elim b [
            | false ↦ ok ((d ∷ ds, false), t)
            | true ↦ start_back ds >>= λ started. ok (started, cancel_timer d.timer_id t)
          ])
            ≡ ok r
          → Balanced p n hi (accepting || r.0.1) r.0.0 completing settled
      by_test false idle h =
          subst
            (λ (r : (List CreateOperationData × Bool) × MultipleTimer ℕ).
              Balanced p n hi (accepting || r.0.1) r.0.0 completing settled)
            (ok_injective h) (rw (or_false accepting) x)
      by_test true idle h =
          let (started, f, g) =
            bind_ok (start_back ds) (λ started. ok (started, cancel_timer d.timer_id t)) {b = r}
              h in
          subst
            (λ (r : (List CreateOperationData × Bool) × MultipleTimer ℕ).
              Balanced p n hi (accepting || r.0.1) r.0.0 completing settled)
            (ok_injective g)
            (next_back ds started (idle refl) x.in_order.1 x.over
              (ground (arith, x.account, idle refl)) f)
