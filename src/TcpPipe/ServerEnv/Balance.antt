-- ===== src/TcpPipe/ServerEnv/Balance.antt =====
-- The promises of a tcp_pipe_server_env, and its operation in progress.
use common.Base.{
  ℕ, suc, ◌+◌, ◌<◌, ◌≡◌, refl, sym, ap, ◌∙◌, List, [], ◌∷◌, ◌++◌, append-nil, Option, none, Bool,
  true, false, ◌==◌, if◌then◌else◌, All, arith, Bool-cases, inl, inr, subst,
}
use common.Timer.Multiple.{MultipleTimer}
use common.TcpPipe.ServerEnv.{
  CreateOperation, CreateOperationData, Completion, cancel, time_out, cancel_loop,
  cancel_operations, is_chosen,
}
use common.TcpPipe.ServerEnv.Events.{ids}
use common.TcpPipe.ServerEnv.Removed.{
  Waiting, NotIn, owed, settles, settles-append, All-append, All-map, Waiting-le, Waiting-NotIn,
  Gone, Removed, time_out_later-Removed, cancel_loop-Removed,
}

-- Only the operation at the back is started; the accept that is under way is its own.
abbrev pub InOrder : Bool → ℕ → List CreateOperationData → Type 0
InOrder accepting hi [] = accepting ≡ false
InOrder accepting hi (d ∷ ds) = (d.op.m_was_started ≡ true) × Waiting (suc d.id) hi ds

-- An operation whose future has still to call `on_completed`: it was taken out, or it is at the
-- back and its accept is over.
abbrev pub Over : Bool → List CreateOperationData → ℕ → Type 0
Over accepting [] c = Unit {0}
Over accepting (d ∷ ds) c = ((d.id == c) ≡ true → accepting ≡ false) × NotIn c ds

-- The promise of the operation at the back is owed until its accept is over.
abbrev pub owes : ℕ → Bool → List CreateOperationData → ℕ
owes p accepting [] = 0
owes p accepting (d ∷ ds) = (if accepting then owed p (d ∷ []) else 0) + owed p ds

abbrev pub Completing : Bool → ℕ → List CreateOperationData → ℕ → Type 0
Completing accepting hi ops c = (c < hi) × Over accepting ops c

-- `n` is how often the promise was given out.
pub record Balanced (p n hi : ℕ) (accepting : Bool) (ops : List CreateOperationData)
    (completing : List ℕ) (settled : List Completion) : Type 0 where
  pub in_order : InOrder accepting hi ops
  pub over : All (Completing accepting hi ops) completing
  pub account : n ≡ settles p settled + owes p accepting ops

-- A cancellation of an operation that was started completes nothing.
pub cancel_started :
    (by_timer : Bool) (op : CreateOperation)
    → op.m_was_started ≡ true
    → ((cancel by_timer op).1 ≡ none)
      × ((cancel by_timer op).0.m_was_started ≡ true)
      × ((cancel by_timer op).0.m_promise ≡ op.m_promise)
unfolding cancel
cancel_started by_timer op s = elim (Bool-cases op.m_was_canceled) [
  | inl old ↦ simp (old) (refl, s, refl)
  | inr new ↦ simp (new, s) (refl, refl, refl)
]

module _ (p n hi : ℕ) (accepting : Bool) (completing : List ℕ) (settled : List Completion) where
  -- Operations behind the one at the back are taken out.
  Removed-Balanced :
      (d d' : CreateOperationData) (ds ds' : List CreateOperationData) (cs : List Completion)
      → d'.id ≡ d.id
      → d'.op.m_was_started ≡ true
      → d'.op.m_promise ≡ d.op.m_promise
      → Removed p (suc d.id) hi ds ds' cs
      → Balanced p n hi accepting (d ∷ ds) completing settled
      → Balanced p n hi accepting (d' ∷ ds') (completing ++ ids cs) (settled ++ cs)
  Removed-Balanced d d' ds ds' cs same started promise r x = record {
    in_order = (started, subst (λ i. Waiting (suc i) hi ds') (sym same) r.still);
    over =
        All-append (Completing accepting hi (d' ∷ ds')) completing (ids cs)
          (All-map (Completing accepting hi (d ∷ ds)) (Completing accepting hi (d' ∷ ds'))
            completing
            (λ c k. (k.0, ((λ h. k.1.0 (ap (λ i. i == c) (sym same) ∙ h)), r.fewer c k.1.1)))
            x.over)
          (All-map (Gone (suc d.id) hi ds') (Completing accepting hi (d' ∷ ds')) (ids cs)
            (λ c k. (k.1, ((λ h. absurd (ground (arith, same, h, k.0))), k.2))) r.gone);
    account = x.account ∙ ground (arith, r.paid, settles-append p settled cs, promise);
  }

  pub time_out-Balanced :
      (id : ℕ) (ops : List CreateOperationData)
      → Balanced p n hi accepting ops completing settled
      → Balanced p n hi accepting
          (time_out id ops).0
          (completing ++ ids (time_out id ops).1)
          (settled ++ (time_out id ops).1)
  time_out-Balanced id [] x = rw (append-nil completing, append-nil settled) x
  time_out-Balanced id (d ∷ ds) x =
      let (quiet, started, promise) = cancel_started true d.op x.in_order.0 in
      elim (Bool-cases (d.id == id)) [
        | inl same ↦
            rw (same, quiet)
              (Removed-Balanced d (record d { op = (cancel true d.op).0 }) ds ds [] refl started
                promise
                (record { still = x.in_order.1; paid = omega arith; gone = tt; fewer = λ c k. k })
                x)
        | inr other ↦ rw other (
            Removed-Balanced d d ds _ _ refl x.in_order.0 refl
              (time_out_later-Removed p id (suc d.id) hi ds x.in_order.1) x)
      ]

  pub cancel_operations-Balanced :
      (client_id : Option ℕ) (ops : List CreateOperationData) (t : MultipleTimer ℕ)
      → Balanced p n hi accepting ops completing settled
      → Balanced p n hi accepting
          (cancel_operations client_id ops t).0.0
          (completing ++ ids (cancel_operations client_id ops t).1)
          (settled ++ (cancel_operations client_id ops t).1)
  cancel_operations-Balanced client_id [] t x = rw (append-nil completing, append-nil settled) x
  cancel_operations-Balanced client_id (d ∷ ds) t x =
      let (quiet, started, promise) = cancel_started false d.op x.in_order.0 in
      let r = cancel_loop-Removed p client_id (suc d.id) hi ds t x.in_order.1 in
      elim (Bool-cases (is_chosen client_id d)) [
        | inl chosen ↦
            rw (chosen, quiet, append-nil (cancel_loop client_id ds t).1)
              (Removed-Balanced d (record d { op = (cancel false d.op).0 }) ds _ _ refl started
                promise r x)
        | inr other ↦ rw other (Removed-Balanced d d ds _ _ refl x.in_order.0 refl r x)
      ]

  -- The accept is over.
  pub accept-Balanced :
      (d : CreateOperationData) (ds : List CreateOperationData) (c : Completion)
      → accepting ≡ true
      → c.promise ≡ d.op.m_promise
      → Balanced p n hi accepting (d ∷ ds) completing settled
      → Balanced p n hi false (d ∷ ds) (completing ++ d.id ∷ []) (settled ++ c ∷ [])
  accept-Balanced d ds c under_way same x = record {
    in_order = x.in_order;
    over =
        All-append (Completing false hi (d ∷ ds)) completing (d.id ∷ [])
          (All-map (Completing accepting hi (d ∷ ds)) (Completing false hi (d ∷ ds)) completing
            (λ c k. (k.0, ((λ h. refl), k.1.1))) x.over)
          (
            (
              Waiting-le (suc d.id) hi ds x.in_order.1,
              ((λ h. refl), Waiting-NotIn d.id (suc d.id) hi ds (omega arith) x.in_order.1),
            ),
            tt,
          );
    account = ground (arith, x.account, under_way, same, settles-append p settled (c ∷ []));
  }
