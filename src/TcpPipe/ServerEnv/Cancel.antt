-- ===== src/TcpPipe/ServerEnv/Cancel.antt =====
-- tcp_pipe_server_env::impl::cancel_pending_server_endpoints beside a description by filters.
use common.Base.{
  ℕ, suc, ◌≡◌, refl, sym, ap, ap₂, ◌∙◌, List, [], ◌∷◌, ◌++◌, append-nil, map, Option, none, Bool,
  true, false, not, ◌&&◌, if◌then◌else◌, Bool-cases, inl, inr, subst,
}
use mathlib.Core.List.{reverse, reverse-cons}
use common.Results.{PipeWaitRes}
use common.Timer.Multiple.{MultipleTimer}
use common.TcpPipe.ServerEnv.{
  CreateOperation, CreateOperationData, Completion, ServerEnv, cancel, cancel_timer, cancel_loop,
  cancel_operations, cancel_pending_server_endpoints, is_chosen,
}
use common.TcpPipe.ServerEnv.Events.{World, new_world, Reach}
use common.TcpPipe.ServerEnv.Removed.{Waiting, cancel_waiting}
use common.TcpPipe.ServerEnv.Balance.{InOrder, cancel_started}
use common.TcpPipe.ServerEnv.History.{Reach-Balanced}

abbrev pub filter : {A : Type 0} → (A → Bool) → List A → List A
filter p [] = []
filter p (x ∷ xs) = if p x then x ∷ filter p xs else filter p xs

-- The result `canceled` for an operation.
abbrev pub canceled_of : CreateOperationData → Completion
canceled_of d = record {
  id = d.id;
  promise = d.op.m_promise;
  result = PipeWaitRes.canceled;
  endpoint = none;
}

-- The timers, less those of the operations.
abbrev pub without_timers : List CreateOperationData → MultipleTimer ℕ → MultipleTimer ℕ
without_timers [] t = t
without_timers (d ∷ ds) t = cancel_timer d.timer_id (without_timers ds t)

-- An operation that the client has cancelled; a timer that has done so before stays the reason.
abbrev pub canceled_op : CreateOperation → CreateOperation
canceled_op op = record op {
  m_was_canceled = true;
  m_canceled_by_timer = op.m_was_canceled && op.m_canceled_by_timer;
}

cancel-canceled_op : (op : CreateOperation) → (cancel false op).0 ≡ canceled_op op
unfolding cancel
cancel-canceled_op op =
    by_test op.m_was_started op.m_was_canceled op.m_canceled_by_timer op.m_promise
  where
    by_test :
        (started canceled by_timer : Bool) (promise : ℕ)
        → let op : CreateOperation = record {
          m_was_started = started;
          m_was_canceled = canceled;
          m_canceled_by_timer = by_timer;
          m_promise = promise;
        } in
          (cancel false op).0 ≡ canceled_op op
    by_test started true by_timer promise = refl
    by_test started false by_timer promise = refl

cancel_loop_lem :
    (client_id : Option ℕ) (lo hi : ℕ) (ds : List CreateOperationData) (t : MultipleTimer ℕ)
    → Waiting lo hi ds
    → ((cancel_loop client_id ds t).0.0 ≡ filter (λ x. not (is_chosen client_id x)) ds)
      × ((cancel_loop client_id ds t).1
          ≡ reverse (map canceled_of (filter (is_chosen client_id) ds)))
      × ((cancel_loop client_id ds t).0.1 ≡ without_timers (filter (is_chosen client_id) ds) t)
cancel_loop_lem client_id lo hi [] t h = (refl, refl, refl)
cancel_loop_lem client_id lo hi (d ∷ ds) t h =
    let (kept, completed, timers) = cancel_loop_lem client_id (suc d.id) hi ds t h.3 in
    elim (Bool-cases (is_chosen client_id d)) [
      | inl chosen ↦
          rw (chosen, cancel_waiting false d h.1 h.2)
            (
              kept,
              ap (λ cs. cs ++ canceled_of d ∷ []) completed
                  ∙ sym (
                      reverse-cons (canceled_of d)
                        (map canceled_of (filter (is_chosen client_id) ds))),
              ap (cancel_timer d.timer_id) timers,
            )
      | inr other ↦ rw other (ap (λ xs. d ∷ xs) kept, completed, timers)
    ]

-- What `cancel_pending_server_endpoints` should leave and complete.
abbrev pub Cancels :
    Option ℕ
    → CreateOperationData
    → List CreateOperationData
    → MultipleTimer ℕ
    → ServerEnv × List Completion
    → Type 0
Cancels client_id d ds t r =
    (r.0.m_create_operations
      ≡ (if is_chosen client_id d then record d { op = canceled_op d.op } else d)
        ∷ filter (λ x. not (is_chosen client_id x)) ds)
    × (r.1 ≡ reverse (map canceled_of (filter (is_chosen client_id) ds)))
    × (r.0.m_timer ≡ without_timers (filter (is_chosen client_id) (d ∷ ds)) t)

-- In every state with operations that a tcp_pipe_server_env can reach before its ids wrap,
-- cancel_pending_server_endpoints leaves those behind the back that are not the client's, in
-- order, and the one at the back, marked as cancelled (by its timer only if that had cancelled it
-- before) if it is the client's and unchanged if not; it completes with the result canceled
-- exactly the others of the client, from the front to the back; and it cancels the timers of the
-- client's operations and no others.
pub cancel_pending_lem :
    (client_id : Option ℕ) (d : CreateOperationData) (ds : List CreateOperationData) {w : World}
    → Reach new_world w
    → w.env.m_create_operations ≡ d ∷ ds
    → Cancels client_id d ds w.env.m_timer (cancel_pending_server_endpoints client_id w.env)
unfolding cancel_pending_server_endpoints
cancel_pending_lem client_id d ds {w} r f =
    rw f (by_back (subst (InOrder w.accepting w.env.m_next_id) f (Reach-Balanced 0 r).in_order))
  where
    by_back :
        InOrder w.accepting w.env.m_next_id (d ∷ ds)
        → Cancels client_id d ds w.env.m_timer (
          record w.env {
            m_create_operations = (cancel_operations client_id (d ∷ ds) w.env.m_timer).0.0;
            m_timer = (cancel_operations client_id (d ∷ ds) w.env.m_timer).0.1;
          },
          (cancel_operations client_id (d ∷ ds) w.env.m_timer).1,
        )
    by_back h =
        let (kept, completed, timers) =
          cancel_loop_lem client_id (suc d.id) w.env.m_next_id ds w.env.m_timer h.1 in
        elim (Bool-cases (is_chosen client_id d)) [
          | inl chosen ↦
              rw
                (
                  chosen,
                  (cancel_started false d.op h.0).0,
                  append-nil (cancel_loop client_id ds w.env.m_timer).1,
                )
                (
                  ap₂ (λ op xs. record d { op = op } ∷ xs) (cancel-canceled_op d.op) kept,
                  completed,
                  ap (cancel_timer d.timer_id) timers,
                )
          | inr other ↦ rw other (ap (λ xs. d ∷ xs) kept, completed, timers)
        ]
