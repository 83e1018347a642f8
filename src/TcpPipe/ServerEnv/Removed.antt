-- ===== src/TcpPipe/ServerEnv/Removed.antt =====
-- The operations of a tcp_pipe_server_env that wait, and how a cancellation takes some out.
use common.Base.{
  ℕ, suc, ◌+◌, ◌<◌, ◌≤◌, ◌≡◌, refl, sym, ap, List, [], ◌∷◌, ◌++◌, Option, none, Bool, true, false,
  ◌==◌, if◌then◌else◌, All, arith, Bool-cases, inl, inr, subst,
}
use common.Timer.Multiple.{MultipleTimer}
use common.TcpPipe.ServerEnv.{
  CreateOperationData, Completion, cancel, cancel_result, completion, time_out_later, cancel_loop,
  is_chosen,
}
use common.TcpPipe.ServerEnv.Events.{ids}

-- Operations that have not been started, with ids that grow from `lo` on and stay below `hi`.
abbrev pub Waiting : ℕ → ℕ → List CreateOperationData → Type 0
Waiting lo hi [] = lo ≤ hi
Waiting lo hi (d ∷ ds) =
    (lo ≤ d.id)
    × (d.op.m_was_started ≡ false)
    × (d.op.m_was_canceled ≡ false)
    × Waiting (suc d.id) hi ds

abbrev pub NotIn : ℕ → List CreateOperationData → Type 0
NotIn c ds = All (λ (x : CreateOperationData). (x.id == c) ≡ false) ds

-- How often a promise is still owed, and how often it was settled.
abbrev pub owed : ℕ → List CreateOperationData → ℕ
owed p [] = 0
owed p (d ∷ ds) = (if d.op.m_promise == p then 1 else 0) + owed p ds

abbrev pub settles : ℕ → List Completion → ℕ
settles p [] = 0
settles p (c ∷ cs) = (if c.promise == p then 1 else 0) + settles p cs

pub settles-append :
    (p : ℕ) (xs ys : List Completion) → settles p (xs ++ ys) ≡ settles p xs + settles p ys
settles-append p [] ys = omega arith
settles-append p (x ∷ xs) ys = omega (arith, settles-append p xs ys)

ids-append : (xs ys : List Completion) → ids (xs ++ ys) ≡ ids xs ++ ids ys
ids-append [] ys = refl
ids-append (x ∷ xs) ys = ap (λ t. x.id ∷ t) (ids-append xs ys)

pub All-append : (P : ℕ → Type 0) (xs ys : List ℕ) → All P xs → All P ys → All P (xs ++ ys)
All-append P [] ys h k = k
All-append P (x ∷ xs) ys h k = (h.0, All-append P xs ys h.1 k)

pub All-map : (P Q : ℕ → Type 0) (xs : List ℕ) → ((c : ℕ) → P c → Q c) → All P xs → All Q xs
All-map P Q [] f h = tt
All-map P Q (x ∷ xs) f h = (f x h.0, All-map P Q xs f h.1)

pub Waiting-le : (lo hi : ℕ) (ds : List CreateOperationData) → Waiting lo hi ds → lo ≤ hi
Waiting-le lo hi [] h = h
Waiting-le lo hi (d ∷ ds) h = omega (arith, Waiting-le (suc d.id) hi ds h.3)

pub Waiting-weaken :
    (lo lo' hi : ℕ) (ds : List CreateOperationData)
    → lo' ≤ lo
    → Waiting lo hi ds
    → Waiting lo' hi ds
Waiting-weaken lo lo' hi [] e h = omega arith
Waiting-weaken lo lo' hi (d ∷ ds) e h = (omega arith, h.1, h.2, h.3)

pub Waiting-NotIn :
    (c lo hi : ℕ) (ds : List CreateOperationData) → c < lo → Waiting lo hi ds → NotIn c ds
Waiting-NotIn c lo hi [] e h = tt
Waiting-NotIn c lo hi (d ∷ ds) e h =
    (ground (arith, h.0), Waiting-NotIn c (suc d.id) hi ds (omega arith) h.3)

-- An id of an operation that was taken out.
abbrev pub Gone : ℕ → ℕ → List CreateOperationData → ℕ → Type 0
Gone lo hi ds c = (lo ≤ c) × (c < hi) × NotIn c ds

-- From `ds` to `ds'`, with the calls of `complete` that are made.
pub record Removed (p lo hi : ℕ) (ds ds' : List CreateOperationData) (cs : List Completion)
    : Type 0 where
  pub still : Waiting lo hi ds'
  pub paid : settles p cs + owed p ds' ≡ owed p ds
  pub gone : All (Gone lo hi ds') (ids cs)
  pub fewer : (c : ℕ) → NotIn c ds → NotIn c ds'

-- An operation that waits completes when it is cancelled, and then only.
pub cancel_waiting :
    (by_timer : Bool) (d : CreateOperationData)
    → d.op.m_was_started ≡ false
    → d.op.m_was_canceled ≡ false
    → completion d (cancel by_timer d.op).1
      ≡ record {
        id = d.id;
        promise = d.op.m_promise;
        result = cancel_result by_timer;
        endpoint = none;
      }
        ∷ []
unfolding cancel
cancel_waiting by_timer d s c = simp (s, c) refl

module _ (p : ℕ) where
  nothing-Removed :
      (lo hi : ℕ) (ds : List CreateOperationData) → Waiting lo hi ds → Removed p lo hi ds ds []
  nothing-Removed lo hi ds h = record { still = h; paid = omega arith; gone = tt; fewer = λ c n. n }

  -- One more operation, which stays or goes.
  stays-Removed :
      (lo hi : ℕ) (d : CreateOperationData) (ds ds' : List CreateOperationData)
      (cs : List Completion)
      → Waiting lo hi (d ∷ ds)
      → Removed p (suc d.id) hi ds ds' cs
      → Removed p lo hi (d ∷ ds) (d ∷ ds') cs
  stays-Removed lo hi d ds ds' cs h r = record {
    still = (h.0, h.1, h.2, r.still);
    paid = omega (arith, r.paid);
    gone =
        All-map (Gone (suc d.id) hi ds') (Gone lo hi (d ∷ ds')) (ids cs)
          (λ c k. (omega (arith, h.0, k.0), k.1, (ground (arith, k.0), k.2))) r.gone;
    fewer = λ c n. (n.0, r.fewer c n.1);
  }

  goes-Removed :
      (by_timer : Bool) (lo hi : ℕ) (d : CreateOperationData) (ds ds' : List CreateOperationData)
      (cs : List Completion)
      → Waiting lo hi (d ∷ ds)
      → Removed p (suc d.id) hi ds ds' cs
      → Removed p lo hi (d ∷ ds) ds' (cs ++ completion d (cancel by_timer d.op).1)
  goes-Removed by_timer lo hi d ds ds' cs h r = rw (cancel_waiting by_timer d h.1 h.2) (record {
    still = Waiting-weaken (suc d.id) lo hi ds' (omega (arith, h.0)) r.still;
    paid = omega (
      arith,
      r.paid,
      settles-append p cs (
          record {
            id = d.id;
            promise = d.op.m_promise;
            result = cancel_result by_timer;
            endpoint = none;
          }
          ∷ []),
    );
    gone = subst (All (Gone lo hi ds')) (sym (ids-append cs _)) (
        All-append (Gone lo hi ds') (ids cs) (d.id ∷ [])
          (All-map (Gone (suc d.id) hi ds') (Gone lo hi ds') (ids cs)
            (λ c k. (omega (arith, h.0, k.0), k.1, k.2)) r.gone)
          (
            (
              h.0,
              omega (arith, Waiting-le (suc d.id) hi ds' r.still),
              Waiting-NotIn d.id (suc d.id) hi ds' (omega arith) r.still,
            ),
            tt,
          ));
    fewer = λ c n. r.fewer c n.1;
  })

  pub time_out_later-Removed :
      (id lo hi : ℕ) (ds : List CreateOperationData)
      → Waiting lo hi ds
      → Removed p lo hi ds (time_out_later id ds).0 (time_out_later id ds).1
  time_out_later-Removed id lo hi [] h = nothing-Removed lo hi [] h
  time_out_later-Removed id lo hi (d ∷ ds) h = elim (Bool-cases (d.id == id)) [
    | inl same ↦
        rw same (goes-Removed true lo hi d ds ds [] h (nothing-Removed (suc d.id) hi ds h.3))
    | inr other ↦
        rw other (stays-Removed lo hi d ds _ _ h (time_out_later-Removed id (suc d.id) hi ds h.3))
  ]

  pub cancel_loop-Removed :
      (client_id : Option ℕ) (lo hi : ℕ) (ds : List CreateOperationData) (t : MultipleTimer ℕ)
      → Waiting lo hi ds
      → Removed p lo hi ds (cancel_loop client_id ds t).0.0 (cancel_loop client_id ds t).1
  cancel_loop-Removed client_id lo hi [] t h = nothing-Removed lo hi [] h
  cancel_loop-Removed client_id lo hi (d ∷ ds) t h = elim (Bool-cases (is_chosen client_id d)) [
    | inl chosen ↦
        rw chosen (
          goes-Removed false lo hi d ds _ _ h
            (cancel_loop-Removed client_id (suc d.id) hi ds t h.3))
    | inr other ↦
        rw other
          (stays-Removed lo hi d ds _ _ h (cancel_loop-Removed client_id (suc d.id) hi ds t h.3))
  ]
