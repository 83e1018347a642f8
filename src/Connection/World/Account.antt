-- ===== src/Connection/World/Account.antt =====
-- The ledger of the promises of connection::impl, and what its operations do to it.
use common.Base.{
  ℕ, ◌+◌, ◌≡◌, refl, List, [], ◌∷◌, Option, none, some, Bool, ok, ensure, ◌>>◌, ensure_ok,
  ok_injective, subst, arith, ◌==◌, if◌then◌else◌, inl, inr, Option-cases, Bool-cases,
}
use common.Base.Assoc.{
  find, erase, modify, Unique, erase-Unique, modify-Unique, count_by, count_by-erase,
  count_by-modify,
}
use common.Utils.Buffer.{Buffer}
use common.Utils.Buffer
use common.Results.{RequestResult, PipeOpRes, is_request_fail}
use common.Timer.Multiple.{MultipleTimer}
use common.Timer.Multiple
use common.Connection.Handlers.{
  Impl, RequestData, Effect, settle, complete_request, process_request_sent, send_callback,
  abort_requests, settle_all, mark_sent,
}
use common.Connection.World.{note}
use common.Connection.World.Failing.{Failing, erase-Failing, mark_sent-Failing}

abbrev pub times : ℕ → List (ℕ × RequestResult) → ℕ
times p [] = 0
times p ((q, r) ∷ done) = (if q == p then 1 else 0) + times p done

abbrev pub belongs : ℕ → RequestData → Bool
belongs p d = d.promise == p

-- How often a promise stands in the request map.
abbrev pub waiting : ℕ → List (ℕ × RequestData) → ℕ
waiting p m = count_by (belongs p) m

pub times-note :
    (p : ℕ) (effects : List Effect) (done : List (ℕ × RequestResult))
    → times p (note effects done) ≡ times p (note effects []) + times p done
times-note p [] done = omega arith
times-note p (settle q r b ∷ effects) done =
    omega (arith, times-note p effects ((q, r) ∷ done), times-note p effects ((q, r) ∷ []))
times-note p (Effect.send_request n b ∷ effects) done = times-note p effects done
times-note p (Effect.send_control b ∷ effects) done = times-note p effects done
times-note p (Effect.serve b ∷ effects) done = times-note p effects done
times-note p (Effect.receive ∷ effects) done = times-note p effects done
times-note p (Effect.start_watching ∷ effects) done = times-note p effects done
times-note p (Effect.stop_watching ∷ effects) done = times-note p effects done
times-note p (Effect.stop_transport ∷ effects) done = times-note p effects done

-- A handler keeps the keys apart, and what leaves the map is settled, each promise as often.
pub record Conserves (m : List (ℕ × RequestData)) (out : Impl × List Effect) : Type 0 where
  pub unique : Unique m → Unique out.0.m_request_map
  pub owed :
      Unique m → (p : ℕ) → times p (note out.1 []) + waiting p out.0.m_request_map ≡ waiting p m
  pub failing : Failing m → Failing out.0.m_request_map

pub complete_request-Conserves :
    (number : ℕ) (r : RequestResult) (b : Buffer) (c : Impl)
    → Conserves c.m_request_map (complete_request number r b c)
unfolding complete_request
complete_request-Conserves number r b c = elim (Option-cases (find number c.m_request_map)) [
  | inl e ↦
      rw (e, complete_request)
        (record { unique = λ u. u; owed = λ u p. omega arith; failing = λ f. f })
  | inr (d, e) ↦
      rw (e, complete_request)
        (record {
          unique = erase-Unique number c.m_request_map;
          owed = λ u p. omega (arith, count_by-erase (belongs p) number d c.m_request_map u e);
          failing = erase-Failing number c.m_request_map;
        })
]

process_request_sent-Conserves :
    (number : ℕ) (c : Impl) (out : Impl × List Effect)
    → process_request_sent number c ≡ ok out
    → Conserves c.m_request_map out
unfolding process_request_sent
process_request_sent-Conserves number c out h = by_entry (find number c.m_request_map) refl h
  where
    by_result :
        (d : RequestData) (failed : Option RequestResult)
        → find number c.m_request_map ≡ some d
        → elim failed [
          | none ↦ ok (record c { m_request_map = modify number mark_sent c.m_request_map }, [])
          | some result ↦ (do
            ensure (is_request_fail result)
            ok (
              record c { m_request_map = erase number c.m_request_map },
              settle d.promise result Buffer.empty ∷ [],
            ))
        ]
          ≡ ok out
        → Conserves c.m_request_map out
    by_result d none e h = subst (Conserves c.m_request_map) (ok_injective h) (record {
      unique = modify-Unique number mark_sent c.m_request_map;
      owed = λ u p.
          omega (arith, count_by-modify (belongs p) number mark_sent c.m_request_map (λ v. refl));
      failing = mark_sent-Failing number c.m_request_map;
    })
    by_result d (some r) e h =
        let (_, f) = ensure_ok (is_request_fail r) _ h in
        subst (Conserves c.m_request_map) (ok_injective f) (record {
          unique = erase-Unique number c.m_request_map;
          owed = λ u p. omega (arith, count_by-erase (belongs p) number d c.m_request_map u e);
          failing = erase-Failing number c.m_request_map;
        })

    by_entry :
        (found : Option RequestData)
        → find number c.m_request_map ≡ found
        → elim found [
          | none ↦ ok (c, [])
          | some d ↦ elim d.fail_req_result [
            | none ↦ ok (record c { m_request_map = modify number mark_sent c.m_request_map }, [])
            | some result ↦ (do
              ensure (is_request_fail result)
              ok (
                record c { m_request_map = erase number c.m_request_map },
                settle d.promise result Buffer.empty ∷ [],
              ))
          ]
        ]
          ≡ ok out
        → Conserves c.m_request_map out
    by_entry none e h =
        subst (Conserves c.m_request_map) (ok_injective h)
          (record { unique = λ u. u; owed = λ u p. omega arith; failing = λ f. f })
    by_entry (some d) e h = by_result d d.fail_req_result e h

pub send_callback-Conserves :
    (number : ℕ) (r : PipeOpRes) (c : Impl) (out : Impl × List Effect)
    → send_callback number r c ≡ ok out
    → Conserves c.m_request_map out
unfolding send_callback
send_callback-Conserves number PipeOpRes.success c out h =
    process_request_sent-Conserves number c out h
send_callback-Conserves number PipeOpRes.canceled c out h =
    subst (Conserves c.m_request_map) (ok_injective h) (complete_request-Conserves number _ _ c)
send_callback-Conserves number PipeOpRes.failed c out h =
    subst (Conserves c.m_request_map) (ok_injective h) (complete_request-Conserves number _ _ c)
send_callback-Conserves number PipeOpRes.timeout c out h =
    subst (Conserves c.m_request_map) (ok_injective h) (complete_request-Conserves number _ _ c)

-- The promises that `abort_requests` takes out, and those that it keeps.
find-abort_requests :
    (r : RequestResult) (k : ℕ) (m : List (ℕ × RequestData)) (timers : MultipleTimer ℕ)
    → find k m ≡ none
    → find k (abort_requests r m timers).0 ≡ none
unfolding find abort_requests
find-abort_requests r k [] timers h = refl
find-abort_requests r k ((j, d) ∷ m) timers h =
    ground (arith, find-abort_requests r k m (Multiple.cancel d.timer_id timers))

pub abort_requests-Unique :
    (r : RequestResult) (m : List (ℕ × RequestData)) (timers : MultipleTimer ℕ)
    → Unique m
    → Unique (abort_requests r m timers).0
unfolding abort_requests
abort_requests-Unique r [] timers u = u
abort_requests-Unique r ((j, d) ∷ m) timers u = ground (
  arith,
  find-abort_requests r j m (Multiple.cancel d.timer_id timers) u.0,
  abort_requests-Unique r m (Multiple.cancel d.timer_id timers) u.1,
)

pub abort_requests-owed :
    (r : RequestResult) (m : List (ℕ × RequestData)) (timers : MultipleTimer ℕ) (p : ℕ)
    → times p (note (settle_all r (abort_requests r m timers).2) [])
        + waiting p (abort_requests r m timers).0
      ≡ waiting p m
unfolding abort_requests
abort_requests-owed r [] timers p = omega arith
abort_requests-owed r ((j, d) ∷ m) timers p =
    let rest = Multiple.cancel d.timer_id timers in
    elim (Bool-cases d.is_req_sent) [
      | inl sent ↦
          rw (sent, abort_requests)
            (omega (
              arith,
              abort_requests-owed r m rest p,
              times-note p (settle_all r (abort_requests r m rest).2) ((d.promise, r) ∷ []),
            ))
      | inr unsent ↦ rw (unsent, abort_requests) (omega (arith, abort_requests-owed r m rest p))
    ]
