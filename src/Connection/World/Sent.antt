-- ===== src/Connection/World/Sent.antt =====
-- The continuation of send_async in connection::impl, over a history of events.
use common.Base.{ℕ, ◌≡◌, refl, List, [], ◌∷◌, Option, none, some, Bool, true, ok, ensure, ◌>>◌}
use common.Base.Assoc.{find, erase, modify}
use common.Utils.Buffer
use common.Results.{RequestResult, PipeOpRes, is_request_fail}
use common.Connection.Handlers.{
  Impl, RequestData, Effect, settle, mark_sent, process_request_sent, send_callback,
}
use common.Connection.World.{World, initial, on_sent, Reach}
use common.Connection.World.Failing.{Failing, is_failing, find-Failing}
use common.Connection.World.Once.{Reach-Accounted}

process_request_sent_returns :
    (number : ℕ) (c : Impl)
    → Failing c.m_request_map
    → (out : Impl × List Effect) × (process_request_sent number c ≡ ok out)
unfolding process_request_sent
process_request_sent_returns number c f =
    by_entry (find number c.m_request_map) (λ d e. find-Failing number d c.m_request_map e f)
  where
    by_result :
        (d : RequestData) (failed : Option RequestResult)
        → is_failing failed ≡ true
        → (out : Impl × List Effect) × (elim failed [
          | none ↦ ok (record c { m_request_map = modify number mark_sent c.m_request_map }, [])
          | some result ↦ (do
            ensure (is_request_fail result)
            ok (
              record c { m_request_map = erase number c.m_request_map },
              settle d.promise result Buffer.empty ∷ [],
            ))
        ]
            ≡ ok out)
    by_result d none h = (_, refl)
    by_result d (some r) h = rw h (_, refl)

    by_entry :
        (found : Option RequestData)
        → ((d : RequestData) → found ≡ some d → is_failing d.fail_req_result ≡ true)
        → (out : Impl × List Effect) × (elim found [
          | none ↦ ok (c, [])
          | some d ↦ elim d.fail_req_result [
            | none ↦ ok (record c { m_request_map = modify number mark_sent c.m_request_map }, [])
            | some result ↦ (do
              ensure (is_request_fail result)
              ok (
                record c { m_request_map = erase number c.m_request_map },
                settle d.promise result Buffer.empty ∷ [],
              ))
          ]
        ]
            ≡ ok out)
    by_entry none h = (_, refl)
    by_entry (some d) h = by_result d d.fail_req_result (h d refl)

send_callback_returns :
    (number : ℕ) (r : PipeOpRes) (c : Impl)
    → Failing c.m_request_map
    → (out : Impl × List Effect) × (send_callback number r c ≡ ok out)
unfolding send_callback
send_callback_returns number PipeOpRes.success c f = process_request_sent_returns number c f
send_callback_returns number PipeOpRes.canceled c f = (_, refl)
send_callback_returns number PipeOpRes.failed c f = (_, refl)
send_callback_returns number PipeOpRes.timeout c f = (_, refl)

-- In every state that a connection can reach, no assertion fails in the continuation of the send
-- of any request, however the send has ended: a request that waits to be failed when its send has
-- ended is failed with a result that is a failure.
pub sent_returns :
    (garbage : ℕ → ℕ) (service : Bool) (ping_timeout number : ℕ) (r : PipeOpRes) {w : World}
    → Reach garbage (initial service ping_timeout) w
    → (u : World) × (on_sent number r w ≡ ok u)
unfolding on_sent
sent_returns garbage service ping_timeout number r {w} h =
    let (out, e) =
      send_callback_returns number r w.impl
        (Reach-Accounted garbage service ping_timeout h).failing in
    rw e (_, refl)
