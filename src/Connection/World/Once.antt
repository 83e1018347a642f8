-- ===== src/Connection/World/Once.antt =====
-- connection::impl over a history of events: the promises of request_async, in the request map and
-- in the ledger.
use common.Base.{
  ℕ, suc, ◌+◌, ◌≡◌, refl, sym, ◌∙◌, List, [], ◌∷◌, none, Bool, true, false, arith, ltb,
  if◌then◌else◌, ◌⊎◌, inl, inr, ok, bind_ok, ok_injective, subst,
}
use common.Base.Assoc.{erase, emplace, Unique, emplace-Unique, count_by-emplace}
use common.Utils.Buffer
use common.Utils.Buffer.{Buffer}
use common.Utils.View.{of_buffer}
use common.Message.Decode.{get_msg_number_req}
use common.Results.{RequestResult}
use common.Timer.Multiple
use common.Connection.Handlers.{
  Impl, RequestData, RequestFuture, ready, pending, Effect, complete_request, timer_callback,
  send_callback, send_request, start_from, start, deactivate, request_async, receive_callback,
  process_watch_event, State,
}
use common.Connection.Handlers
use common.Connection.World.{
  World, initial, apply, issue, on_request, on_sent, on_received, on_watch, on_timer, Step, starts,
  deactivates, requests, sends, receives, watches, waits, Reach, here, next, remove_one,
}
use common.Connection.World.Failing.{Failing, emplace-Failing}
use common.Connection.World.Account.{
  times, waiting, belongs, times-note, Conserves, complete_request-Conserves,
  send_callback-Conserves,
}
use common.Connection.World.Handled.{
  quiet-Conserves, receive_callback-Conserves, process_watch_event-Conserves,
}
use common.Connection.World.Request.{Added, request_async_ok}

-- The keys of the map are distinct, and each promise that went out has been settled or stands in
-- the map, once in all; no other promise has. The results that wait in the map are failures.
pub record Accounted (w : World) : Type 0 where
  pub unique : Unique w.impl.m_request_map
  pub once :
      (p : ℕ)
      → times p w.settled + waiting p w.impl.m_request_map ≡ (if ltb p w.issued then 1 else 0)
  pub failing : Failing w.impl.m_request_map

apply-Accounted :
    (w : World) (out : Impl × List Effect)
    → Conserves w.impl.m_request_map out
    → Accounted w
    → Accounted (apply out w)
apply-Accounted w out k a = record {
  unique = k.unique a.unique;
  once = λ p. omega (arith, times-note p out.1 w.settled, k.owed a.unique p) ∙ a.once p;
  failing = k.failing a.failing;
}

start_from-Conserves : (s : State) (c : Impl) → Conserves c.m_request_map (start_from s c)
unfolding start_from
start_from-Conserves State.never_started c = quiet-Conserves c _ _ refl refl
start_from-Conserves State.started c = quiet-Conserves c c [] refl refl
start_from-Conserves State.deactivated c = quiet-Conserves c c [] refl refl

start-Conserves : (c : Impl) → Conserves c.m_request_map (start c)
unfolding start
start-Conserves c = start_from-Conserves c.m_state c

add_request_to_map-Accounted :
    (w : World) (message : Buffer) (c : Impl) (number : ℕ)
    → Added w.impl c number w.issued
    → Accounted w
    → Accounted (record w { impl = c; issued = suc w.issued; outstanding = number ∷ w.outstanding })
add_request_to_map-Accounted w message c number added a = record {
  unique = rw added.map (emplace-Unique number _ w.impl.m_request_map a.unique);
  once = λ p. rw added.map (grown p);
  failing = rw added.map (emplace-Failing number _ w.impl.m_request_map refl a.failing);
}
  where
    entry : RequestData
    entry = record {
      promise = w.issued;
      timer_id = added.id;
      is_req_sent = false;
      fail_req_result = none;
    }

    grown :
        (p : ℕ)
        → times p w.settled + waiting p (emplace number entry w.impl.m_request_map)
          ≡ (if ltb p (suc w.issued) then 1 else 0)
    grown p = ground (
      arith,
      a.once p,
      count_by-emplace (belongs p) number entry w.impl.m_request_map added.fresh_number,
    )

request_out-Accounted :
    (w : World) (message : Buffer) (out : Impl × List Effect × RequestFuture)
    → ((out ≡ (w.impl, [], ready RequestResult.failed))
        ⊎ ((number : ℕ) × (get_msg_number_req (of_buffer message) ≡ ok number)
            × Added w.impl out.0 number w.issued
            × (out.1 ≡ send_request number message ∷ [])
            × (out.2 ≡ pending w.issued)))
    → Accounted w
    → Accounted (record (apply (out.0, out.1) w) { issued = issue w.issued out.2 })
request_out-Accounted w message out (inl e) a =
    rw e (record { unique = a.unique; once = a.once; failing = a.failing })
request_out-Accounted w message out (inr (number, _, added, e, f)) a =
    rw (e, f) (add_request_to_map-Accounted w message out.0 number added a)

on_request-Accounted :
    (running : Bool) (message : Buffer) (w u : World)
    → on_request running message w ≡ ok u
    → Accounted w
    → Accounted u
unfolding on_request
on_request-Accounted running message w u h a =
    let (out, e, f) = bind_ok (request_async running w.issued message w.impl) _ h in
    subst Accounted (ok_injective f) (
      request_out-Accounted w message out (request_async_ok running w.issued message w.impl out e)
        a)

on_timer-Accounted :
    (id : ℕ) (ec : Bool) (number : ℕ) (w : World)
    → Accounted w
    → Accounted (on_timer id ec number w)
unfolding on_timer Multiple.on_wait timer_callback
on_timer-Accounted id true number w a = record {
  unique = a.unique;
  once = a.once;
  failing = a.failing;
}
on_timer-Accounted id false number w a =
    let timers = record w.impl.m_multiple_timer {
      timers_map = erase id w.impl.m_multiple_timer.timers_map;
    } in
    let w' : World = record w { impl = record w.impl { m_multiple_timer = timers } } in
    apply-Accounted w' _
      (complete_request-Conserves number RequestResult.timeout Buffer.empty w'.impl)
      (record { unique = a.unique; once = a.once; failing = a.failing })

module _ (garbage : ℕ → ℕ) where
  Step-Accounted : {w u : World} → Step garbage w u → Accounted w → Accounted u
  unfolding deactivate on_sent on_received on_watch
  Step-Accounted {w} (starts e) a =
      subst Accounted (sym e) (apply-Accounted w _ (start-Conserves w.impl) a)
  Step-Accounted {w} (deactivates e) a = subst Accounted (sym e) (
      apply-Accounted w (deactivate w.impl)
        (quiet-Conserves w.impl _ (deactivate w.impl).1 refl refl) a)
  Step-Accounted {w} {u} (requests running message e) a =
      on_request-Accounted running message w u e a
  Step-Accounted {w} (sends number r m e) a =
      let (out, h, f) = bind_ok (send_callback number r w.impl) _ e in
      subst Accounted (ok_injective f) (
        apply-Accounted (record w { outstanding = remove_one number w.outstanding }) out
          (send_callback-Conserves number r w.impl out h)
          (record { unique = a.unique; once = a.once; failing = a.failing }))
  Step-Accounted {w} (receives r message e) a =
      let (out, h, f) = bind_ok (receive_callback garbage r message w.impl) _ e in
      subst Accounted (ok_injective f)
        (apply-Accounted w out (receive_callback-Conserves garbage r message w.impl out h) a)
  Step-Accounted {w} (watches now later e) a =
      let (out, h, f) = bind_ok (process_watch_event garbage now later w.impl) _ e in
      subst Accounted (ok_injective f)
        (apply-Accounted w out (process_watch_event-Conserves garbage now later w.impl out h) a)
  Step-Accounted {w} (waits id ec wait m c e) a =
      subst Accounted (sym e) (on_timer-Accounted id ec wait.callback w a)

  initial-Accounted : (service : Bool) (ping_timeout : ℕ) → Accounted (initial service ping_timeout)
  unfolding initial Handlers.create
  initial-Accounted service ping_timeout = record {
    unique = tt;
    once = λ p. ground arith;
    failing = tt;
  }

  reached-Accounted : {w u : World} → Accounted w → Reach garbage w u → Accounted u
  reached-Accounted a here = a
  reached-Accounted a (next r s) = Step-Accounted s (reached-Accounted a r)

  -- In every state that a connection can reach, each promise that `request_async` gave out has
  -- been settled or stands in the request map, exactly once in all, and no other promise does
  -- either; the numbers in the map are different, and a request in it that waits to be failed is
  -- to be failed with a result that is a failure.
  pub Reach-Accounted :
      (service : Bool) (ping_timeout : ℕ) {w : World}
      → Reach garbage (initial service ping_timeout) w
      → Accounted w
  Reach-Accounted service ping_timeout r =
      reached-Accounted (initial-Accounted service ping_timeout) r
