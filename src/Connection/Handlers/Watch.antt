-- ===== src/Connection/Handlers/Watch.antt =====
-- connection::impl::process_watch_event while nothing is received.
use common.Base.{
  ℕ, ◌+◌, ◌≡◌, refl, [], ◌∷◌, Option, none, some, Bool, true, false, ltb, if◌then◌else◌, ok,
  Bool-cases, inl, inr,
}
use common.Utils.Memory.{write, store}
use common.Utils.Buffer
use common.Utils.Buffer.{Buffer}
use common.Message.Types.{type_byte}
use common.Message.Encode.{create_transfer_msg_ping}
use common.Message.Encode.Create.{exactly}
use common.Connection.Watcher.{
  ConnectionWatcher, check_and_drop_activity_flag, set_ping_waiting, is_connection_not_responding,
}
use common.Connection.Handlers.{
  Impl, Effect, send_control, stop_transport, State, process_watch_event, deactivate,
}

abbrev pub watching : ℕ → Bool → Option ℕ → ConnectionWatcher
watching period active since = record {
  ping_period = period;
  activity_flag = active;
  start_ping_waiting = since;
}

-- For a connection that was active and waits for no answer to a ping, and that receives nothing
-- more: the first watch event only takes the activity flag down; the second one, at the time
-- `sent`, sends a ping; and a third one deactivates the connection if it comes after `sent` plus
-- the ping period, and otherwise sends another ping without moving that deadline.
pub process_watch_event_lem :
    (garbage : ℕ → ℕ) (c : Impl) (period now later now' sent now'' later'' : ℕ)
    → c.m_watcher ≡ watching period true none
    → let c' : Impl = record c { m_watcher = watching period false none } in
      let c'' : Impl = record c { m_watcher = watching period false (some sent) } in
      let ping : Effect = send_control (exactly (2 ∷ [])) in
      (process_watch_event garbage now later c ≡ ok (c', []))
      × (process_watch_event garbage now' sent c' ≡ ok (c'', ping ∷ []))
      × (process_watch_event garbage now'' later'' c'' ≡ (
          if ltb (sent + period) now''
          then ok (record c'' { m_state = State.deactivated }, stop_transport ∷ [])
          else ok (c'', ping ∷ [])))
unfolding process_watch_event deactivate is_connection_not_responding check_and_drop_activity_flag
    set_ping_waiting create_transfer_msg_ping Buffer.put Buffer.create write store type_byte
process_watch_event_lem garbage c period now later now' sent now'' later'' e = (
  simp (e) refl,
  refl,
  (elim (Bool-cases (ltb (sent + period) now'')) [
    | inl late ↦ simp (late) refl
    | inr early ↦ simp (early) refl
  ]),
)
