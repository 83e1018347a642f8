-- ===== src/Connection/Watcher.antt =====
-- connection_watcher (internal/connection/connection-watcher.{h,cpp}): notices a silent peer.
-- Times are milliseconds; each call of `steady_clock::now()` is an argument.
use common.Base.{ℕ, ◌+◌, Option, none, some, Bool, true, false, ltb}

pub record ConnectionWatcher : Type 0 where
  pub ping_period : ℕ
  pub activity_flag : Bool
  pub start_ping_waiting : Option ℕ

unfoldable pub create : ℕ → ConnectionWatcher
create period = record { ping_period = period; activity_flag = true; start_ping_waiting = none }

-- The flag as it was, and the watcher with the flag down.
unfoldable pub check_and_drop_activity_flag : ConnectionWatcher → Bool × ConnectionWatcher
check_and_drop_activity_flag w = (w.activity_flag, record w { activity_flag = false })

unfoldable pub set_activity_flag : ConnectionWatcher → ConnectionWatcher
set_activity_flag w = record w { activity_flag = true; start_ping_waiting = none }

unfoldable pub set_ping_waiting : ℕ → ConnectionWatcher → ConnectionWatcher
set_ping_waiting now w = elim w.start_ping_waiting [
  | none ↦ record w { start_ping_waiting = some now }
  | some t ↦ w
]

unfoldable pub is_connection_not_responding : ℕ → ConnectionWatcher → Bool
is_connection_not_responding now w = elim w.start_ping_waiting [
  | none ↦ false
  | some t ↦ ltb (t + w.ping_period) now
]
