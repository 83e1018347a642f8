-- ===== src/Timer.antt =====
-- common-lib/common-lib/timer: timers over boost::asio, whose waits are events.
pub mod Multiple
pub mod Periodic
