-- ===== src/Future.antt =====
-- Futures (common-lib/common-lib/thread/future).
pub mod Controller
