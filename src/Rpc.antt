-- ===== src/Rpc.antt =====
-- Both ends of a call: channel on the client's side, service on the server's.
pub mod Controller
pub mod Channel
pub mod Service
pub mod ServerConnector
pub mod EndToEnd
pub mod Responses
mod Tests
