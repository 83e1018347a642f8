-- ===== src/TcpPipe.antt =====
-- The pipe over a socket (rpc-lib/rpc-lib/pipe/tcp-pipe).
pub mod Slices
pub mod Operation
pub mod Endpoint
pub mod Impl
pub mod Line
pub mod ServerEnv
mod Tests
