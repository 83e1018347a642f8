-- ===== src/Connection.antt =====
-- rpc-lib/rpc-lib/internal/connection: one end of an RPC connection.
pub mod Watcher
pub mod Handlers
pub mod World
