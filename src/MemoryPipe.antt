-- ===== src/MemoryPipe.antt =====
-- rpc-lib/rpc-lib/pipe/memory-pipe: pipes within one process.
pub mod MemBuffer
pub mod MemPipeEnv
pub mod MemBuffers
pub mod MemPipeEndpoint
