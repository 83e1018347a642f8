-- ===== src/MemoryPipe/MemPipeEndpoint.antt =====
-- mem_pipe_endpoint (pipe/memory-pipe/mem-pipe-endpoint.cpp): one end of a memory pipe. The two
-- ends share their mem_buffers, which stand beside the end here.
use common.Base.{ℕ, Option, Bool, if◌then◌else◌, List}
use common.Utils.Buffer.{Buffer}
use common.MemoryPipe.MemBuffer.{WriteFuture, Effect}
use common.MemoryPipe.MemBuffers.{
  MemBuffers, is_valid, write_async_to_client, write_async_to_server, read_async_from_client,
  read_async_from_server,
}
use common.MemoryPipe.MemBuffers

pub record MemPipeEndpoint : Type 0 where
  pub m_is_server : Bool

unfoldable pub is_connected : MemPipeEndpoint → MemBuffers → Bool
is_connected this m = is_valid m

unfoldable pub set_disconnect_callback : ℕ → MemPipeEndpoint → MemBuffers → MemBuffers × List ℕ
set_disconnect_callback callback this m = MemBuffers.set_invalidate_callback callback m

unfoldable pub write_async :
    ℕ → Option ℕ → ℕ → Buffer → MemPipeEndpoint → MemBuffers → MemBuffers × WriteFuture
write_async now timeout promise msg this m =
    if this.m_is_server
    then write_async_to_client now timeout promise msg m
    else write_async_to_server now timeout promise msg m

unfoldable pub read_async : Option ℕ → ℕ → MemPipeEndpoint → MemBuffers → MemBuffers
read_async timeout promise this m =
    if this.m_is_server
    then read_async_from_client timeout promise m
    else read_async_from_server timeout promise m

unfoldable pub invalidate :
    MemPipeEndpoint → MemBuffers → MemBuffers × List Effect × List Effect × List ℕ
invalidate this m = MemBuffers.invalidate this.m_is_server m
