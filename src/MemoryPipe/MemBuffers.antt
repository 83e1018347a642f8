-- ===== src/MemoryPipe/MemBuffers.antt =====
-- mem_buffers (pipe/memory-pipe/mem-buffers.cpp): the two directions of a pipe, and the callbacks
-- of its end. A callback is a number; the functions return those that they run, in order.
pub mod Ends
mod Tests
use common.Base.{ℕ, List, [], ◌∷◌, ◌++◌, Option, Bool, true, false, not, if◌then◌else◌, length}
use common.Utils.Buffer.{Buffer}
use common.MemoryPipe.MemBuffer.{MemBuffer, Effect, WriteFuture}
use common.MemoryPipe.MemBuffer

pub record MemBuffers : Type 0 where
  pub m_client_to_server : MemBuffer
  pub m_server_to_client : MemBuffer
  pub m_invalidated : Bool
  pub m_on_invalidate : List ℕ

unfoldable pub create : MemBuffers
create = record {
  m_client_to_server = MemBuffer.create;
  m_server_to_client = MemBuffer.create;
  m_invalidated = false;
  m_on_invalidate = [];
}

unfoldable pub read_async_from_server : Option ℕ → ℕ → MemBuffers → MemBuffers
read_async_from_server timeout promise m = record m {
  m_server_to_client = MemBuffer.read_async timeout promise m.m_server_to_client;
}

unfoldable pub read_async_from_client : Option ℕ → ℕ → MemBuffers → MemBuffers
read_async_from_client timeout promise m = record m {
  m_client_to_server = MemBuffer.read_async timeout promise m.m_client_to_server;
}

unfoldable pub write_async_to_client :
    ℕ → Option ℕ → ℕ → Buffer → MemBuffers → MemBuffers × WriteFuture
write_async_to_client now timeout promise msg m =
    let (b, future) = MemBuffer.write_async now timeout promise msg m.m_server_to_client in
    (record m { m_server_to_client = b }, future)

unfoldable pub write_async_to_server :
    ℕ → Option ℕ → ℕ → Buffer → MemBuffers → MemBuffers × WriteFuture
write_async_to_server now timeout promise msg m =
    let (b, future) = MemBuffer.write_async now timeout promise msg m.m_client_to_server in
    (record m { m_client_to_server = b }, future)

unfoldable pub set_invalidate_callback : ℕ → MemBuffers → MemBuffers × List ℕ
set_invalidate_callback callback m =
    if m.m_invalidated
    then (m, callback ∷ [])
    else (record m { m_on_invalidate = m.m_on_invalidate ++ callback ∷ [] }, [])

-- The settled reads of the two directions, and the callbacks that run.
unfoldable pub invalidate_impl :
    Bool → Bool → MemBuffers → MemBuffers × List Effect × List Effect × List ℕ
invalidate_impl cancel_server_side cancel_client_side m =
    let (up, ups) = MemBuffer.invalidate cancel_server_side m.m_client_to_server in
    let (down, downs) = MemBuffer.invalidate cancel_client_side m.m_server_to_client in
    (
      record m {
        m_client_to_server = up;
        m_server_to_client = down;
        m_invalidated = true;
        m_on_invalidate = [];
      },
      ups,
      downs,
      m.m_on_invalidate,
    )

unfoldable pub invalidate : Bool → MemBuffers → MemBuffers × List Effect × List Effect × List ℕ
invalidate by_server m = invalidate_impl by_server (not by_server) m

unfoldable pub is_valid : MemBuffers → Bool
is_valid m = not m.m_invalidated

unfoldable pub get_invalidate_callbacks_count : MemBuffers → ℕ
get_invalidate_callbacks_count m = length m.m_on_invalidate
