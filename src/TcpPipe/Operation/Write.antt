-- ===== src/TcpPipe/Operation/Write.antt =====
-- write_operation (pipe/tcp-pipe/tcp-pipe-endpoint.cpp).
use common.Base.{ℕ, ◌+◌, ◌-◌, ◌%◌, ◌^◌, List, drop, Bool, leb, ◌==◌, Outcome, ok, ensure, ◌>>◌}
use common.Utils.Buffer.{Buffer}
use common.TcpPipe.Operation.{Endian, header_size, bytes_of}

-- The fields of `write_operation`, less the promise.
pub record WriteProgress : Type 0 where
  pub m_payload_buffer : Buffer
  pub m_write_header_big_endian : List ℕ
  pub m_bytes_transferred : ℕ
  pub m_bytes_total : ℕ

unfoldable pub create : Endian → Buffer → WriteProgress
create e message = record {
  m_payload_buffer = message;
  m_write_header_big_endian = e.native_to_big (message.m_size % 2 ^ 32);
  m_bytes_transferred = 0;
  m_bytes_total = header_size + message.m_size;
}

unfoldable pub add_bytes : ℕ → WriteProgress → WriteProgress
add_bytes bytes w = record w { m_bytes_transferred = w.m_bytes_transferred + bytes }

unfoldable pub get_unwritten_header_buffer : WriteProgress → Outcome (List ℕ)
get_unwritten_header_buffer w = do
  ensure (leb w.m_bytes_transferred header_size)
  ok (drop w.m_bytes_transferred w.m_write_header_big_endian)

unfoldable pub get_unwritten_payload_buffer : WriteProgress → Outcome (List ℕ)
get_unwritten_payload_buffer w = do
  ensure (leb header_size w.m_bytes_transferred)
  ensure (leb w.m_bytes_transferred w.m_bytes_total)
  ok (drop (w.m_bytes_transferred - header_size) (bytes_of w.m_payload_buffer))

unfoldable pub is_header_completed : WriteProgress → Bool
is_header_completed w = leb header_size w.m_bytes_transferred

unfoldable pub is_payload_completed : WriteProgress → Outcome Bool
is_payload_completed w = do
  ensure (leb w.m_bytes_transferred w.m_bytes_total)
  ok (w.m_bytes_transferred == w.m_bytes_total)
