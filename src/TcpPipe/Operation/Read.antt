-- ===== src/TcpPipe/Operation/Read.antt =====
-- read_operation (pipe/tcp-pipe/tcp-pipe-endpoint.cpp).
use common.Base.{
  ℕ, ◌+◌, ◌-◌, List, [], ◌∷◌, none, some, Bool, not, ◌&&◌, leb, ◌==◌, if◌then◌else◌, Outcome, ok,
  ensure, ◌>>◌,
}
use common.Utils.Buffer.{Buffer}
use common.Utils.Buffer
use common.Message.Types.{max_transfer_message_size}
use common.TcpPipe.Operation.{Endian, header_size, put_at}

-- The fields of `read_operation`, less the promise.
pub record ReadProgress : Type 0 where
  pub m_header : List ℕ
  pub m_payload_buffer : Buffer
  pub m_bytes_read : ℕ

unfoldable pub create : ReadProgress
unfolding Buffer.empty
create = record { m_header = 0 ∷ 0 ∷ 0 ∷ 0 ∷ []; m_payload_buffer = Buffer.empty; m_bytes_read = 0 }

unfoldable pub is_payload_buffer_valid : ReadProgress → Bool
unfolding Buffer.to_bool
is_payload_buffer_valid r = Buffer.to_bool r.m_payload_buffer

module _ (e : Endian) (garbage : ℕ → ℕ) where
  -- The payload buffer, once the header is there.
  abbrev pub payload_for : ℕ → Buffer → Buffer
  payload_for message_size buffer =
      if not (message_size == 0) && leb message_size max_transfer_message_size
      then Buffer.create garbage message_size
      else buffer

  unfoldable pub add_bytes : ℕ → ReadProgress → ReadProgress
  unfolding is_payload_buffer_valid
  add_bytes bytes r =
      let count = r.m_bytes_read + bytes in
      if not (is_payload_buffer_valid r) && (count == header_size)
      then record r {
        m_bytes_read = count;
        m_payload_buffer = payload_for (e.big_to_native r.m_header) r.m_payload_buffer;
      }
      else record r { m_bytes_read = count }

-- The sizes of the buffers for the bytes that are still to come.
unfoldable pub get_buffer_for_unread_header : ReadProgress → Outcome ℕ
get_buffer_for_unread_header r = do
  ensure (leb r.m_bytes_read header_size)
  ok (header_size - r.m_bytes_read)

unfoldable pub get_buffer_for_unread_payload : ReadProgress → Outcome ℕ
unfolding is_payload_buffer_valid
get_buffer_for_unread_payload r = do
  ensure (leb header_size r.m_bytes_read)
  ensure (is_payload_buffer_valid r && leb r.m_bytes_read (r.m_payload_buffer.m_size + header_size))
  ok (r.m_payload_buffer.m_size - (r.m_bytes_read - header_size))

unfoldable pub is_header_completed : ReadProgress → Bool
is_header_completed r = leb header_size r.m_bytes_read

unfoldable pub is_payload_completed : ReadProgress → Bool
unfolding is_payload_buffer_valid
is_payload_completed r =
    is_payload_buffer_valid r && (r.m_bytes_read == r.m_payload_buffer.m_size + header_size)

-- What asio leaves in the two buffers when `bytes` have come.
unfoldable pub fill_header : List ℕ → ReadProgress → ReadProgress
fill_header bytes r = record r { m_header = put_at r.m_bytes_read bytes r.m_header }

abbrev pub fill_buffer : ℕ → List ℕ → Buffer → Buffer
fill_buffer n bytes b = record b {
  m_buffer = elim b.m_buffer [ none ↦ none | some mem ↦ some (put_at n bytes mem) ];
}

unfoldable pub fill_payload : List ℕ → ReadProgress → ReadProgress
fill_payload bytes r = record r {
  m_payload_buffer = fill_buffer (r.m_bytes_read - header_size) bytes r.m_payload_buffer;
}
