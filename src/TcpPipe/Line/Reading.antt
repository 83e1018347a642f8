-- ===== src/TcpPipe/Line/Reading.antt =====
-- The reads of a tcp_pipe_endpoint as a medium.
pub mod Growth
pub mod Kept
use common.Base.{
  ℕ, ◌+◌, ◌-◌, ◌%◌, ◌^◌, ◌<◌, ◌≤◌, ◌≡◌, refl, sym, ap, ◌∙◌, List, [], ◌∷◌, ◌++◌, append-nil,
  append_assoc, length, take, drop, arith, leb, ◌==◌, Bool, true, false, not, ◌&&◌, if◌then◌else◌,
  Bool-cases, inl, inr, ◌⊎◌, none, some, All, length-append, length-drop, length-take, take_all,
  Outcome, ok, ensure, ensure_ok, ok_injective, ◌>>◌, subst,
}
use common.Utils.Memory.{AllBytes, block, length-block}
use common.Utils.Buffer.{Buffer}
use common.Utils.Buffer
use common.Results.{PipeOpRes, is_op_success}
use common.Message.Types.{max_transfer_message_size}
use common.Message.Decode.Fields.{AllBytes-append}
use common.TcpPipe.Slices.{take_within, take_past, take_put, take-append_drop, All-take, All-drop}
use common.TcpPipe.Operation.{Endian, EndianLaws, bytes_of, header_size, put_at}
use common.TcpPipe.Operation.Read
use common.TcpPipe.Operation.Read.{
  ReadProgress, add_bytes, payload_for, is_payload_buffer_valid, get_buffer_for_unread_header,
  get_buffer_for_unread_payload, is_payload_completed, fill_header, fill_payload,
}
use common.TcpPipe.Impl.{read_kind}
use common.TcpPipe.Line.{Phase, in_header, in_payload, Medium}
use common.TcpPipe.Line.Framed.{Laws}
use common.TcpPipe.Line.Writing.{frame, Measured}

-- asio fills a leading part of the buffer that it is given.
abbrev pub Receives : Phase → ReadProgress → List ℕ → Type 0
Receives in_header r bytes =
    (room : ℕ) × (get_buffer_for_unread_header r ≡ ok room) × (length bytes ≤ room) × AllBytes bytes
Receives in_payload r bytes =
    (room : ℕ) × (get_buffer_for_unread_payload r ≡ ok room)
    × (length bytes ≤ room)
    × AllBytes bytes

abbrev pub filled_in : Phase → List ℕ → ReadProgress → ReadProgress
filled_in in_header bytes r = fill_header bytes r
filled_in in_payload bytes r = fill_payload bytes r

abbrev pub read_medium : Endian → (ℕ → ℕ) → Medium ReadProgress ℕ
read_medium e garbage = record {
  kind = read_kind e garbage;
  fill = filled_in;
  Moves = Receives;
  Starts = λ r. r ≡ Read.create;
  message = λ r. bytes_of r.m_payload_buffer;
}

abbrev pub received : ReadProgress → List ℕ
received r = take r.m_bytes_read (r.m_header ++ bytes_of r.m_payload_buffer)

-- The payload's buffer is not there before the header is, nor after a header that is refused.
pub data Stage (e : Endian) (r : ReadProgress) : Type 0 where
  heading : r.m_bytes_read ≤ 4 → r.m_payload_buffer ≡ Buffer.empty → Stage e r
  loading :
      (mem : List ℕ)
      → r.m_payload_buffer ≡ record { m_buffer = some mem; m_size = length mem }
      → e.big_to_native r.m_header ≡ length mem
      → 0 < length mem
      → length mem ≤ max_transfer_message_size
      → 4 ≤ r.m_bytes_read
      → r.m_bytes_read ≤ length mem + 4
      → Stage e r

pub record GoodRead (e : Endian) (r : ReadProgress) : Type 0 where
  pub width : length r.m_header ≡ 4
  pub bytes : AllBytes r.m_header
  pub stage : Stage e r
