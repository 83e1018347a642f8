-- ===== src/TcpPipe/Line/Total/Kinds.antt =====
-- The assertions of tcp_pipe_endpoint::impl, for writes and for reads.
use common.Base.{
  ℕ, ◌-◌, ◌≤◌, ◌≡◌, refl, ap, subst, List, [], ◌∷◌, ◌++◌, length, drop, some, Bool, true, false, ok,
  arith, leb, ◌==◌, ensure_ok, length-take, length-append,
}
use common.Utils.Buffer.{Buffer}
use common.TcpPipe.Operation.{Endian, EndianLaws, bytes_of, header_size}
use common.TcpPipe.Operation.Write
use common.TcpPipe.Operation.Write.{
  WriteProgress, get_unwritten_header_buffer, get_unwritten_payload_buffer,
}
use common.TcpPipe.Operation.Read
use common.TcpPipe.Operation.Read.{
  ReadProgress, is_payload_buffer_valid, get_buffer_for_unread_header,
  get_buffer_for_unread_payload, fill_header, fill_payload,
}
use common.TcpPipe.Impl.{write_kind, read_kind}
use common.TcpPipe.Endpoint.{OperationData, Timer, Socket, ErrorCode, Turn}
use common.TcpPipe.Line.{Phase, World, Reach, idle_line, handle}
use common.TcpPipe.Line.Writing.{frame, write_medium, write_laws, written, GoodWrite}
use common.TcpPipe.Line.Reading.{read_medium, received, Stage, heading, loading, GoodRead}
use common.TcpPipe.Line.Reading.Kept.{read_laws, no_payload}
use common.TcpPipe.Line.Total.{Answers, Fit, fill_first, Reach-Returns}

module _ (e : Endian) (laws : EndianLaws e) where
  write_first :
      (w : WriteProgress)
      → GoodWrite e w
      → written w ≡ []
      → (r : List ℕ) × (get_unwritten_header_buffer w ≡ ok r)
  unfolding get_unwritten_header_buffer
  write_first w g h =
      (drop w.m_bytes_transferred w.m_write_header_big_endian, ground (arith, none_yet))
    where
      none_yet : w.m_bytes_transferred ≡ 0
      none_yet = omega (
        arith,
        ap length h,
        length-take w.m_bytes_transferred
            (w.m_write_header_big_endian ++ bytes_of w.m_payload_buffer),
        length-append w.m_write_header_big_endian (bytes_of w.m_payload_buffer),
        ap length g.header,
        laws.width (length (bytes_of w.m_payload_buffer)),
      )

  write_more_header :
      (w : WriteProgress)
      → Write.is_header_completed w ≡ false
      → (r : List ℕ) × (get_unwritten_header_buffer w ≡ ok r)
  unfolding get_unwritten_header_buffer Write.is_header_completed
  write_more_header w h =
      (drop w.m_bytes_transferred w.m_write_header_big_endian, ground (arith, h))

  write_more_payload :
      (w : WriteProgress)
      → GoodWrite e w
      → Write.is_header_completed w ≡ true
      → (r : List ℕ) × (get_unwritten_payload_buffer w ≡ ok r)
  unfolding get_unwritten_payload_buffer Write.is_header_completed
  write_more_payload w g h = (
    drop (w.m_bytes_transferred - 4) (bytes_of w.m_payload_buffer),
    ground (arith, h, g.transferred),
  )

  write_behind :
      (w : WriteProgress) (r bytes : List ℕ)
      → get_unwritten_payload_buffer w ≡ ok r
      → Write.is_header_completed (Write.add_bytes (length bytes) w) ≡ true
  unfolding get_unwritten_payload_buffer Write.is_header_completed Write.add_bytes
  write_behind w r bytes h =
      let (high, _) = ensure_ok (leb header_size w.m_bytes_transferred) _ h in ground (arith, high)

  write_answers :
      (w : WriteProgress) → GoodWrite e w → (c : Bool) × (Write.is_payload_completed w ≡ ok c)
  unfolding Write.is_payload_completed
  write_answers w g = (w.m_bytes_transferred == w.m_bytes_total, ground (arith, g.transferred))

  write_total : Answers (write_medium e) (frame e) (write_laws e laws)
  unfolding write_laws write_kind
  write_total = record {
    first = write_first;
    more_header = λ w g h. write_more_header w h;
    more_payload = λ w g h v. write_more_payload w g h;
    behind_header = write_behind;
    answers = write_answers;
  }

  read_more_header :
      (r : ReadProgress)
      → r.m_bytes_read ≤ 4
      → (room : ℕ) × (get_buffer_for_unread_header r ≡ ok room)
  unfolding get_buffer_for_unread_header
  read_more_header r h = (4 - r.m_bytes_read, ground (arith, h))

  read_first :
      (r : ReadProgress)
      → GoodRead e r
      → received r ≡ []
      → (room : ℕ) × (get_buffer_for_unread_header r ≡ ok room)
  read_first r g h = read_more_header r (
      omega (
        arith,
        ap length h,
        length-take r.m_bytes_read (r.m_header ++ bytes_of r.m_payload_buffer),
        length-append r.m_header (bytes_of r.m_payload_buffer),
        g.width,
      ))

  read_header_left : (r : ReadProgress) → Read.is_header_completed r ≡ false → r.m_bytes_read ≤ 4
  unfolding Read.is_header_completed
  read_header_left r h = ground (arith, h)

  read_more_payload :
      (r : ReadProgress)
      → Stage e r
      → is_payload_buffer_valid r ≡ true
      → (room : ℕ) × (get_buffer_for_unread_payload r ≡ ok room)
  unfolding get_buffer_for_unread_payload
  read_more_payload r (heading low none_) v = absurd (ground (arith, v, no_payload r none_))
  read_more_payload r (loading mem there size some_ bound high top) v = (
    r.m_payload_buffer.m_size - (r.m_bytes_read - 4),
    ground (arith, v, high, top, ap (λ (b : Buffer). b.m_size) there),
  )

  read_behind :
      (garbage : ℕ → ℕ) (r : ReadProgress) (room : ℕ) (bytes : List ℕ)
      → get_buffer_for_unread_payload r ≡ ok room
      → Read.is_header_completed (Read.add_bytes e garbage (length bytes) (fill_payload bytes r))
        ≡ true
  unfolding get_buffer_for_unread_payload Read.is_header_completed Read.add_bytes fill_payload
  read_behind garbage r room bytes h =
      let (high, _) = ensure_ok (leb header_size r.m_bytes_read) _ h in ground (arith, high)

  read_total :
      (garbage : ℕ → ℕ) → Answers (read_medium e garbage) (frame e) (read_laws e garbage laws)
  unfolding read_laws read_kind
  read_total garbage = record {
    first = read_first;
    more_header = λ r g h. read_more_header r (read_header_left r h);
    more_payload = λ r g h v. read_more_payload r g.stage v;
    behind_header = read_behind garbage;
    answers = λ r g. (Read.is_payload_completed r, refl);
  }

  -- Sending leaves the operations as they are.
  unfilled :
      (phase : Phase) (bytes : List ℕ) (ops : List (OperationData WriteProgress))
      → fill_first (write_medium e) phase bytes ops ≡ ops
  unfilled phase bytes [] = refl
  unfilled phase bytes (d ∷ ds) = refl

  -- In every state that the writing side of an endpoint can reach while an operation on the
  -- socket is under way, there is an operation in progress and no assertion fails in its handler:
  -- it returns, whatever the error code, for every leading part of its buffer that was sent.
  pub writes_return :
      (t : Timer) (s : Socket) {w : World WriteProgress} (phase : Phase) (ec : ErrorCode)
      (bytes : List ℕ)
      → Reach (write_medium e) (idle_line t s) w
      → w.in_flight ≡ some phase
      → Fit (write_medium e) phase bytes w.operations
      → (turn : Turn WriteProgress (List ℕ)) × (handle
            (write_medium e)
            phase
            ec
            (length bytes)
            w.operations
            w.timer
            w.socket
          ≡ ok turn)
  writes_return t s {w} phase ec bytes r f fit =
      subst
        (λ ops.
          (turn : Turn WriteProgress (List ℕ)) × (handle (write_medium e) phase ec (length bytes)
              ops w.timer w.socket
            ≡ ok turn))
        (unfilled phase bytes w.operations)
        (Reach-Returns (write_medium e) (frame e) (write_laws e laws) write_total t s phase ec bytes
          r f fit)

  -- In every state that the reading side of an endpoint can reach while an operation on the
  -- socket is under way, there is an operation in progress and no assertion fails in its handler:
  -- it returns, whatever the error code and whatever bytes have come, if they fit its buffer.
  pub reads_return :
      (garbage : ℕ → ℕ) (t : Timer) (s : Socket) {w : World ReadProgress} (phase : Phase)
      (ec : ErrorCode) (bytes : List ℕ)
      → Reach (read_medium e garbage) (idle_line t s) w
      → w.in_flight ≡ some phase
      → Fit (read_medium e garbage) phase bytes w.operations
      → (turn : Turn ReadProgress ℕ) × (handle
            (read_medium e garbage)
            phase
            ec
            (length bytes)
            (fill_first (read_medium e garbage) phase bytes w.operations)
            w.timer
            w.socket
          ≡ ok turn)
  reads_return garbage t s phase ec bytes r f fit =
      Reach-Returns (read_medium e garbage) (frame e) (read_laws e garbage laws)
        (read_total garbage) t s phase ec bytes r f fit
