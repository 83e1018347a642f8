-- ===== src/TcpPipe/Line/Writing.antt =====
-- The writes of a tcp_pipe_endpoint as a medium, with frames of four bytes of size and a message.
use common.Base.{
  ℕ, ◌+◌, ◌-◌, ◌^◌, ◌<◌, ◌≤◌, ◌≡◌, refl, sym, ap, ◌∙◌, List, [], ◌∷◌, ◌++◌, append_assoc, length,
  take, drop, arith, leb, true, length-append, length-drop, take_all, ok, ensure_ok, ok_injective,
  subst,
}
use common.Utils.Buffer.{Buffer}
use common.TcpPipe.Slices.{drop_within, drop_past, take_more, take-append_drop}
use common.TcpPipe.Operation.{Endian, EndianLaws, bytes_of, header_size}
use common.TcpPipe.Operation.Write
use common.TcpPipe.Operation.Write.{
  WriteProgress, add_bytes, get_unwritten_header_buffer, get_unwritten_payload_buffer,
  is_payload_completed,
}
use common.TcpPipe.Impl.{write_kind}
use common.TcpPipe.Line.{Phase, in_header, in_payload, Medium}
use common.TcpPipe.Line.Framed.{Laws}

-- The bytes of a message on the line.
abbrev pub frame : Endian → List ℕ → List ℕ
frame e message = e.native_to_big (length message) ++ message

-- A message that the header can measure.
abbrev pub Measured : List ℕ → Type 0
Measured message = (0 < length message) × (length message < 2 ^ 32)

-- asio writes a leading part of the buffer that it is given.
abbrev pub Sends : Phase → WriteProgress → List ℕ → Type 0
Sends in_header w bytes = (rest : List ℕ) × (get_unwritten_header_buffer w ≡ ok (bytes ++ rest))
Sends in_payload w bytes = (rest : List ℕ) × (get_unwritten_payload_buffer w ≡ ok (bytes ++ rest))

-- A write of a message whose buffer is as large as it says.
abbrev pub StartsWrite : Endian → WriteProgress → Type 0
StartsWrite e w =
    (message : Buffer) × (message.m_size ≡ length (bytes_of message))
    × Measured (bytes_of message)
    × (w ≡ Write.create e message)

abbrev pub write_medium : Endian → Medium WriteProgress (List ℕ)
write_medium e = record {
  kind = write_kind;
  fill = λ phase bytes w. w;
  Moves = Sends;
  Starts = StartsWrite e;
  message = λ w. bytes_of w.m_payload_buffer;
}

abbrev pub written : WriteProgress → List ℕ
written w = take w.m_bytes_transferred (w.m_write_header_big_endian ++ bytes_of w.m_payload_buffer)

pub record GoodWrite (e : Endian) (w : WriteProgress) : Type 0 where
  pub size : w.m_payload_buffer.m_size ≡ length (bytes_of w.m_payload_buffer)
  pub measured : Measured (bytes_of w.m_payload_buffer)
  pub header : w.m_write_header_big_endian ≡ e.native_to_big (length (bytes_of w.m_payload_buffer))
  pub total : w.m_bytes_total ≡ 4 + length (bytes_of w.m_payload_buffer)
  pub transferred : w.m_bytes_transferred ≤ w.m_bytes_total

module _ (e : Endian) (laws : EndianLaws e) where
  write_starts : (w : WriteProgress) → StartsWrite e w → GoodWrite e w × (written w ≡ [])
  unfolding Write.create
  write_starts w (message, size, measured, eq) =
      subst (λ w. GoodWrite e w × (written w ≡ [])) (sym eq)
        (
          record {
            size = size;
            measured = measured;
            header = ap e.native_to_big (omega (arith, size, measured));
            total = ap (λ n. 4 + n) size;
            transferred = omega arith;
          },
          refl,
        )

  -- The bytes that follow what is written.
  grows :
      (w : WriteProgress) (bytes rest : List ℕ)
      → GoodWrite e w
      → drop w.m_bytes_transferred (w.m_write_header_big_endian ++ bytes_of w.m_payload_buffer)
        ≡ bytes ++ rest
      → GoodWrite e (add_bytes (length bytes) w)
        × (written (add_bytes (length bytes) w) ≡ written w ++ bytes)
  unfolding add_bytes
  grows w bytes rest g h = (
    record {
      size = g.size;
      measured = g.measured;
      header = g.header;
      total = g.total;
      transferred = fits;
    },
    take_more w.m_bytes_transferred _ bytes rest h,
  )
    where
      fits : w.m_bytes_transferred + length bytes ≤ w.m_bytes_total
      fits = omega (
        arith,
        ap length h,
        length-append bytes rest,
        g.total,
        g.transferred,
        length-drop w.m_bytes_transferred
            (w.m_write_header_big_endian ++ bytes_of w.m_payload_buffer),
        length-append w.m_write_header_big_endian (bytes_of w.m_payload_buffer),
        ap length g.header,
        laws.width (length (bytes_of w.m_payload_buffer)),
      )

  write_moves_header :
      (w : WriteProgress) (bytes rest : List ℕ)
      → GoodWrite e w
      → get_unwritten_header_buffer w ≡ ok (bytes ++ rest)
      → GoodWrite e (add_bytes (length bytes) w)
        × (written (add_bytes (length bytes) w) ≡ written w ++ bytes)
  unfolding get_unwritten_header_buffer
  write_moves_header w bytes rest g h =
      let (low, f) = ensure_ok (leb w.m_bytes_transferred header_size) _ h in
      grows w bytes (rest ++ bytes_of w.m_payload_buffer) g (
        drop_within w.m_bytes_transferred w.m_write_header_big_endian (bytes_of w.m_payload_buffer)
          (ground
            (arith, low, ap length g.header, laws.width (length (bytes_of w.m_payload_buffer))))
        ∙ ap (λ r. r ++ bytes_of w.m_payload_buffer) (ok_injective f)
        ∙ append_assoc bytes rest (bytes_of w.m_payload_buffer))

  write_moves_payload :
      (w : WriteProgress) (bytes rest : List ℕ)
      → GoodWrite e w
      → get_unwritten_payload_buffer w ≡ ok (bytes ++ rest)
      → GoodWrite e (add_bytes (length bytes) w)
        × (written (add_bytes (length bytes) w) ≡ written w ++ bytes)
  unfolding get_unwritten_payload_buffer
  write_moves_payload w bytes rest g h =
      let (high, f) = ensure_ok (leb header_size w.m_bytes_transferred) _ h in
      let (_, f') = ensure_ok (leb w.m_bytes_transferred w.m_bytes_total) _ f in
      grows w bytes rest g (
        ap (λ n. drop n (w.m_write_header_big_endian ++ bytes_of w.m_payload_buffer))
          {y = length w.m_write_header_big_endian + (w.m_bytes_transferred - 4)}
          (ground
            (arith, high, ap length g.header, laws.width (length (bytes_of w.m_payload_buffer))))
        ∙ drop_past (w.m_bytes_transferred - 4) w.m_write_header_big_endian
            (bytes_of w.m_payload_buffer)
        ∙ ok_injective f')

  write_whole :
      (w : WriteProgress)
      → GoodWrite e w
      → is_payload_completed w ≡ ok true
      → written w ≡ frame e (bytes_of w.m_payload_buffer)
  unfolding is_payload_completed
  write_whole w g h =
      let (_, f) = ensure_ok (leb w.m_bytes_transferred w.m_bytes_total) _ h in
      take_all (w.m_write_header_big_endian ++ bytes_of w.m_payload_buffer) (
        ground (
          arith,
          ok_injective f,
          g.total,
          ap length g.header,
          laws.width (length (bytes_of w.m_payload_buffer)),
          length-append w.m_write_header_big_endian (bytes_of w.m_payload_buffer),
        ))
      ∙ ap (λ r. r ++ bytes_of w.m_payload_buffer) g.header

  -- What a write may leave on the line: a leading part of a frame.
  abbrev pub Begun : List ℕ → Type 0
  Begun bytes =
      (message : List ℕ) × (rest : List ℕ) × (bytes ++ rest ≡ frame e message) × Measured message

  write_begun : (w : WriteProgress) → GoodWrite e w → Begun (written w)
  write_begun w g = (
    bytes_of w.m_payload_buffer,
    drop w.m_bytes_transferred (w.m_write_header_big_endian ++ bytes_of w.m_payload_buffer),
    take-append_drop w.m_bytes_transferred _ ∙ ap (λ r. r ++ bytes_of w.m_payload_buffer) g.header,
    g.measured,
  )

  unfoldable pub write_laws : Laws (write_medium e) (frame e)
  unfolding write_kind grows write_starts write_moves_header write_moves_payload write_whole
      write_begun
  write_laws = record {
    Good = GoodWrite e;
    held = written;
    Partial = Begun;
    nothing = (0 ∷ [], frame e (0 ∷ []), refl, omega arith);
    keeps = λ w r h. refl;
    starts = write_starts;
    moves_header = λ w r bytes g b m. write_moves_header w bytes m.0 g m.1;
    moves_payload = λ w r bytes g b m. write_moves_payload w bytes m.0 g m.1;
    whole = write_whole;
    partial = write_begun;
  }
