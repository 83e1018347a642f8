-- ===== src/TcpPipe/Line/Reading/Kept.antt =====
-- The reads of a tcp_pipe_endpoint keep what a medium must keep.
use common.Base.{
  ℕ, ◌+◌, ◌-◌, ◌≤◌, ◌≡◌, refl, sym, ap, ◌∙◌, List, ◌++◌, length, arith, leb, true, false, ◌&&◌,
  length-append, take_all, ok, ensure_ok, ok_injective, subst,
}
use common.Utils.Memory.{AllBytes}
use common.Utils.Buffer.{Buffer}
use common.Utils.Buffer
use common.Results.{PipeOpRes, is_op_success}
use common.TcpPipe.Operation.{Endian, EndianLaws, bytes_of, header_size}
use common.TcpPipe.Operation.Read.{
  ReadProgress, add_bytes, is_payload_buffer_valid, get_buffer_for_unread_header,
  get_buffer_for_unread_payload, is_payload_completed, fill_header, fill_payload,
}
use common.TcpPipe.Impl.{read_kind}
use common.TcpPipe.Line.Framed.{Laws}
use common.TcpPipe.Line.Writing.{frame, Measured}
use common.TcpPipe.Line.Reading.{read_medium, received, Stage, heading, loading, GoodRead}
use common.TcpPipe.Line.Reading.Growth.{
  Grown, read_starts, heading_grows, no_room_grows, payload_grows,
}

pub no_payload :
    (r : ReadProgress) → r.m_payload_buffer ≡ Buffer.empty → is_payload_buffer_valid r ≡ false
unfolding is_payload_buffer_valid Buffer.empty
no_payload r h = ap Buffer.to_bool h

module _ (e : Endian) (garbage : ℕ → ℕ) (laws : EndianLaws e) where
  header_by_stage :
      (r : ReadProgress) (bytes : List ℕ) (room : ℕ)
      → GoodRead e r
      → Stage e r
      → get_buffer_for_unread_header r ≡ ok room
      → length bytes ≤ room
      → AllBytes bytes
      → Grown e garbage r (add_bytes e garbage (length bytes) (fill_header bytes r)) bytes
  unfolding get_buffer_for_unread_header
  header_by_stage r bytes room g (heading low none_) h fits new =
      let (low, f) = ensure_ok (leb r.m_bytes_read header_size) _ h in
      subst
        (λ b.
          let r' : ReadProgress = record r { m_payload_buffer = b } in
          Grown e garbage r' (add_bytes e garbage (length bytes) (fill_header bytes r')) bytes)
        (sym none_)
        (heading_grows e garbage r.m_bytes_read r.m_header bytes g.width g.bytes new
          (ground (arith, low, ok_injective f, fits)))
  header_by_stage r bytes room g (loading mem there size some_ bound high top) h fits new =
      let (low, f) = ensure_ok (leb r.m_bytes_read header_size) _ h in
      subst
        (λ b.
          let r' : ReadProgress = record r { m_payload_buffer = b } in
          Grown e garbage r' (add_bytes e garbage (length bytes) (fill_header bytes r')) bytes)
        (sym there)
        (no_room_grows e garbage r.m_bytes_read r.m_header mem bytes g.width g.bytes new size some_
          bound high (ground (arith, low, ok_injective f, fits)))

  payload_by_stage :
      (r : ReadProgress) (bytes : List ℕ) (room : ℕ)
      → GoodRead e r
      → Stage e r
      → get_buffer_for_unread_payload r ≡ ok room
      → length bytes ≤ room
      → Grown e garbage r (add_bytes e garbage (length bytes) (fill_payload bytes r)) bytes
  unfolding get_buffer_for_unread_payload Buffer.empty
  payload_by_stage r bytes room g (heading low none_) h fits =
      let (_, f) = ensure_ok (leb header_size r.m_bytes_read) _ h in
      let (valid, _) =
        ensure_ok
          (is_payload_buffer_valid r
            && leb r.m_bytes_read (r.m_payload_buffer.m_size + header_size))
          _ f in
      absurd (ground (arith, valid, no_payload r none_))
  payload_by_stage r bytes room g (loading mem there size some_ bound high top) h fits =
      let (_, f) = ensure_ok (leb header_size r.m_bytes_read) _ h in
      let (_, f') =
        ensure_ok
          (is_payload_buffer_valid r
            && leb r.m_bytes_read (r.m_payload_buffer.m_size + header_size))
          _ f in
      subst
        (λ n.
          let r' : ReadProgress = record r { m_bytes_read = n } in
          Grown e garbage r' (add_bytes e garbage (length bytes) (fill_payload bytes r')) bytes)
        {x = 4 + (r.m_bytes_read - 4)} (omega arith)
        (subst
          (λ b.
            let r' : ReadProgress = record {
              m_header = r.m_header;
              m_payload_buffer = b;
              m_bytes_read = 4 + (r.m_bytes_read - 4);
            } in
            Grown e garbage r' (add_bytes e garbage (length bytes) (fill_payload bytes r')) bytes)
          (sym there)
          (payload_grows e garbage (r.m_bytes_read - 4) r.m_header mem bytes g.width g.bytes size
            some_ bound (omega (arith, ok_injective f', ap (λ (b : Buffer). b.m_size) there))))

  pub whole_by_stage :
      (r : ReadProgress)
      → GoodRead e r
      → Stage e r
      → is_payload_completed r ≡ true
      → (received r ≡ frame e (bytes_of r.m_payload_buffer))
        × Measured (bytes_of r.m_payload_buffer)
  unfolding is_payload_completed
  whole_by_stage r g (heading low none_) h = absurd (ground (arith, h, no_payload r none_))
  whole_by_stage r g (loading mem there size some_ bound high top) h = rw (ap bytes_of there) (
    take_all (r.m_header ++ mem) (
          ground
            (arith, h, ap (λ (b : Buffer). b.m_size) there, length-append r.m_header mem, g.width))
        ∙ ap (λ t. t ++ mem)
            (sym (laws.to_big r.m_header g.width g.bytes) ∙ ap e.native_to_big size),
    (some_, omega arith),
  )

  read_keeps :
      (r : ReadProgress) (result : PipeOpRes)
      → is_op_success result ≡ false
      → ((read_kind e garbage).take result r).0 ≡ r
  unfolding read_kind
  read_keeps r result h = rw h refl

  unfoldable pub read_laws : Laws (read_medium e garbage) (frame e)
  unfolding read_kind no_payload header_by_stage payload_by_stage whole_by_stage read_keeps
  read_laws = record {
    Good = GoodRead e;
    held = received;
    Partial = λ bytes. Unit {0};
    nothing = tt;
    keeps = read_keeps;
    starts = read_starts e garbage;
    moves_header = λ r room bytes g b m. header_by_stage r bytes m.0 g g.stage m.1 m.2 m.3;
    moves_payload = λ r room bytes g b m. payload_by_stage r bytes m.0 g g.stage m.1 m.2;
    whole = λ r g h. (whole_by_stage r g g.stage (ok_injective h)).0;
    partial = λ r g. tt;
  }
