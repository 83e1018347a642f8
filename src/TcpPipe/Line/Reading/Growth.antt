-- ===== src/TcpPipe/Line/Reading/Growth.antt =====
-- How a read of a tcp_pipe_endpoint grows by the bytes that come.
use common.Base.{
  ℕ, ◌+◌, ◌-◌, ◌<◌, ◌≤◌, ◌≡◌, refl, sym, ap, ◌∙◌, List, [], ◌∷◌, ◌++◌, append_assoc, length, take,
  drop, arith, leb, ◌==◌, not, ◌&&◌, Bool-cases, inl, inr, some, length-append, length-drop,
  length-take, subst,
}
use common.Utils.Memory.{AllBytes, block, length-block}
use common.Utils.Buffer.{Buffer}
use common.Utils.Buffer
use common.Message.Types.{max_transfer_message_size}
use common.Message.Decode.Fields.{AllBytes-append}
use common.TcpPipe.Slices.{take_within, take_past, take_put, take-append_drop, All-take, All-drop}
use common.TcpPipe.Operation.{Endian, put_at}
use common.TcpPipe.Operation.Read
use common.TcpPipe.Operation.Read.{
  ReadProgress, add_bytes, payload_for, is_payload_buffer_valid, get_buffer_for_unread_header,
  get_buffer_for_unread_payload, is_payload_completed, fill_header, fill_payload,
}
use common.TcpPipe.Line.Reading.{received, Stage, heading, loading, GoodRead}

length-put_at :
    (n : ℕ) (bytes mem : List ℕ)
    → n + length bytes ≤ length mem
    → length (put_at n bytes mem) ≡ length mem
length-put_at n bytes mem h = omega (
  arith,
  length-append (take n mem) (bytes ++ drop (n + length bytes) mem),
  length-append bytes (drop (n + length bytes) mem),
  length-drop (n + length bytes) mem,
  length-take n mem,
)

put_at-AllBytes :
    (n : ℕ) (bytes mem : List ℕ) → AllBytes bytes → AllBytes mem → AllBytes (put_at n bytes mem)
put_at-AllBytes n bytes mem h k =
    AllBytes-append (take n mem) _ (All-take _ n mem k)
      (AllBytes-append bytes (drop (n + length bytes) mem) h (All-drop _ (n + length bytes) mem k))

module _ (e : Endian) (garbage : ℕ → ℕ) where
  abbrev pub Grown : ReadProgress → ReadProgress → List ℕ → Type 0
  Grown r r' bytes = GoodRead e r' × (received r' ≡ received r ++ bytes)

  pub read_starts : (r : ReadProgress) → r ≡ Read.create → GoodRead e r × (received r ≡ [])
  unfolding Read.create
  read_starts r eq =
      subst (λ r. GoodRead e r × (received r ≡ [])) (sym eq)
        (record { width = refl; bytes = omega arith; stage = heading (omega arith) refl }, refl)

  -- What a buffer that is made for a message holds.
  made :
      (h : List ℕ) (size : ℕ)
      → e.big_to_native h ≡ size
      → Stage e (record {
        m_header = h;
        m_payload_buffer = payload_for e garbage size Buffer.empty;
        m_bytes_read = 4;
      })
  unfolding Buffer.create
  made h size eq = elim (Bool-cases (not (size == 0) && leb size max_transfer_message_size)) [
    | inr refused ↦ rw refused (heading (omega arith) refl)
    | inl fits ↦ rw fits (
        loading (block garbage size)
          (ap (λ n. record { m_buffer = some (block garbage size); m_size = n })
            (sym (length-block garbage size)))
          (eq ∙ sym (length-block garbage size)) (ground (arith, length-block garbage size, fits))
          (ground (arith, length-block garbage size, fits)) (omega arith) (omega arith))
  ]

  -- What is received of the header, whatever the buffer of the payload holds.
  header_received :
      (n : ℕ) (h bytes p q : List ℕ)
      → length h ≡ 4
      → n + length bytes ≤ 4
      → take (n + length bytes) (put_at n bytes h ++ p) ≡ take n (h ++ q) ++ bytes
  header_received n h bytes p q width fits =
      take_within (n + length bytes) (put_at n bytes h) p (omega (arith, length-put_at n bytes h))
      ∙ take_put n h bytes (drop (n + length bytes) h) (omega arith)
      ∙ ap (λ t. t ++ bytes) (sym (take_within n h q (omega arith)))

  pub heading_grows :
      (n : ℕ) (h bytes : List ℕ)
      → length h ≡ 4
      → AllBytes h
      → AllBytes bytes
      → n + length bytes ≤ 4
      → let r : ReadProgress = record {
        m_header = h;
        m_payload_buffer = Buffer.empty;
        m_bytes_read = n;
      } in
        Grown r (add_bytes e garbage (length bytes) (fill_header bytes r)) bytes
  unfolding add_bytes fill_header Buffer.empty
  heading_grows n h bytes width all new fits = elim (Bool-cases (n + length bytes == 4)) [
    | inl whole ↦ rw whole (
      record {
        width = length-put_at n bytes h (omega arith) ∙ width;
        bytes = put_at-AllBytes n bytes h new all;
        stage =
            subst
              (λ k. Stage e (record {
                m_header = put_at n bytes h;
                m_payload_buffer =
                    payload_for e garbage (e.big_to_native (put_at n bytes h)) Buffer.empty;
                m_bytes_read = k;
              }))
              (ground (arith, whole))
              (made (put_at n bytes h) (e.big_to_native (put_at n bytes h)) refl);
      },
      header_received n h bytes _ [] width fits,
    )
    | inr part ↦ rw part (
      record {
        width = length-put_at n bytes h (omega arith) ∙ width;
        bytes = put_at-AllBytes n bytes h new all;
        stage = heading fits refl;
      },
      header_received n h bytes _ [] width fits,
    )
  ]

  -- A header that is whole has no room left.
  pub no_room_grows :
      (n : ℕ) (h mem bytes : List ℕ)
      → length h ≡ 4
      → AllBytes h
      → AllBytes bytes
      → e.big_to_native h ≡ length mem
      → 0 < length mem
      → length mem ≤ max_transfer_message_size
      → 4 ≤ n
      → n + length bytes ≤ 4
      → let r : ReadProgress = record {
        m_header = h;
        m_payload_buffer = record { m_buffer = some mem; m_size = length mem };
        m_bytes_read = n;
      } in
        Grown r (add_bytes e garbage (length bytes) (fill_header bytes r)) bytes
  unfolding add_bytes fill_header
  no_room_grows n h mem bytes width all new size some_ low high fits = (
    record {
      width = length-put_at n bytes h (omega arith) ∙ width;
      bytes = put_at-AllBytes n bytes h new all;
      stage =
          loading mem refl (ap e.big_to_native (same bytes (omega arith)) ∙ size) some_ low
            (omega arith) (omega arith);
    },
    header_received n h bytes mem mem width fits,
  )
    where
      same : (bytes : List ℕ) → length bytes ≡ 0 → put_at n bytes h ≡ h
      same [] nil = ap (λ k. take n h ++ drop k h) {y = n} (omega arith) ∙ take-append_drop n h
      same (b ∷ bytes) nil = absurd (omega arith)

  pub payload_grows :
      (k : ℕ) (h mem bytes : List ℕ)
      → length h ≡ 4
      → AllBytes h
      → e.big_to_native h ≡ length mem
      → 0 < length mem
      → length mem ≤ max_transfer_message_size
      → k + length bytes ≤ length mem
      → let r : ReadProgress = record {
        m_header = h;
        m_payload_buffer = record { m_buffer = some mem; m_size = length mem };
        m_bytes_read = 4 + k;
      } in
        Grown r (add_bytes e garbage (length bytes) (fill_payload bytes r)) bytes
  unfolding add_bytes fill_payload
  payload_grows k h mem bytes width all size some_ low fits = rw (index k) (
    record {
      width = width;
      bytes = all;
      stage =
          loading (put_at k bytes mem)
            (ap (λ n. record { m_buffer = some (put_at k bytes mem); m_size = n })
              (sym (length-put_at k bytes mem fits)))
            (size ∙ sym (length-put_at k bytes mem fits))
            (omega (arith, length-put_at k bytes mem fits))
            (omega (arith, length-put_at k bytes mem fits)) (omega arith)
            (omega (arith, length-put_at k bytes mem fits));
    },
    come,
  )
    where
      index : (k : ℕ) → 4 + k - 4 ≡ k
      index k = omega arith

      come :
          take (4 + k + length bytes) (h ++ put_at k bytes mem) ≡ take (4 + k) (h ++ mem) ++ bytes
      come =
          ap (λ n. take n (h ++ put_at k bytes mem)) {y = length h + (k + length bytes)}
            (omega arith)
          ∙ take_past (k + length bytes) h (put_at k bytes mem)
          ∙ ap (λ t. h ++ t) (take_put k mem bytes (drop (k + length bytes) mem) (omega arith))
          ∙ sym (append_assoc h (take k mem) bytes)
          ∙ ap (λ t. t ++ bytes)
              (sym (take_past k h mem) ∙ ap (λ n. take n (h ++ mem)) {y = 4 + k} (omega arith))
