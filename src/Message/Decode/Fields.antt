-- ===== src/Message/Decode/Fields.antt =====
-- The fields of a received message as functions of its bytes, and the reads that fetch them.
use common.Base.{
  ℕ, zero, suc, ◌+◌, ◌≤◌, ◌≡◌, List, [], ◌∷◌, ◌++◌, some, arith, length, take, drop, length-take,
  length-drop, ok,
}
use common.Utils.Memory.{AllBytes, read}
use common.Utils.View.{CbufferView}
use common.Utils.View
use common.Message.Types.{to_type, type_byte}
use common.Message.Endian.{to_uint32_to_big_endian, to_uint64_big_endian}
use common.Message.Endian.Value.{big_endian, to_uint32_value, to_uint64_value}
use common.Message.Decode.{field, extract_message_size}

-- A view of received bytes: it points at `mem`, which holds at least its size.
pub record Shows (v : CbufferView) (mem : List ℕ) : Type 0 where
  pub points : v.m_buffer ≡ some mem
  pub within : v.m_size ≤ length mem
  pub are_bytes : AllBytes mem

-- The number in the `width` bytes at `start`.
abbrev pub number_at : ℕ → ℕ → List ℕ → ℕ
number_at start width mem = big_endian 0 (take width (drop start mem))

abbrev pub first_byte : List ℕ → ℕ
first_byte [] = 0
first_byte (b ∷ mem) = b

AllBytes-drop : (n : ℕ) (mem : List ℕ) → AllBytes mem → AllBytes (drop n mem)
AllBytes-drop zero mem h = h
AllBytes-drop (suc n) [] h = tt
AllBytes-drop (suc n) (b ∷ mem) h = AllBytes-drop n mem h.1

AllBytes-take : (n : ℕ) (mem : List ℕ) → AllBytes mem → AllBytes (take n mem)
AllBytes-take zero mem h = tt
AllBytes-take (suc n) [] h = tt
AllBytes-take (suc n) (b ∷ mem) h = (h.0, AllBytes-take n mem h.1)

pub AllBytes-append : (xs ys : List ℕ) → AllBytes xs → AllBytes ys → AllBytes (xs ++ ys)
AllBytes-append [] ys h k = k
AllBytes-append (b ∷ xs) ys h k = (h.0, AllBytes-append xs ys h.1 k)

module _ (v : CbufferView) (mem : List ℕ) (points : v.m_buffer ≡ some mem) (bytes : AllBytes mem)
    (start : ℕ) where
  filled : (width : ℕ) → start + width ≤ length mem → length (take width (drop start mem)) ≡ width
  filled width h = omega (arith, length-take width (drop start mem), length-drop start mem)

  pub read_number32 :
      start + 4 ≤ length mem
      → to_uint32_to_big_endian (field v start 4) ≡ ok (number_at start 4 mem)
  read_number32 h =
      to_uint32_value (field v start 4) (drop start mem) (take 4 (drop start mem)) (rw points)
        (filled 4 h) (rw (filled 4 h))
        (AllBytes-take 4 (drop start mem) (AllBytes-drop start mem bytes)) (filled 4 h)

  pub read_number64 :
      start + 8 ≤ length mem → to_uint64_big_endian (field v start 8) ≡ ok (number_at start 8 mem)
  read_number64 h =
      to_uint64_value (field v start 8) (drop start mem) (take 8 (drop start mem)) (rw points)
        (filled 8 h) (rw (filled 8 h))
        (AllBytes-take 8 (drop start mem) (AllBytes-drop start mem bytes)) (filled 8 h)

pub type_byte-to_type : (b : ℕ) → type_byte (to_type b) ≡ b
unfolding type_byte to_type
type_byte-to_type b = ground arith

pub read_first :
    (v : CbufferView) (mem : List ℕ)
    → Shows v mem
    → 1 ≤ v.m_size
    → View.get v 0 ≡ ok (first_byte mem)
unfolding View.get read
read_first v [] s h = absurd (omega (arith, s.within))
read_first v (b ∷ mem) s h = rw s.points

pub extract_message_size_lem :
    (v : CbufferView) (mem : List ℕ)
    → Shows v mem
    → 5 ≤ v.m_size
    → extract_message_size v ≡ ok (number_at 1 4 mem)
unfolding extract_message_size
extract_message_size_lem v mem s h =
    read_number32 v mem s.points s.are_bytes 1 (omega (arith, s.within))
