-- ===== src/Message/Endian/Value.antt =====
-- The conversions of transfer-message.cpp against the value of a list of digits in base 256.
use Prim.Native.Nat.{bit_or}
use native.Mathlib.Nat.{
  mul-add-mod_self_right, div-add-mod', mod-lt, pow-suc, one-le-pow, mod-eq_of_lt, pow-le-pow_right,
  le_trans,
}
use native.Mathlib.Numerals.{towards_suc}
use common.Base.{
  ℕ, zero, suc, ◌+◌, ◌-◌, ◌*◌, ◌/◌, ◌%◌, ◌^◌, ◌≤◌, ◌<◌, ◌≡◌, refl, ap, ◌∙◌, List, [], ◌∷◌, some,
  arith, length, drop, take, get_elem?, ok,
}
use common.Base.Bits.{bit_or-shifted, bit_and_byte}
use common.Utils.Memory.{AllBytes, read}
use common.Utils.View.{CbufferView}
use common.Utils.View
use common.Message.Endian.{
  to_uint_loop, to_uint32_to_big_endian, to_uint64_big_endian, from_uint_loop,
}

-- The number that the digits stand for, most significant first, after the digits of `acc`.
abbrev pub big_endian : ℕ → List ℕ → ℕ
big_endian acc [] = acc
big_endian acc (b ∷ bs) = big_endian (acc * 256 + b) bs

two-pow_byte : (k : ℕ) → 2 ^ (suc k * 8) ≡ 256 * 2 ^ (k * 8)
two-pow_byte k =
    ap (λ e. 2 ^ e) {y = k * 8 + 8} (omega arith) ∙ simp (towards_suc, pow-suc) (omega arith)

two-pow_pos : (k : ℕ) → 1 ≤ 2 ^ k
two-pow_pos k = one-le-pow k 2 (omega arith)

scale_lt : (b p : ℕ) → b < 256 → 1 ≤ p → b * p < 256 * p
scale_lt b p h q = grind arith

next_le : (b p : ℕ) → b < 256 → b * p + p ≤ 256 * p
next_le b p h = grind arith

byte-lt-two-pow : (left b : ℕ) → b < 256 → b * 2 ^ (left * 8) < 2 ^ (suc left * 8)
byte-lt-two-pow left b h =
    omega (arith, two-pow_byte left, scale_lt b (2 ^ (left * 8)) h (two-pow_pos (left * 8)))

-- A byte shifted within the word does not lose bits.
shift_fits :
    (width left b : ℕ)
    → b < 256
    → suc left * 8 ≤ width
    → b * 2 ^ (left * 8) % 2 ^ width ≡ b * 2 ^ (left * 8)
shift_fits width left b h w =
    mod-eq_of_lt (le_trans (byte-lt-two-pow left b h) (pow-le-pow_right (omega arith) w))

-- One round: the digits read so far stand above the byte, and it joins them.
join_byte :
    (left acc b : ℕ)
    → b < 256
    → bit_or (acc * 2 ^ (suc left * 8)) (b * 2 ^ (left * 8)) ≡ (acc * 256 + b) * 2 ^ (left * 8)
join_byte left acc b h =
    bit_or-shifted (suc left * 8) acc (b * 2 ^ (left * 8)) (byte-lt-two-pow left b h)
    ∙ omega (arith, ap (λ (t : ℕ). acc * t) (two-pow_byte left))

-- The first of the elements from an index on, and the others.
take-drop_head :
    (i n : ℕ) (mem : List ℕ) (b : ℕ) (bs : List ℕ)
    → take (suc n) (drop i mem) ≡ b ∷ bs
    → (get_elem? mem i ≡ some b) × (take n (drop (i + 1) mem) ≡ bs)
take-drop_head zero n [] b bs h = cc
take-drop_head zero n (x ∷ mem) b bs h = ground arith
take-drop_head (suc i) n [] b bs h = cc
take-drop_head (suc i) n (x ∷ mem) b bs h = ground (arith, take-drop_head i n mem b bs)

get-some :
    (v : CbufferView) (mem : List ℕ) (i b : ℕ)
    → v.m_buffer ≡ some mem
    → get_elem? mem i ≡ some b
    → View.get v i ≡ ok b
unfolding View.get read
get-some v mem i b h e = ground arith

-- The loop of the readers ends with the value of the bytes that it reads.
pub to_uint_loop_lem :
    (width : ℕ) (v : CbufferView) (mem : List ℕ) (acc i : ℕ) (bs : List ℕ)
    → v.m_buffer ≡ some mem
    → i + length bs ≡ v.m_size
    → take (length bs) (drop i mem) ≡ bs
    → AllBytes bs
    → length bs * 8 ≤ width
    → to_uint_loop width v (acc * 2 ^ (length bs * 8)) i (length bs) ≡ ok (big_endian acc bs)
unfolding to_uint_loop
to_uint_loop_lem width v mem acc i [] hm hs ht hb hw = ap ok (omega arith)
to_uint_loop_lem width v mem acc i (b ∷ bs) hm hs ht hb hw =
    let (at, later) = take-drop_head i (length bs) mem b bs ht in
    let shift : (v.m_size - i - 1) * 8 ≡ length bs * 8 = omega arith in
    rw
      (
        get-some v mem i b hm at,
        shift,
        shift_fits width (length bs) b hb.0 hw,
        join_byte (length bs) acc b hb.0,
      )
      (to_uint_loop_lem width v mem (acc * 256 + b) (i + 1) bs hm (omega arith) later hb.1
        (omega arith))

-- A remainder by 256 p, from the digit above p and what is below.
mod-mul_byte : (n p : ℕ) → 1 ≤ p → n % (256 * p) ≡ n / p % 256 * p + n % p
mod-mul_byte n p h =
    ap (λ (t : ℕ). t % (256 * p)) whole
    ∙ mul-add-mod_self_right (n / p / 256) (256 * p) (n / p % 256 * p + n % p)
    ∙ mod-eq_of_lt below
  where
    quotient : n / p ≡ n / p / 256 * 256 + n / p % 256
    quotient = omega arith

    whole : n ≡ n / p / 256 * (256 * p) + (n / p % 256 * p + n % p)
    whole = omega (arith, div-add-mod' n p, ap (λ (t : ℕ). t * p) quotient)

    below : n / p % 256 * p + n % p < 256 * p
    below = omega (arith, mod-lt n h, next_le (n / p % 256) p (omega arith))

-- The digits of a number stand for it.
pub big_endian-from_uint_loop :
    (acc number k : ℕ)
    → big_endian acc (from_uint_loop number k) ≡ acc * 2 ^ (k * 8) + number % 2 ^ (k * 8)
unfolding from_uint_loop
big_endian-from_uint_loop acc number zero = omega arith
big_endian-from_uint_loop acc number (suc k) =
    rw
      (
        bit_and_byte (number / 2 ^ (k * 8)),
        big_endian-from_uint_loop (acc * 256 + number / 2 ^ (k * 8) % 256) number k,
      )
      (omega (
        arith,
        mod-mul_byte number (2 ^ (k * 8)) (two-pow_pos (k * 8)),
        ap (λ (t : ℕ). acc * t) (two-pow_byte k),
        ap (λ (t : ℕ). number % t) (two-pow_byte k),
      ))

-- The digits are bytes, and there are as many as asked for.
pub from_uint_loop-AllBytes : (number k : ℕ) → AllBytes (from_uint_loop number k)
unfolding from_uint_loop
from_uint_loop-AllBytes number zero = tt
from_uint_loop-AllBytes number (suc k) =
    (omega (arith, bit_and_byte (number / 2 ^ (k * 8))), from_uint_loop-AllBytes number k)

pub length-from_uint_loop : (number k : ℕ) → length (from_uint_loop number k) ≡ k
unfolding from_uint_loop
length-from_uint_loop number zero = refl
length-from_uint_loop number (suc k) = ap suc (length-from_uint_loop number k)

module _ (v : CbufferView) (mem : List ℕ) (bs : List ℕ) (hm : v.m_buffer ≡ some mem)
    (hs : length bs ≡ v.m_size) (ht : take (length bs) mem ≡ bs) (hb : AllBytes bs) where
  -- Four readable bytes are read as their value.
  pub to_uint32_value : length bs ≡ 4 → to_uint32_to_big_endian v ≡ ok (big_endian 0 bs)
  unfolding to_uint32_to_big_endian
  to_uint32_value four =
      ground (arith, to_uint_loop_lem 32 v mem 0 0 bs hm (omega arith) ht hb (omega arith))

  pub to_uint64_value : length bs ≡ 8 → to_uint64_big_endian v ≡ ok (big_endian 0 bs)
  unfolding to_uint64_big_endian
  to_uint64_value eight =
      ground (arith, to_uint_loop_lem 64 v mem 0 0 bs hm (omega arith) ht hb (omega arith))
