-- ===== src/Message/Endian.antt =====
-- The big-endian conversions of transfer-message.cpp.
pub mod Value
use Prim.Native.Nat.{bit_and, bit_or}
use common.Base.{
  ℕ, zero, suc, ◌+◌, ◌-◌, ◌*◌, ◌/◌, ◌%◌, ◌^◌, List, [], ◌∷◌, ◌==◌, Outcome, ok, ensure, ◌>>=◌, ◌>>◌,
}
use common.Utils.View.{CbufferView}
use common.Utils.View

-- The loop of both readers, at `width` bits, with `left` rounds to go from index `i`. The shift
-- drops what leaves the word.
unfoldable pub to_uint_loop : ℕ → CbufferView → ℕ → ℕ → ℕ → Outcome ℕ
to_uint_loop width bytes ans i zero = ok ans
to_uint_loop width bytes ans i (suc left) = do
  b ← View.get bytes i
  let shift = (bytes.m_size - i - 1) * 8
  let add_bits = b * 2 ^ shift % 2 ^ width
  to_uint_loop width bytes (bit_or ans add_bits) (i + 1) left

unfoldable pub to_uint32_to_big_endian : CbufferView → Outcome ℕ
to_uint32_to_big_endian bytes = do
  ensure (bytes.m_size == 4)
  to_uint_loop 32 bytes 0 0 bytes.m_size

unfoldable pub to_uint64_big_endian : CbufferView → Outcome ℕ
to_uint64_big_endian bytes = do ensure (bytes.m_size == 8); to_uint_loop 64 bytes 0 0 bytes.m_size

-- The loop of both writers: the bytes of the array from index `max_size - left` on.
unfoldable pub from_uint_loop : ℕ → ℕ → List ℕ
from_uint_loop number zero = []
from_uint_loop number (suc left) =
    bit_and (number / 2 ^ (left * 8)) 0xFF ∷ from_uint_loop number left

unfoldable pub from_uint32_to_big_endian : ℕ → List ℕ
from_uint32_to_big_endian number = from_uint_loop number 4

unfoldable pub from_uint64_big_endian : ℕ → List ℕ
from_uint64_big_endian number = from_uint_loop number 8
