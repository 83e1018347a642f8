-- ===== src/Utils/Buffer.antt =====
-- buffer (utils/internal/buffer/buffer.cpp): an owned block of bytes. Ownership is unique, so the
-- block is part of the value; a move gives it to another value and leaves the empty buffer.
pub mod Contents
mod Tests
use common.Base.{
  ℕ, zero, suc, ◌+◌, none, some, Bool, true, false, not, leb, ◌==◌, if◌then◌else◌, Outcome, ok,
  throws, out_of_range, ◌>>=◌,
}
use common.Utils.Memory.{Pointer, read, write, block}

pub record Buffer : Type 0 where
  pub m_buffer : Pointer
  pub m_size : ℕ

-- `buffer()`
unfoldable pub empty : Buffer
empty = record { m_buffer = none; m_size = 0 }

-- `buffer(size)`
unfoldable pub create : (ℕ → ℕ) → ℕ → Buffer
create garbage size = record { m_buffer = some (block garbage size); m_size = size }

-- `buffer(buffer &&other)`: the new buffer, and what is left in `other`
unfoldable pub move_from : Buffer → Buffer × Buffer
unfolding empty
move_from other = (
  record { m_buffer = other.m_buffer; m_size = other.m_size },
  record { m_buffer = empty.m_buffer; m_size = empty.m_size },
)

-- `*this = std::move(other)` swaps: `*this` and `other` afterwards
unfoldable pub move_assign : Buffer → Buffer → Buffer × Buffer
move_assign this other = (
  record { m_buffer = other.m_buffer; m_size = other.m_size },
  record { m_buffer = this.m_buffer; m_size = this.m_size },
)

-- the loop of `copy`, with `left` rounds to go from index `i`
unfoldable pub copy_loop : Pointer → Pointer → ℕ → ℕ → Outcome Pointer
copy_loop from to i zero = ok to
copy_loop from to i (suc left) = do
  b ← read from i
  to' ← write to i b
  copy_loop from to' (i + 1) left

unfoldable pub copy : (ℕ → ℕ) → Buffer → Outcome Buffer
unfolding copy_loop create
copy garbage this = do
  let buf = create garbage this.m_size
  bytes ← copy_loop this.m_buffer buf.m_buffer 0 buf.m_size
  ok (record buf { m_buffer = bytes })

-- `operator[]`, read and written
unfoldable pub get : Buffer → ℕ → Outcome ℕ
get this pos = read this.m_buffer pos

unfoldable pub put : Buffer → ℕ → ℕ → Outcome Buffer
put this pos b = do bytes ← write this.m_buffer pos b; ok (record this { m_buffer = bytes })

unfoldable pub to_bool : Buffer → Bool
to_bool this = elim this.m_buffer [ none ↦ false | some bytes ↦ true ]

unfoldable pub at : Buffer → ℕ → Outcome ℕ
unfolding get
at this pos = if leb this.m_size pos then throws out_of_range else get this pos

-- the loop of `operator==`
unfoldable pub equal_loop : Buffer → Buffer → ℕ → ℕ → Outcome Bool
unfolding get
equal_loop lhs rhs i zero = ok true
equal_loop lhs rhs i (suc left) = do
  a ← get lhs i
  b ← get rhs i
  let rest = equal_loop lhs rhs (i + 1) left
  if not (a == b) then ok false else rest

unfoldable pub equal : Buffer → Buffer → Outcome Bool
unfolding equal_loop
equal lhs rhs = if not (lhs.m_size == rhs.m_size) then ok false else equal_loop lhs rhs 0 lhs.m_size
