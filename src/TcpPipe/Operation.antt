-- ===== src/TcpPipe/Operation.antt =====
-- The progress of one message through the socket (pipe/tcp-pipe/tcp-pipe-endpoint.cpp). boost::endian is a parameter. A buffer that is handed to boost::asio
-- is its bytes, and what asio writes into it is put there by `fill`.
pub mod Write
pub mod Read
use common.Base.{
  ℕ, ◌+◌, ◌-◌, ◌%◌, ◌^◌, ◌<◌, ◌≡◌, List, [], ◌∷◌, ◌++◌, length, take, drop, Option, none, some,
  Bool, true, false, not, ◌&&◌, leb, ◌==◌, if◌then◌else◌, Outcome, ok, ensure, ◌>>=◌, ◌>>◌,
}
use common.Utils.Memory.{AllBytes}
use common.Utils.Buffer.{Buffer}
use common.Utils.Buffer
use common.Results.{PipeOpRes, is_op_success}
use common.Message.Types.{max_transfer_message_size}

-- boost::endian on a `uint32_t`: the memory of `native_to_big(n)`, and `big_to_native` of four
-- bytes of memory.
pub record Endian : Type 0 where
  pub native_to_big : ℕ → List ℕ
  pub big_to_native : List ℕ → ℕ

-- The documented behaviour: four bytes, and the two conversions undo each other.
pub record EndianLaws (e : Endian) : Type 0 where
  pub width : (n : ℕ) → length (e.native_to_big n) ≡ 4
  pub big_bytes : (n : ℕ) → AllBytes (e.native_to_big n)
  pub to_native : (n : ℕ) → n < 2 ^ 32 → e.big_to_native (e.native_to_big n) ≡ n
  pub to_big : (h : List ℕ) → length h ≡ 4 → AllBytes h → e.native_to_big (e.big_to_native h) ≡ h
  pub native_bound : (h : List ℕ) → length h ≡ 4 → AllBytes h → e.big_to_native h < 2 ^ 32

-- `s_header_size`
abbrev pub header_size : ℕ
header_size = 4

-- The bytes of a buffer.
abbrev pub bytes_of : Buffer → List ℕ
bytes_of b = elim b.m_buffer [ none ↦ [] | some bytes ↦ bytes ]

-- `bytes` put at place `n` of a block of memory.
abbrev pub put_at : ℕ → List ℕ → List ℕ → List ℕ
put_at n bytes mem = take n mem ++ (bytes ++ drop (n + length bytes) mem)
