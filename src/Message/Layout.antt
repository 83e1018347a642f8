-- ===== src/Message/Layout.antt =====
-- The fields of the bytes that the creators of transfer-message.cpp write, read back.
use common.Base.{
  ℕ, suc, ◌+◌, ◌^◌, ◌<◌, ◌≡◌, refl, ap, ◌∙◌, List, [], ◌∷◌, ◌++◌, append_assoc, arith, length,
  length-append, take, drop, drop-append, slice_middle,
}
use common.Utils.Memory.{AllBytes}
use common.Message.Types.{TransferMsgType, type_byte}
use common.Message.Endian.{from_uint32_to_big_endian, from_uint64_big_endian}
use common.Message.Endian.Value.{big_endian, big_endian-from_uint_loop, from_uint_loop-AllBytes}
use common.Message.Encode.Layout.{leading, length-from_uint32, length-from_uint64}
use common.Message.Encode.Create.{length-leading}
use common.Message.Decode.Fields.{number_at, AllBytes-append}

pub big_endian-from_uint32 :
    (number : ℕ) → number < 2 ^ 32 → big_endian 0 (from_uint32_to_big_endian number) ≡ number
unfolding from_uint32_to_big_endian
big_endian-from_uint32 number h = big_endian-from_uint_loop 0 number 4 ∙ omega arith

pub big_endian-from_uint64 :
    (number : ℕ) → number < 2 ^ 64 → big_endian 0 (from_uint64_big_endian number) ≡ number
unfolding from_uint64_big_endian
big_endian-from_uint64 number h = big_endian-from_uint_loop 0 number 8 ∙ omega arith

pub from_uint32-AllBytes : (number : ℕ) → AllBytes (from_uint32_to_big_endian number)
unfolding from_uint32_to_big_endian
from_uint32-AllBytes number = from_uint_loop-AllBytes number 4

from_uint64-AllBytes : (number : ℕ) → AllBytes (from_uint64_big_endian number)
unfolding from_uint64_big_endian
from_uint64-AllBytes number = from_uint_loop-AllBytes number 8

module _ (type : TransferMsgType) (number : ℕ) (payload trailer : List ℕ) where
  abbrev pub message : List ℕ
  message = leading type number payload ++ trailer

  abbrev size_bytes : List ℕ
  size_bytes = from_uint32_to_big_endian (length payload)

  abbrev number_bytes : List ℕ
  number_bytes = from_uint64_big_endian number

  pub message_size : length payload < 2 ^ 32 → number_at 1 4 message ≡ length payload
  message_size h = ap (big_endian 0) slice ∙ big_endian-from_uint32 (length payload) h
    where
      slice : take 4 (drop 1 message) ≡ size_bytes
      slice = simp append_assoc (
          slice_middle (type_byte type ∷ []) size_bytes (payload ++ (number_bytes ++ trailer)) refl
            (length-from_uint32 (length payload)))

  pub message_payload : take (length payload) (drop 5 message) ≡ payload
  message_payload = simp append_assoc (
      slice_middle (type_byte type ∷ size_bytes) payload (number_bytes ++ trailer)
        (ap suc (length-from_uint32 (length payload))) refl)

  pub message_number : number < 2 ^ 64 → number_at (5 + length payload) 8 message ≡ number
  message_number h = ap (big_endian 0) slice ∙ big_endian-from_uint64 number h
    where
      slice : take 8 (drop (5 + length payload) message) ≡ number_bytes
      slice = rw (append_assoc (type_byte type ∷ size_bytes ++ payload) number_bytes trailer) (
          slice_middle (type_byte type ∷ size_bytes ++ payload) number_bytes trailer
            (omega (arith, length-append size_bytes payload, length-from_uint32 (length payload)))
            (length-from_uint64 number))

  pub message_trailer : drop (5 + length payload + 8) message ≡ trailer
  message_trailer =
      ap (λ n. drop n message) {y = length (leading type number payload)}
        (omega (arith, length-leading type number payload))
      ∙ drop-append (leading type number payload) trailer

  pub message-AllBytes :
      type_byte type < 256 → AllBytes payload → AllBytes trailer → AllBytes message
  message-AllBytes t p r =
      AllBytes-append (leading type number payload) trailer
        (AllBytes-append (type_byte type ∷ size_bytes ++ payload) number_bytes
          (t, AllBytes-append size_bytes payload (from_uint32-AllBytes (length payload)) p)
          (from_uint64-AllBytes number))
        r
