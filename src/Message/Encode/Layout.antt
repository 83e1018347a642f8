-- ===== src/Message/Encode/Layout.antt =====
-- What the writers of transfer-message.cpp leave in the buffer.
use common.Base.{
  ℕ, suc, ◌+◌, ◌-◌, ◌^◌, ◌≤◌, ◌<◌, ◌≡◌, refl, sym, ap, List, [], ◌∷◌, ◌++◌, append-nil,
  append_assoc, Option, none, some, arith, length, drop, length-append, length-drop, drop-drop,
  Outcome, ok, ◌>>=◌, le→leb, to_int-lt,
}
use common.Utils.Memory.{write_middle}
use common.Utils.Buffer.{Buffer}
use common.Utils.Buffer
use common.Message.Types.{TransferMsgType, type_byte, ProtoMessage, Payload}
use common.Message.Endian.{from_uint32_to_big_endian, from_uint64_big_endian}
use common.Message.Endian.Value.{length-from_uint_loop}
use common.Message.Encode.{
  Cursor, put_next, fill_loop, fill_message_type_byte, fill_serialized_message_size_bytes,
  write_all, fill_serialized_message_bytes, fill_message_number_bytes, fill_method_idx_bytes,
}

-- The cursor of a buffer of `n` bytes of which `done` are written and `rest` are still to come.
abbrev pub after : ℕ → List ℕ → List ℕ → Cursor
after n done rest = record {
  buff = record { m_buffer = some (done ++ rest); m_size = n };
  pos = length done;
}

-- The cursor once `bytes` have gone over the first bytes of `rest`.
abbrev pub advanced : ℕ → List ℕ → List ℕ → List ℕ → Cursor
advanced n done rest bytes = after n (done ++ bytes) (drop (length bytes) rest)

pub put_next_lem :
    (n : ℕ) (done : List ℕ) (x : ℕ) (rest : List ℕ) (b : ℕ)
    → put_next (after n done (x ∷ rest)) b ≡ ok (after n (done ++ b ∷ []) rest)
unfolding put_next Buffer.put
put_next_lem n done x rest b =
    rw (write_middle done x b rest, append_assoc done (b ∷ []) rest, length-append done (b ∷ []))
      refl

fill_loop_lem :
    (n : ℕ) (done rest bytes : List ℕ)
    → length bytes ≤ length rest
    → fill_loop (after n done rest) bytes ≡ ok (advanced n done rest bytes)
unfolding fill_loop
fill_loop_lem n done rest [] h = rw (append-nil done)
fill_loop_lem n done [] (b ∷ bytes) h = absurd (omega arith)
fill_loop_lem n done (x ∷ rest) (b ∷ bytes) h = rw (
  put_next_lem n done x rest b,
  fill_loop_lem n (done ++ b ∷ []) rest bytes (omega arith),
  append_assoc done (b ∷ []) bytes,
)

write_all_lem :
    (done rest bytes : List ℕ)
    → length bytes ≤ length rest
    → write_all (some (done ++ rest)) (length done) bytes
      ≡ ok (some ((done ++ bytes) ++ drop (length bytes) rest))
unfolding write_all
write_all_lem done rest [] h = rw (append-nil done)
write_all_lem done [] (b ∷ bytes) h = absurd (omega arith)
write_all_lem done (x ∷ rest) (b ∷ bytes) h = ground (
  arith,
  write_middle done x b rest,
  append_assoc done (b ∷ []) rest,
  append_assoc done (b ∷ []) bytes,
  length-append done (b ∷ []),
  write_all_lem (done ++ b ∷ []) rest bytes (omega arith),
)

fill_message_type_byte_lem :
    (n : ℕ) (done : List ℕ) (x : ℕ) (rest : List ℕ) (type : TransferMsgType)
    → fill_message_type_byte (after n done (x ∷ rest)) type
      ≡ ok (after n (done ++ type_byte type ∷ []) rest)
unfolding fill_message_type_byte
fill_message_type_byte_lem n done x rest type = put_next_lem n done x rest (type_byte type)

fill_serialized_message_size_bytes_lem :
    (n : ℕ) (done rest : List ℕ) (size : ℕ)
    → 4 ≤ length rest
    → fill_serialized_message_size_bytes (after n done rest) size
      ≡ ok (advanced n done rest (from_uint32_to_big_endian size))
unfolding fill_serialized_message_size_bytes from_uint32_to_big_endian
fill_serialized_message_size_bytes_lem n done rest size h = ground (
  arith,
  length-from_uint_loop size 4,
  fill_loop_lem n done rest (from_uint32_to_big_endian size)
      (omega (arith, length-from_uint_loop size 4)),
)

fill_message_number_bytes_lem :
    (n : ℕ) (done rest : List ℕ) (number : ℕ)
    → 8 ≤ length rest
    → fill_message_number_bytes (after n done rest) number
      ≡ ok (advanced n done rest (from_uint64_big_endian number))
unfolding fill_message_number_bytes from_uint64_big_endian
fill_message_number_bytes_lem n done rest number h = ground (
  arith,
  length-from_uint_loop number 8,
  fill_loop_lem n done rest (from_uint64_big_endian number)
      (omega (arith, length-from_uint_loop number 8)),
)

pub fill_method_idx_bytes_lem :
    (n : ℕ) (done rest : List ℕ) (idx : ℕ)
    → 4 ≤ length rest
    → fill_method_idx_bytes (after n done rest) idx
      ≡ ok (advanced n done rest (from_uint32_to_big_endian idx))
unfolding fill_method_idx_bytes from_uint32_to_big_endian
fill_method_idx_bytes_lem n done rest idx h = ground (
  arith,
  length-from_uint_loop idx 4,
  fill_loop_lem n done rest (from_uint32_to_big_endian idx)
      (omega (arith, length-from_uint_loop idx 4)),
)

-- The payload goes in at the cursor, for every message that serialises to it.
fill_serialized_message_bytes_lem :
    (n : ℕ) (done rest : List ℕ) (message : Option ProtoMessage) (payload : List ℕ)
    → Payload message payload
    → length payload ≤ length rest
    → n ≡ length done + length rest
    → n < 2 ^ 31
    → fill_serialized_message_bytes (after n done rest) message (length payload)
      ≡ ok (advanced n done rest payload)
unfolding fill_serialized_message_bytes
fill_serialized_message_bytes_lem n done rest none payload p h e small = rw (p, append-nil done)
fill_serialized_message_bytes_lem n done rest (some m) payload p h e small =
    let room : n - length done ≡ length rest = omega arith in
    let few : length rest < 2 ^ 31 = omega arith in
    rw
      (
        room,
        le→leb _ _ h,
        to_int-lt (length rest) few,
        p.writes (length rest) h few,
        write_all_lem done rest payload h,
      )
      (ap
        (λ k. ok (record {
          buff = record {
            m_buffer = some ((done ++ payload) ++ drop (length payload) rest);
            m_size = n;
          };
          pos = k;
        }))
        (sym (length-append done payload)))

pub length-from_uint32 : (number : ℕ) → length (from_uint32_to_big_endian number) ≡ 4
unfolding from_uint32_to_big_endian
length-from_uint32 number = length-from_uint_loop number 4

pub length-from_uint64 : (number : ℕ) → length (from_uint64_big_endian number) ≡ 8
unfolding from_uint64_big_endian
length-from_uint64 number = length-from_uint_loop number 8

-- The bytes that requests and responses have in common: type, payload size, payload, number.
abbrev pub leading : TransferMsgType → ℕ → List ℕ → List ℕ
leading type number payload =
    ((type_byte type ∷ [] ++ from_uint32_to_big_endian (length payload)) ++ payload)
    ++ from_uint64_big_endian number

-- Both creators begin alike: after the four common fields the cursor stands behind them.
pub leading_fields :
    (n x : ℕ) (rest : List ℕ) (type : TransferMsgType) (number : ℕ) (message : Option ProtoMessage)
    (payload : List ℕ) (k : Cursor → Outcome Buffer)
    → Payload message payload
    → n ≡ suc (length rest)
    → n < 2 ^ 31
    → 12 + length payload ≤ length rest
    → (do
      c1 ← fill_message_type_byte (after n [] (x ∷ rest)) type
      c2 ← fill_serialized_message_size_bytes c1 (length payload)
      c3 ← fill_serialized_message_bytes c2 message (length payload)
      c4 ← fill_message_number_bytes c3 number
      k c4)
      ≡ k (after n (leading type number payload) (drop (12 + length payload) rest))
leading_fields n x rest type number message payload k p e small room =
    let t = type_byte type ∷ [] in
    let len4 = from_uint32_to_big_endian (length payload) in
    let rest1 = drop (length len4) rest in
    let rest2 = drop (length payload) rest1 in
    let w4 = length-from_uint32 (length payload) in
    let w8 = length-from_uint64 number in
    let left1 : length rest1 ≡ length rest - 4 =
      omega (arith, w4, length-drop (length len4) rest) in
    let left2 : length rest2 ≡ length rest1 - length payload = length-drop (length payload) rest1 in
    rw
      (
        fill_message_type_byte_lem n [] x rest type,
        fill_serialized_message_size_bytes_lem n t rest (length payload) (omega arith),
        fill_serialized_message_bytes_lem n (t ++ len4) rest1 message payload p (omega arith)
            (omega (arith, w4)) small,
        fill_message_number_bytes_lem n ((t ++ len4) ++ payload) rest2 number (omega arith),
        w8,
        w4,
        drop-drop (length payload) 4 rest,
        drop-drop 8 (4 + length payload) rest,
      )
      (ap (λ j. k (after n (leading type number payload) (drop j rest))) (omega arith))
