-- ===== src/Message/Decode/Total.antt =====
-- Each accessor of transfer-message.cpp on every view of received bytes.
use common.Base.{
  ℕ, ◌+◌, ◌-◌, ◌≤◌, ◌≡◌, refl, List, ◌∷◌, [], some, Bool, true, false, ◌&&◌, arith, length, drop,
  length-drop, leb, ltb, leb→le, ◌==◌, if◌then◌else◌, Bool-cases, ok, throws, invalid_buffer, inl,
  inr,
}
use common.Utils.Memory.{read}
use common.Utils.View.{CbufferView}
use common.Utils.View
use common.Message.Types.{TransferMsgType, to_type, type_byte, to_response_result}
use common.Message.Decode.{
  and_then, field, is_type, is_request_buffer_valid, is_response_buffer_valid,
  get_transfer_msg_type, get_serialized_proto_message, get_msg_number_req, get_msg_method_idx_req,
  get_msg_number_res, get_msg_response_code_res,
}
use common.Message.Decode.Fields.{
  Shows, number_at, first_byte, read_first, extract_message_size_lem, read_number32, read_number64,
  type_byte-to_type,
}

-- A message of `size` bytes is well formed: the type byte is `type`, and the payload size that
-- it claims leaves room for the trailer.
abbrev pub well_formed : TransferMsgType → ℕ → ℕ → List ℕ → Bool
well_formed type trailer size mem =
    leb (5 + trailer) size
    && ((first_byte mem == type_byte type) && leb (number_at 1 4 mem) (size - 5 - trailer))

and_then_ok : (a b : Bool) → and_then a (ok b) ≡ ok (a && b)
and_then_ok true b = refl
and_then_ok false b = refl

read_head : (mem : List ℕ) → 1 ≤ length mem → read (some mem) 0 ≡ ok (first_byte mem)
unfolding read
read_head [] h = absurd (omega arith)
read_head (b ∷ mem) h = refl

module _ (v : CbufferView) (mem : List ℕ) (s : Shows v mem) where
  view_present : View.to_bool v ≡ true
  unfolding View.to_bool
  view_present = rw s.points

  pub is_request_buffer_valid_lem :
      is_request_buffer_valid v ≡ ok (well_formed TransferMsgType.req 12 v.m_size mem)
  unfolding is_request_buffer_valid is_type type_byte
  is_request_buffer_valid_lem = elim (Bool-cases (leb 17 v.m_size)) [
    | inl long ↦
        let enough = leb→le 17 v.m_size long in
        rw
          (
            view_present,
            long,
            read_first v mem s (omega arith),
            type_byte-to_type (first_byte mem),
            extract_message_size_lem v mem s (omega arith),
          )
          (and_then_ok (first_byte mem == 0) (leb (number_at 1 4 mem) (v.m_size - 5 - 12)))
    | inr short ↦ rw (view_present, short)
  ]

  pub is_response_buffer_valid_lem :
      is_response_buffer_valid v ≡ ok (well_formed TransferMsgType.res 9 v.m_size mem)
  unfolding is_response_buffer_valid is_type type_byte
  is_response_buffer_valid_lem = elim (Bool-cases (leb 14 v.m_size)) [
    | inl long ↦
        let enough = leb→le 14 v.m_size long in
        rw
          (
            view_present,
            long,
            read_first v mem s (omega arith),
            type_byte-to_type (first_byte mem),
            extract_message_size_lem v mem s (omega arith),
          )
          (and_then_ok (first_byte mem == 1) (leb (number_at 1 4 mem) (v.m_size - 5 - 9)))
    | inr short ↦ rw (view_present, short)
  ]

  -- What a well-formed message promises to the reads of its trailer.
  trailer_room :
      (type : TransferMsgType) (trailer : ℕ)
      → well_formed type trailer v.m_size mem ≡ true
      → (5 + trailer ≤ v.m_size) × (number_at 1 4 mem + 5 + trailer ≤ length mem)
  trailer_room type trailer w = (ground arith, ground (arith, s.within))

  pub get_msg_number_req_lem : get_msg_number_req v ≡ (
      if well_formed TransferMsgType.req 12 v.m_size mem
      then ok (number_at (5 + number_at 1 4 mem) 8 mem)
      else throws invalid_buffer)
  unfolding get_msg_number_req
  get_msg_number_req_lem = elim (Bool-cases (well_formed TransferMsgType.req 12 v.m_size mem)) [
    | inl w ↦
        let (long, room) = trailer_room TransferMsgType.req 12 w in
        rw (is_request_buffer_valid_lem, w, extract_message_size_lem v mem s (omega arith))
          (read_number64 v mem s.points s.are_bytes (5 + number_at 1 4 mem) (omega arith))
    | inr w ↦ rw (is_request_buffer_valid_lem, w)
  ]

  pub get_msg_method_idx_req_lem : get_msg_method_idx_req v ≡ (
      if well_formed TransferMsgType.req 12 v.m_size mem
      then ok (number_at (5 + number_at 1 4 mem + 8) 4 mem)
      else throws invalid_buffer)
  unfolding get_msg_method_idx_req
  get_msg_method_idx_req_lem = elim (Bool-cases (well_formed TransferMsgType.req 12 v.m_size mem)) [
    | inl w ↦
        let (long, room) = trailer_room TransferMsgType.req 12 w in
        rw (is_request_buffer_valid_lem, w, extract_message_size_lem v mem s (omega arith))
          (read_number32 v mem s.points s.are_bytes (5 + number_at 1 4 mem + 8) (omega arith))
    | inr w ↦ rw (is_request_buffer_valid_lem, w)
  ]

  pub get_msg_number_res_lem : get_msg_number_res v ≡ (
      if well_formed TransferMsgType.res 9 v.m_size mem
      then ok (number_at (5 + number_at 1 4 mem) 8 mem)
      else throws invalid_buffer)
  unfolding get_msg_number_res
  get_msg_number_res_lem = elim (Bool-cases (well_formed TransferMsgType.res 9 v.m_size mem)) [
    | inl w ↦
        let (long, room) = trailer_room TransferMsgType.res 9 w in
        rw (is_response_buffer_valid_lem, w, extract_message_size_lem v mem s (omega arith))
          (read_number64 v mem s.points s.are_bytes (5 + number_at 1 4 mem) (omega arith))
    | inr w ↦ rw (is_response_buffer_valid_lem, w)
  ]

  pub get_msg_response_code_res_lem : get_msg_response_code_res v ≡ (
      if well_formed TransferMsgType.res 9 v.m_size mem
      then ok (to_response_result (first_byte (drop (5 + number_at 1 4 mem + 8) mem)))
      else throws invalid_buffer)
  unfolding get_msg_response_code_res
  get_msg_response_code_res_lem =
      elim (Bool-cases (well_formed TransferMsgType.res 9 v.m_size mem)) [
        | inl w ↦
            let (long, room) = trailer_room TransferMsgType.res 9 w in
            let start = 5 + number_at 1 4 mem + 8 in
            rw (
              is_response_buffer_valid_lem,
              w,
              extract_message_size_lem v mem s (omega arith),
              s.points,
              read_head (drop start mem) (omega (arith, length-drop start mem)),
            )
        | inr w ↦ rw (is_response_buffer_valid_lem, w)
      ]

  pub get_transfer_msg_type_lem :
      get_transfer_msg_type v
      ≡ (if v.m_size == 0 then throws invalid_buffer else ok (to_type (first_byte mem)))
  unfolding get_transfer_msg_type
  get_transfer_msg_type_lem = elim (Bool-cases (v.m_size == 0)) [
    | inl e ↦ rw (view_present, e)
    | inr e ↦ rw (view_present, e, read_first v mem s (ground arith))
  ]

  pub get_serialized_proto_message_lem : get_serialized_proto_message v ≡ (
      if leb (5 + number_at 1 4 mem) v.m_size
      then ok (field v 5 (number_at 1 4 mem))
      else throws invalid_buffer)
  unfolding get_serialized_proto_message
  get_serialized_proto_message_lem = elim (Bool-cases (ltb v.m_size 5)) [
    | inl e ↦ rw (view_present, e, beyond e)
    | inr e ↦ rw (view_present, e, extract_message_size_lem v mem s (ground arith)) (ground arith)
  ]
    where
      beyond : ltb v.m_size 5 ≡ true → leb (5 + number_at 1 4 mem) v.m_size ≡ false
      beyond e = ground arith

-- The validity test and the two request accessors, on every view of received bytes: none of them
-- reads outside the view, the test decides `well_formed`, and each accessor answers the number at
-- its place in a well-formed request and throws "invalid buffer" for all other bytes.
pub request_accessors :
    (v : CbufferView) (mem : List ℕ)
    → Shows v mem
    → let w = well_formed TransferMsgType.req 12 v.m_size mem in
      (is_request_buffer_valid v ≡ ok w)
      × (get_msg_number_req v
          ≡ (if w then ok (number_at (5 + number_at 1 4 mem) 8 mem) else throws invalid_buffer))
      × (get_msg_method_idx_req v
          ≡ (if w then ok (number_at (5 + number_at 1 4 mem + 8) 4 mem) else throws invalid_buffer))
request_accessors v mem s = (
  is_request_buffer_valid_lem v mem s,
  get_msg_number_req_lem v mem s,
  get_msg_method_idx_req_lem v mem s,
)

-- The validity test and the two response accessors, on every view of received bytes: none of them
-- reads outside the view, the test decides `well_formed`, and each accessor answers the number or
-- the result code at its place in a well-formed response and throws "invalid buffer" for all other
-- bytes.
pub response_accessors :
    (v : CbufferView) (mem : List ℕ)
    → Shows v mem
    → let w = well_formed TransferMsgType.res 9 v.m_size mem in
      (is_response_buffer_valid v ≡ ok w)
      × (get_msg_number_res v
          ≡ (if w then ok (number_at (5 + number_at 1 4 mem) 8 mem) else throws invalid_buffer))
      × (get_msg_response_code_res v ≡ (
          if w
          then ok (to_response_result (first_byte (drop (5 + number_at 1 4 mem + 8) mem)))
          else throws invalid_buffer))
response_accessors v mem s = (
  is_response_buffer_valid_lem v mem s,
  get_msg_number_res_lem v mem s,
  get_msg_response_code_res_lem v mem s,
)

-- The accessors that serve every kind of message: the type of any message but the empty one, and
-- the payload, which is the view of the bytes behind the header that the header claims, and is
-- refused if the message is shorter than that.
pub common_accessors :
    (v : CbufferView) (mem : List ℕ)
    → Shows v mem
    → (get_transfer_msg_type v
        ≡ (if v.m_size == 0 then throws invalid_buffer else ok (to_type (first_byte mem))))
      × (get_serialized_proto_message v ≡ (
          if leb (5 + number_at 1 4 mem) v.m_size
          then ok (field v 5 (number_at 1 4 mem))
          else throws invalid_buffer))
common_accessors v mem s =
    (get_transfer_msg_type_lem v mem s, get_serialized_proto_message_lem v mem s)
