-- ===== src/Connection/Handlers/Dispatch.antt =====
-- connection::impl::dispatch_receive_event on any received bytes.
use common.Base.{
  ℕ, ◌||◌, ◌≡◌, refl, ap, ◌∙◌, List, Bool, true, false, arith, ◌==◌, ltb, if◌then◌else◌, Bool-cases,
  inl, inr, is_ok, is_fault, not, ok, throws, invalid_buffer,
}
use common.Utils.Buffer.{Buffer}
use common.Utils.Buffer
use common.Utils.View.{of_buffer}
use common.Utils.Memory.{write, store}
use common.Message.Types.{TransferMsgType, to_type}
use common.Message.Encode.{create_transfer_msg_pong, fill_message_type_byte, put_next}
use common.Message.Decode.{get_transfer_msg_type}
use common.Message.Decode.Fields.{Shows, first_byte}
use common.Message.Decode.Total.{response_accessors, common_accessors, well_formed}
use common.Connection.Handlers.{Impl, Effect, handle_message, dispatch_receive_event}

-- The types that have a handler.
abbrev pub is_known : TransferMsgType → Bool
is_known (TransferMsgType.other b) = false
is_known _ = true

module _ (garbage : ℕ → ℕ) where
  -- A message of a known type is handled, whatever else it holds.
  handled_lem :
      (type : TransferMsgType) (message : Buffer) (mem : List ℕ) (c : Impl)
      → Shows (of_buffer message) mem
      → get_transfer_msg_type (of_buffer message) ≡ ok type
      → is_known type ≡ true
      → (out : Impl × List Effect) × (dispatch_receive_event garbage message c ≡ ok out)
  unfolding dispatch_receive_event handle_message create_transfer_msg_pong put_next Buffer.put
      Buffer.create write store fill_message_type_byte
  handled_lem TransferMsgType.req message mem c s h k = rw h (_, refl)
  handled_lem TransferMsgType.res message mem c s h k =
      let (_, number, _) = response_accessors (of_buffer message) mem s in
      elim (Bool-cases (well_formed TransferMsgType.res 9 (of_buffer message).m_size mem)) [
        | inl w ↦ rw (h, number, w) (_, refl)
        | inr w ↦ rw (h, number, w) (_, refl)
      ]
  handled_lem TransferMsgType.ping message mem c s h k = rw h (_, refl)
  handled_lem TransferMsgType.pong message mem c s h k = rw h (_, refl)
  handled_lem (TransferMsgType.other b) message mem c s h k = absurd (ground (arith, k))

  -- On received bytes the handler of a receive returns exactly if there are none or the first one
  -- is below 4, whatever the others are; otherwise the assertion that the type is known fails.
  pub dispatch_receive_event_lem :
      (message : Buffer) (mem : List ℕ) (c : Impl)
      → Shows (of_buffer message) mem
      → let returns = (message.m_size == 0) || ltb (first_byte mem) 4 in
        (is_ok (dispatch_receive_event garbage message c) ≡ returns)
        × (is_fault (dispatch_receive_event garbage message c) ≡ not returns)
  unfolding dispatch_receive_event of_buffer handle_message to_type
  dispatch_receive_event_lem message mem c s =
      let (type, _) = common_accessors (of_buffer message) mem s in
      elim (Bool-cases (message.m_size == 0)) [
        | inl nothing ↦ rw (type, nothing) (refl, refl)
        | inr some_bytes ↦ elim (Bool-cases (ltb (first_byte mem) 4)) [
          | inl known ↦
              (let (out, e) =
                  handled_lem (to_type (first_byte mem)) message mem c s (type ∙ rw some_bytes refl)
                    (ground (arith, known)) in
                (
                  ap is_ok e ∙ rw (some_bytes, known) refl,
                  ap is_fault e ∙ rw (some_bytes, known) refl,
                ))
          | inr unknown ↦ rw (type ∙ unnamed some_bytes unknown, some_bytes, unknown) (refl, refl)
        ]
      ]
    where
      unnamed :
          (message.m_size == 0) ≡ false
          → ltb (first_byte mem) 4 ≡ false
          → (if message.m_size == 0 then throws invalid_buffer else ok (to_type (first_byte mem)))
            ≡ ok (TransferMsgType.other (first_byte mem))
      unnamed some_bytes unknown = ground (arith, some_bytes, unknown)
