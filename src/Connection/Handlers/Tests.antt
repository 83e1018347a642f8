-- ===== src/Connection/Handlers/Tests.antt =====
-- A connection that receives one byte with no meaning, and one that receives nothing.
use common.Base.{ℕ, ◌≡◌, refl, [], ◌∷◌, true, false, none, some, ok, arith, is_ok, is_fault}
use common.Utils.Buffer.{Buffer}
use common.Utils.View.{of_buffer}
use common.Message.Encode.Create.{exactly}
use common.Message.Decode.Fields.{Shows}
use common.Connection.Handlers.{
  Impl, State, send_control, stop_transport, create, dispatch_receive_event, process_watch_event,
}
use common.Connection.Handlers.Watch.{watching, process_watch_event_lem}
use common.Connection.Handlers.Dispatch.{dispatch_receive_event_lem}

abbrev garbage : ℕ → ℕ
garbage i = 0xCD

abbrev nine : Buffer
nine = exactly (9 ∷ [])

nine-Shows : Shows (of_buffer nine) (9 ∷ [])
unfolding of_buffer
nine-Shows = record { points = refl; within = omega arith; are_bytes = omega arith }

dispatch_receive_event_lem_example :
    (is_ok (dispatch_receive_event garbage nine (create true 5)) ≡ false)
    × (is_fault (dispatch_receive_event garbage nine (create true 5)) ≡ true)
dispatch_receive_event_lem_example =
    dispatch_receive_event_lem garbage nine (9 ∷ []) (create true 5) nine-Shows

abbrev quiet : Impl
quiet = record {
  m_state = State.started;
  m_service = false;
  m_request_map = [];
  m_multiple_timer = record { m_next_id = 0; timers_map = [] };
  m_watcher = watching 5 true none;
}

process_watch_event_lem_example :
    (process_watch_event garbage 10 11 quiet
      ≡ ok (record quiet { m_watcher = watching 5 false none }, []))
    × (process_watch_event garbage 20 21 (record quiet { m_watcher = watching 5 false none })
        ≡ ok (
          record quiet { m_watcher = watching 5 false (some 21) },
          send_control (exactly (2 ∷ [])) ∷ [],
        ))
    × (process_watch_event garbage 30 31 (record quiet { m_watcher = watching 5 false (some 21) })
        ≡ ok (
          record quiet { m_state = State.deactivated; m_watcher = watching 5 false (some 21) },
          stop_transport ∷ [],
        ))
process_watch_event_lem_example = process_watch_event_lem garbage quiet 5 10 11 20 21 30 31 refl
