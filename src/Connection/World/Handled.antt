-- ===== src/Connection/World/Handled.antt =====
-- What the handlers of receive, watch and abort events do to the promises of a connection.
use common.Base.{
  ℕ, ◌≡◌, refl, List, [], ◌∷◌, ◌++◌, Bool, true, false, arith, if◌then◌else◌, inl, inr, Bool-cases,
  Outcome, ok, throws, fault, ◌>>=◌, bind_ok, ok_injective, subst,
}
use common.Utils.Buffer.{Buffer}
use common.Utils.View.{of_buffer}
use common.Results.{RequestResult, PipeOpRes}
use common.Message.Types.{TransferMsgType}
use common.Message.Decode.{get_transfer_msg_type, get_msg_number_res}
use common.Message.Encode.{create_transfer_msg_pong, create_transfer_msg_ping}
use common.Connection.Watcher
use common.Connection.Handlers.{
  Impl, Effect, complete_receive_routine, deactivate, handle_message, caught,
  dispatch_receive_event, receive_callback, process_watch_event,
}
use common.Connection.World.{note}
use common.Connection.World.Failing.{abort_requests-Failing}
use common.Connection.World.Account.{
  Conserves, complete_request-Conserves, abort_requests-Unique, abort_requests-owed,
}

-- A handler that leaves the map alone and settles nothing.
pub quiet-Conserves :
    (c c' : Impl) (effects : List Effect)
    → c'.m_request_map ≡ c.m_request_map
    → note effects [] ≡ []
    → Conserves c.m_request_map (c', effects)
quiet-Conserves c c' effects e n = record {
  unique = λ u. rw e u;
  owed = λ u p. rw (n, e) (omega arith);
  failing = λ f. rw e f;
}

-- Asking for the next message settles nothing.
pub note-receive :
    (effects : List Effect) (done : List (ℕ × RequestResult))
    → note (effects ++ Effect.receive ∷ []) done ≡ note effects done
note-receive [] done = refl
note-receive (Effect.settle p r b ∷ effects) done = note-receive effects ((p, r) ∷ done)
note-receive (Effect.send_request n b ∷ effects) done = note-receive effects done
note-receive (Effect.send_control b ∷ effects) done = note-receive effects done
note-receive (Effect.serve b ∷ effects) done = note-receive effects done
note-receive (Effect.receive ∷ effects) done = note-receive effects done
note-receive (Effect.start_watching ∷ effects) done = note-receive effects done
note-receive (Effect.stop_watching ∷ effects) done = note-receive effects done
note-receive (Effect.stop_transport ∷ effects) done = note-receive effects done

pub complete_receive_routine-Conserves :
    (r : PipeOpRes) (c : Impl) (out : Impl × List Effect)
    → complete_receive_routine r c ≡ ok out
    → Conserves c.m_request_map out
unfolding complete_receive_routine
complete_receive_routine-Conserves PipeOpRes.success c out h = cc
complete_receive_routine-Conserves PipeOpRes.timeout c out h = cc
complete_receive_routine-Conserves PipeOpRes.canceled c out h =
    subst (Conserves c.m_request_map) (ok_injective h) (record {
      unique = abort_requests-Unique RequestResult.canceled c.m_request_map c.m_multiple_timer;
      owed = λ u p. abort_requests-owed RequestResult.canceled c.m_request_map c.m_multiple_timer p;
      failing =
          abort_requests-Failing RequestResult.canceled c.m_request_map c.m_multiple_timer refl;
    })
complete_receive_routine-Conserves PipeOpRes.failed c out h =
    subst (Conserves c.m_request_map) (ok_injective h) (record {
      unique = abort_requests-Unique RequestResult.failed c.m_request_map c.m_multiple_timer;
      owed = λ u p. abort_requests-owed RequestResult.failed c.m_request_map c.m_multiple_timer p;
      failing = abort_requests-Failing RequestResult.failed c.m_request_map c.m_multiple_timer refl;
    })

module _ (garbage : ℕ → ℕ) where
  handle_message-Conserves :
      (type : TransferMsgType) (message : Buffer) (c : Impl) (out : Impl × List Effect)
      → handle_message garbage type message c ≡ ok out
      → Conserves c.m_request_map out
  unfolding handle_message
  handle_message-Conserves TransferMsgType.req message c out h =
      subst (Conserves c.m_request_map) (ok_injective h) (quiet-Conserves c c _ refl (ground arith))
  handle_message-Conserves TransferMsgType.res message c out h =
      let (number, _, e) = bind_ok (get_msg_number_res (of_buffer message)) _ h in
      subst (Conserves c.m_request_map) (ok_injective e)
        (complete_request-Conserves number RequestResult.ok message c)
  handle_message-Conserves TransferMsgType.ping message c out h =
      let (pong, _, e) = bind_ok (create_transfer_msg_pong garbage) _ h in
      subst (Conserves c.m_request_map) (ok_injective e) (quiet-Conserves c c _ refl refl)
  handle_message-Conserves TransferMsgType.pong message c out h =
      subst (Conserves c.m_request_map) (ok_injective h) (quiet-Conserves c c [] refl refl)
  handle_message-Conserves (TransferMsgType.other b) message c out h = cc

  -- The `try` block: an exception leaves everything as it was.
  caught-Conserves :
      (c : Impl) (inner : Outcome (Impl × List Effect)) (out : Impl × List Effect)
      → ((got : Impl × List Effect) → inner ≡ ok got → Conserves c.m_request_map got)
      → caught garbage c (do
        (c', effects) ← inner
        ok (record c' { m_watcher = Watcher.set_activity_flag c'.m_watcher }, effects))
        ≡ ok out
      → Conserves c.m_request_map out
  caught-Conserves c (ok (c', effects)) out keep h =
      subst (Conserves c.m_request_map) (ok_injective h) (record {
        unique = (keep (c', effects) refl).unique;
        owed = (keep (c', effects) refl).owed;
        failing = (keep (c', effects) refl).failing;
      })
  caught-Conserves c (throws e) out keep h =
      subst (Conserves c.m_request_map) (ok_injective h) (quiet-Conserves c c [] refl refl)
  caught-Conserves c fault out keep h = cc

  dispatch_from :
      (c : Impl) (message : Buffer) (type : Outcome TransferMsgType) (out : Impl × List Effect)
      → caught garbage c (do
        t ← type
        (c', effects) ← handle_message garbage t message c
        ok (record c' { m_watcher = Watcher.set_activity_flag c'.m_watcher }, effects))
        ≡ ok out
      → Conserves c.m_request_map out
  dispatch_from c message (ok t) out h =
      caught-Conserves c (handle_message garbage t message c) out
        (handle_message-Conserves t message c) h
  dispatch_from c message (throws e) out h =
      subst (Conserves c.m_request_map) (ok_injective h) (quiet-Conserves c c [] refl refl)
  dispatch_from c message fault out h = cc

  pub receive_callback-Conserves :
      (r : PipeOpRes) (message : Buffer) (c : Impl) (out : Impl × List Effect)
      → receive_callback garbage r message c ≡ ok out
      → Conserves c.m_request_map out
  unfolding receive_callback dispatch_receive_event
  receive_callback-Conserves PipeOpRes.success message c out h =
      let ((c', effects), e, f) = bind_ok (dispatch_receive_event garbage message c) _ h in
      let k = dispatch_from c message (get_transfer_msg_type (of_buffer message)) (c', effects) e in
      subst (Conserves c.m_request_map) (ok_injective f) (record {
        unique = k.unique;
        owed = λ u p. rw (note-receive effects []) (k.owed u p);
        failing = k.failing;
      })
  receive_callback-Conserves PipeOpRes.canceled message c out h =
      complete_receive_routine-Conserves _ c out h
  receive_callback-Conserves PipeOpRes.failed message c out h =
      complete_receive_routine-Conserves _ c out h
  receive_callback-Conserves PipeOpRes.timeout message c out h =
      complete_receive_routine-Conserves _ c out h

  watch_from :
      (later : ℕ) (c : Impl) (active : Bool) (w : Watcher.ConnectionWatcher)
      (out : Impl × List Effect)
      → (if active then ok (record c { m_watcher = w }, []) else (do
        ping ← create_transfer_msg_ping garbage
        ok (
          record c { m_watcher = Watcher.set_ping_waiting later w },
          Effect.send_control ping ∷ [],
        )))
        ≡ ok out
      → Conserves c.m_request_map out
  watch_from later c true w out h =
      subst (Conserves c.m_request_map) (ok_injective h) (quiet-Conserves c _ [] refl refl)
  watch_from later c false w out h =
      let (ping, _, e) = bind_ok (create_transfer_msg_ping garbage) _ h in
      subst (Conserves c.m_request_map) (ok_injective e) (quiet-Conserves c _ _ refl refl)

  pub process_watch_event-Conserves :
      (now later : ℕ) (c : Impl) (out : Impl × List Effect)
      → process_watch_event garbage now later c ≡ ok out
      → Conserves c.m_request_map out
  unfolding process_watch_event deactivate Watcher.check_and_drop_activity_flag
  process_watch_event-Conserves now later c out h =
      elim (Bool-cases (Watcher.is_connection_not_responding now c.m_watcher)) [
        | inl e ↦
            subst (Conserves c.m_request_map) (ok_injective (rw e at h))
              (quiet-Conserves c _ _ refl refl)
        | inr e ↦ watch_from later c c.m_watcher.activity_flag _ out (rw e at h)
      ]
