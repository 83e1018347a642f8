-- ===== src/TcpPipe/Line/History.antt =====
-- One side of a tcp_pipe_endpoint over a history of events: the bytes and the messages.
use common.Base.{
  ℕ, ◌≡◌, refl, sym, ap, ◌∙◌, List, [], ◌∷◌, ◌++◌, append-nil, append_assoc, length, Option, none,
  some, true, false, ok, bind_ok, ok_injective, subst,
}
use common.TcpPipe.Endpoint.{
  OperationData, Side, Timer, Socket, ErrorCode, operation_aborted, Turn, on_header_operation,
  on_payload_operation, add_operation, emplace_front, start_timer, with_bytes,
}
use common.TcpPipe.Line.{
  Phase, in_header, in_payload, phase_of, Medium, World, Step, asks, handles, times_out,
  socket_changes, Reach, here, next, filled, handle, completed, after, either_flight, idle_line,
}
use common.TcpPipe.Line.Framed.{frames, Laws, Waiting, Lined, Fits, start_header-Fits}
use common.TcpPipe.Line.Framed.Handlers.{after_header-Fits, after_payload-Fits}
use common.TcpPipe.Line.Framed.Timeouts.{on_timeout-Lined, closes-Lined}

module _ {B R : Type 0} (m : Medium B R) (frame : List ℕ → List ℕ) (l : Laws m frame) where
  abbrev pub IsLine : World B → Type 0
  IsLine w = Lined m frame l w.operations w.socket.is_open w.in_flight w.stream w.done

  Waiting-append :
      (ds : List (OperationData B)) (d : OperationData B)
      → Waiting m frame l ds
      → l.Good d.op.progress × (l.held d.op.progress ≡ [])
      → Waiting m frame l (ds ++ d ∷ [])
  Waiting-append [] d w g = (g, tt)
  Waiting-append (d' ∷ ds) d w g = (w.0, Waiting-append ds d w.1 g)

  -- A new operation starts at once on an idle line, and waits on a busy one.
  emplace_front-Lined :
      (ops : List (OperationData B)) (d : OperationData B) (t : Timer) (s : Socket)
      (in_flight : Option Phase) (stream : List ℕ) (done : List (List ℕ)) (turn : Turn B R)
      → s.is_open ≡ true
      → l.Good d.op.progress × (l.held d.op.progress ≡ [])
      → Lined m frame l ops s.is_open in_flight stream done
      → emplace_front m.kind ops d t s ≡ ok turn
      → Lined m frame l turn.operations turn.socket.is_open
          (either_flight (phase_of turn.started) in_flight)
          stream
          done
  emplace_front-Lined [] d t s none stream done turn up g x h =
      same_flight (phase_of turn.started) (
        start_header-Fits m frame l d [] t s turn stream done
          (x.line ∙ ap (λ r. frames frame done ++ r) (x.end up ∙ sym g.1)) (g.0, tt) h)
    where
      same_flight :
          (p : Option Phase)
          → Lined m frame l turn.operations turn.socket.is_open p stream done
          → Lined m frame l turn.operations turn.socket.is_open (either_flight p none) stream done
      same_flight none x = x
      same_flight (some p) x = x
  emplace_front-Lined [] d t s (some p) stream done turn up g x h = absurd x.flight
  emplace_front-Lined (d' ∷ ds) d t s none stream done turn up g x h = absurd x.flight
  emplace_front-Lined (d' ∷ ds) d t s (some p) stream done turn up g x h =
      subst
        (λ (u : Turn B R).
          Lined m frame l u.operations u.socket.is_open
            (either_flight (phase_of u.started) (some p)) stream done)
        (ok_injective h)
        (record {
          tail = x.tail;
          line = x.line;
          partial = x.partial;
          end = x.end;
          operations = (x.operations.0, Waiting-append ds d x.operations.1 g);
          flight = x.flight;
        })

  add_operation-Lined :
      (side : Side) (timeout : Option ℕ) (promise id : ℕ) (b : B) (w : World B) (turn : Turn B R)
      → m.Starts b
      → w.socket.is_open ≡ true
      → IsLine w
      → add_operation m.kind side timeout promise b id w.operations w.timer w.socket ≡ ok turn
      → IsLine (
          after m w turn
            (either_flight (phase_of turn.started) w.in_flight)
            w.stream
            w.done
            (w.issued ++ promise ∷ []))
  unfolding add_operation
  add_operation-Lined side timeout promise id b w turn starts up x h =
      let ((timer_id, t), _, f) =
        bind_ok (start_timer timeout (record { side = side; id = id }) w.timer) _ h in
      let d : OperationData B = record {
        id = id;
        op = record { progress = b; m_is_promise_resolved = false; m_promise = promise };
        timer_id = timer_id;
      } in
      let y =
        emplace_front-Lined w.operations d t w.socket w.in_flight w.stream w.done turn up
          (l.starts b starts) x f in
      record {
        tail = y.tail;
        line = y.line;
        partial = y.partial;
        end = y.end;
        operations = y.operations;
        flight = y.flight;
      }

  handle-Fits :
      (phase : Phase) (ec : ErrorCode) (bytes : List ℕ) (d : OperationData B)
      (ds : List (OperationData B)) (t : Timer) (s : Socket) (stream : List ℕ)
      (done : List (List ℕ)) (turn : Turn B R)
      → Lined m frame l (d ∷ ds) s.is_open (some phase) stream done
      → m.Moves phase d.op.progress bytes
      → (ec ≡ operation_aborted → s.is_open ≡ false)
      → handle m phase ec (length bytes) (filled m phase bytes d ∷ ds) t s ≡ ok turn
      → Fits m frame l
          (stream ++ bytes)
          (done
            ++ completed m phase ec
                (m.kind.add_bytes (length bytes) (m.fill phase bytes d.op.progress)))
          turn
  unfolding on_header_operation on_payload_operation
  handle-Fits in_header ec bytes d ds t s stream done turn x moves shut h =
      let (good, grown) =
        l.moves_header d.op.progress x.flight.0 bytes x.operations.0 x.flight.1 moves in
      rw (append-nil done) (
        after_header-Fits m frame l ec
          (with_bytes m.kind (length bytes) (filled m in_header bytes d)) ds t s turn
          (stream ++ bytes) done shut
          (ap (λ r. r ++ bytes) (x.line ∙ ap (λ r. frames frame done ++ r) x.end)
            ∙ append_assoc (frames frame done) (l.held d.op.progress) bytes
            ∙ ap (λ r. frames frame done ++ r) (sym grown))
          (good, x.operations.1) h)
  handle-Fits in_payload ec bytes d ds t s stream done turn x moves shut h =
      let (good, grown) =
        l.moves_payload d.op.progress x.flight.0 bytes x.operations.0 x.flight.1 moves in
      after_payload-Fits m frame l ec
        (with_bytes m.kind (length bytes) (filled m in_payload bytes d)) ds t s turn
        (stream ++ bytes) done shut
        (ap (λ r. r ++ bytes) (x.line ∙ ap (λ r. frames frame done ++ r) x.end)
          ∙ append_assoc (frames frame done) (l.held d.op.progress) bytes
          ∙ ap (λ r. frames frame done ++ r) (sym grown))
        (good, x.operations.1) h

  Step-IsLine : {w u : World B} → Step m w u → IsLine w → IsLine u
  Step-IsLine {w} (asks side timeout promise id b turn starts up h e) x =
      subst IsLine (sym e) (add_operation-Lined side timeout promise id b w turn starts up x h)
  Step-IsLine {w} (handles phase ec bytes d ds turn f g moves shut h e) x = subst IsLine (sym e) (
      handle-Fits phase ec bytes d ds w.timer w.socket w.stream w.done turn
        (subst (λ o. Lined m frame l o w.socket.is_open (some phase) w.stream w.done) g
          (subst (λ p. Lined m frame l w.operations w.socket.is_open p w.stream w.done) f x))
        moves shut h)
  Step-IsLine {w} (times_out id e) x =
      subst IsLine (sym e)
        (on_timeout-Lined m frame l id w.operations w.socket w.in_flight w.stream w.done x)
  Step-IsLine {w} (socket_changes s t shut e) x = subst IsLine (sym e) (
      closes-Lined m frame l w.operations w.socket.is_open s.is_open w.in_flight w.stream w.done
        shut x)

  -- Over any history of one side, from an idle line: the bytes that have gone through the socket
  -- are the frames of the messages that it has completed, in order, and then what the operation in
  -- progress has moved of its own frame.
  pub Reach-IsLine : (t : Timer) (s : Socket) {w : World B} → Reach m (idle_line t s) w → IsLine w
  Reach-IsLine t s here = record {
    tail = [];
    line = refl;
    partial = l.nothing;
    end = λ o. refl;
    operations = tt;
    flight = tt;
  }
  Reach-IsLine t s (next r step) = Step-IsLine step (Reach-IsLine t s r)
