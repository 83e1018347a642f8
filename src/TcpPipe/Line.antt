-- ===== src/TcpPipe/Line.antt =====
-- One side of a tcp_pipe_endpoint among its events, and the bytes of the socket that have gone
-- through it. The socket may change under it, by the other side or by `invalidate`.
pub mod Framed
pub mod History
pub mod Writing
pub mod Reading
pub mod Sound
pub mod Promises
pub mod Total
pub mod Joined
pub mod Bounds
pub mod Given
use common.Base.{
  ℕ, ◌+◌, ◌%◌, ◌^◌, ◌≡◌, List, [], ◌∷◌, ◌++◌, length, Option, none, some, Bool, true, false,
  Outcome, ok,
}
use common.Results.{PipeOpRes}
use common.TcpPipe.Endpoint.{
  Kind, OperationData, PendingResult, Side, Timer, Socket, ErrorCode, success, operation_aborted,
  failure, Started, header, payload, Turn, on_header_operation, on_payload_operation, add_operation,
  on_timeout,
}

pub data Phase : Type 0 where
  in_header in_payload : Phase

abbrev pub phase_of : {R : Type 0} → Option (Started R) → Option Phase
phase_of none = none
phase_of (some (header r)) = some in_header
phase_of (some (payload r)) = some in_payload

-- A kind of operation on the line. `fill` is what asio leaves in a buffer that it was given,
-- `Moves` says which bytes a completed operation on the socket may have moved, and `message` is
-- the message of an operation that is complete.
pub record Medium (B R : Type 0) : Type 1 where
  pub kind : Kind B R
  pub fill : Phase → List ℕ → B → B
  pub Moves : Phase → B → List ℕ → Type 0
  pub Starts : B → Type 0
  pub message : B → List ℕ

-- `stream` are the bytes moved so far, `done` the messages whose operations are complete, `issued`
-- the promises given out and `settled` the results published.
pub record World (B : Type 0) : Type 0 where
  pub operations : List (OperationData B)
  pub timer : Timer
  pub socket : Socket
  pub in_flight : Option Phase
  pub stream : List ℕ
  pub done : List (List ℕ)
  pub issued : List ℕ
  pub settled : List PendingResult

abbrev pub either_flight : Option Phase → Option Phase → Option Phase
either_flight none old = old
either_flight (some p) old = some p

abbrev pub idle_line : {B : Type 0} → Timer → Socket → World B
idle_line t s = record {
  operations = [];
  timer = t;
  socket = s;
  in_flight = none;
  stream = [];
  done = [];
  issued = [];
  settled = [];
}

module _ {B R : Type 0} (m : Medium B R) where
  abbrev pub filled : Phase → List ℕ → OperationData B → OperationData B
  filled phase bytes d = record d {
    op = record d.op { progress = m.fill phase bytes d.op.progress };
  }

  -- The handler of the operation on the socket that is under way.
  abbrev pub handle :
      Phase → ErrorCode → ℕ → List (OperationData B) → Timer → Socket → Outcome (Turn B R)
  handle in_header ec bytes ops t s = on_header_operation m.kind ec bytes ops t s
  handle in_payload ec bytes ops t s = on_payload_operation m.kind ec bytes ops t s

  abbrev pub if_done : Outcome Bool → List ℕ → List (List ℕ)
  if_done (ok true) message = message ∷ []
  if_done _ message = []

  -- The message that a handler completes, from the progress with the new bytes.
  abbrev pub completed : Phase → ErrorCode → B → List (List ℕ)
  completed in_payload success b = if_done (m.kind.is_payload_completed b) (m.message b)
  completed _ _ b = []

  -- What a turn leaves of the world `w`.
  abbrev pub after : World B → Turn B R → Option Phase → List ℕ → List (List ℕ) → List ℕ → World B
  after w turn in_flight stream done issued = record {
    operations = turn.operations;
    timer = turn.timer;
    socket = turn.socket;
    in_flight = in_flight;
    stream = stream;
    done = done;
    issued = issued;
    settled = w.settled ++ turn.results;
  }

  pub data Step (w : World B) (u : World B) : Type 0 where
    asks :
        (side : Side) (timeout : Option ℕ) (promise id : ℕ) (b : B) (turn : Turn B R)
        → m.Starts b
        → w.socket.is_open ≡ true
        → add_operation m.kind side timeout promise b id w.operations w.timer w.socket ≡ ok turn
        → u
          ≡ after w turn
              (either_flight (phase_of turn.started) w.in_flight)
              w.stream
              w.done
              (w.issued ++ promise ∷ [])
        → Step w u
    handles :
        (phase : Phase) (ec : ErrorCode) (bytes : List ℕ) (d : OperationData B)
        (ds : List (OperationData B)) (turn : Turn B R)
        → w.in_flight ≡ some phase
        → w.operations ≡ d ∷ ds
        → m.Moves phase d.op.progress bytes
        → (ec ≡ operation_aborted → w.socket.is_open ≡ false)
        → handle phase ec (length bytes) (filled phase bytes d ∷ ds) w.timer w.socket ≡ ok turn
        → u
          ≡ after w turn
              (phase_of turn.started)
              (w.stream ++ bytes)
              (w.done
                ++ completed phase ec
                    (m.kind.add_bytes (length bytes) (m.fill phase bytes d.op.progress)))
              w.issued
        → Step w u
    times_out :
        (id : ℕ)
        → u ≡ record w {
          operations = (on_timeout m.kind id w.operations w.socket).0;
          settled = w.settled ++ (on_timeout m.kind id w.operations w.socket).1;
        }
        → Step w u
    socket_changes :
        (s : Socket) (t : Timer)
        → (w.socket.is_open ≡ false → s.is_open ≡ false)
        → u ≡ record w { socket = s; timer = t }
        → Step w u

  pub data Reach (w : World B) : World B → Type 0 where
    here : Reach w w
    next : {t u : World B} → Reach w t → Step t u → Reach w u
