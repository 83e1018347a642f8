-- ===== src/TcpPipe/Line/Total.antt =====
-- The assertions of tcp_pipe_endpoint::impl.
pub mod Kinds
use common.Base.{
  ℕ, ◌≡◌, refl, sym, ap, List, [], ◌∷◌, length, Option, none, some, Bool, true, false, subst,
  Outcome, ok, ◌||◌, not, ◌>>=◌,
}
use common.Results.{PipeOpRes}
use common.TcpPipe.Endpoint.{
  OperationData, Timer, Socket, ErrorCode, success, operation_aborted, failure, header, payload,
  Turn, invalidate_unsafe, start_header_async, start_payload_async, on_header_operation,
  on_payload_operation, ends_with, goes_on, fails, after_header, after_payload, next_operation,
  completes, take_pending_result, closing_result, with_bytes, cancel_timer,
}
use common.TcpPipe.Line.{
  Phase, in_header, in_payload, Medium, World, Reach, idle_line, handle, filled,
}
use common.TcpPipe.Line.Framed.{Laws, Waiting, Operations, Lined}
use common.TcpPipe.Line.History.{Reach-IsLine}

-- What a medium must answer between two handlers.
pub record Answers {B R : Type 0} (m : Medium B R) (frame : List ℕ → List ℕ) (l : Laws m frame)
    : Type 0 where
  pub first : (b : B) → l.Good b → l.held b ≡ [] → (r : R) × (m.kind.header_buffer b ≡ ok r)
  pub more_header :
      (b : B)
      → l.Good b
      → m.kind.is_header_completed b ≡ false
      → (r : R) × (m.kind.header_buffer b ≡ ok r)
  pub more_payload :
      (b : B)
      → l.Good b
      → m.kind.is_header_completed b ≡ true
      → m.kind.is_payload_buffer_valid b ≡ true
      → (r : R) × (m.kind.payload_buffer b ≡ ok r)
  pub behind_header :
      (b : B) (r : R) (bytes : List ℕ)
      → m.kind.payload_buffer b ≡ ok r
      → m.kind.is_header_completed (m.kind.add_bytes (length bytes) (m.fill in_payload bytes b))
        ≡ true
  pub answers : (b : B) → l.Good b → (c : Bool) × (m.kind.is_payload_completed b ≡ ok c)

module _ {B R : Type 0} (m : Medium B R) where
  -- The bytes that asio leaves in the buffer of the operation in progress.
  abbrev pub fill_first : Phase → List ℕ → List (OperationData B) → List (OperationData B)
  fill_first phase bytes [] = []
  fill_first phase bytes (d ∷ ds) = filled m phase bytes d ∷ ds

  -- The bytes fit the operation in progress, if there is one.
  abbrev pub Fit : Phase → List ℕ → List (OperationData B) → Type 0
  Fit phase bytes [] = Unit {0}
  Fit phase bytes (d ∷ ds) = m.Moves phase d.op.progress bytes

module _ {B R : Type 0} (m : Medium B R) (frame : List ℕ → List ℕ) (l : Laws m frame)
    (a : Answers m frame l) where
  abbrev Returns : Outcome (Turn B R) → Type 0
  Returns o = (turn : Turn B R) × (o ≡ ok turn)

  start_header-Returns :
      (d : OperationData B) (ds : List (OperationData B)) (t : Timer) (s : Socket) (r : R)
      → m.kind.header_buffer d.op.progress ≡ ok r
      → Returns (start_header_async m.kind (d ∷ ds) t s)
  unfolding start_header_async
  start_header-Returns d ds t s r h = by_socket s.is_open
    where
      by_socket :
          (o : Bool)
          → Returns (elim o [
            | false ↦ ends_with m.kind (closing_result s) [] (d ∷ ds) t s
            | true ↦
                m.kind.header_buffer d.op.progress >>= λ b. goes_on m.kind (header b) (d ∷ ds) t s
          ])
      by_socket false = (_, refl)
      by_socket true = rw h (_, refl)

  start_payload-Returns :
      (d : OperationData B) (ds : List (OperationData B)) (t : Timer) (s : Socket)
      → l.Good d.op.progress
      → m.kind.is_header_completed d.op.progress ≡ true
      → Returns (start_payload_async m.kind (d ∷ ds) t s)
  unfolding start_payload_async
  start_payload-Returns d ds t s g h =
      by_tests (m.kind.is_payload_buffer_valid d.op.progress) s.is_open
        (a.more_payload d.op.progress g h)
    where
      by_tests :
          (v o : Bool)
          → (v ≡ true → (r : R) × (m.kind.payload_buffer d.op.progress ≡ ok r))
          → Returns (elim v [
            | false ↦
                ends_with m.kind PipeOpRes.failed
                  (invalidate_unsafe false s).1
                  (d ∷ ds)
                  t
                  (invalidate_unsafe false s).0
            | true ↦ elim o [
              | false ↦ ends_with m.kind (closing_result s) [] (d ∷ ds) t s
              | true ↦ m.kind.payload_buffer d.op.progress >>= λ b.
                  goes_on m.kind (payload b) (d ∷ ds) t s
            ]
          ])
      by_tests false o h = (_, refl)
      by_tests true false h = (_, refl)
      by_tests true true h = let (r, e) = h refl in rw e (_, refl)

  fails-Returns :
      (aborted : Bool) (ops : List (OperationData B)) (t : Timer) (s : Socket)
      → Returns (fails m.kind aborted ops t s)
  fails-Returns aborted ops t s = by_test (aborted || not s.is_open)
    where
      by_test :
          (o : Bool)
          → Returns (elim o [
            | true ↦ ends_with m.kind (closing_result s) [] ops t s
            | false ↦
                ends_with m.kind PipeOpRes.failed
                  (invalidate_unsafe false s).1
                  ops
                  t
                  (invalidate_unsafe false s).0
          ])
      by_test true = (_, refl)
      by_test false = (_, refl)

  after_header-Returns :
      (ec : ErrorCode) (d : OperationData B) (ds : List (OperationData B)) (t : Timer) (s : Socket)
      → l.Good d.op.progress
      → Returns (after_header m.kind ec d ds t s)
  after_header-Returns success d ds t s g =
      by_test (m.kind.is_header_completed d.op.progress) (a.more_header d.op.progress g)
        (start_payload-Returns d ds t s g)
    where
      by_test :
          (o : Bool)
          → (o ≡ false → (r : R) × (m.kind.header_buffer d.op.progress ≡ ok r))
          → (o ≡ true → Returns (start_payload_async m.kind (d ∷ ds) t s))
          → Returns (elim o [
            | false ↦ start_header_async m.kind (d ∷ ds) t s
            | true ↦ start_payload_async m.kind (d ∷ ds) t s
          ])
      by_test false h k = let (r, e) = h refl in start_header-Returns d ds t s r e
      by_test true h k = k refl
  after_header-Returns operation_aborted d ds t s g = fails-Returns true (d ∷ ds) t s
  after_header-Returns failure d ds t s g = fails-Returns false (d ∷ ds) t s

  next_operation-Returns :
      (ds : List (OperationData B)) (t : Timer) (s : Socket)
      → Waiting m frame l ds
      → Returns (next_operation m.kind ds t s)
  next_operation-Returns [] t s w = (_, refl)
  next_operation-Returns (d ∷ ds) t s w =
      let (r, e) = a.first d.op.progress w.0.0 w.0.1 in start_header-Returns d ds t s r e

  completes-Returns :
      (d : OperationData B) (ds : List (OperationData B)) (t : Timer) (s : Socket)
      → Waiting m frame l ds
      → Returns (completes m.kind d ds t s)
  completes-Returns d ds t s w =
      let (turn, e) = next_operation-Returns ds (cancel_timer d.timer_id t) s w in rw e (_, refl)

  after_payload-Returns :
      (ec : ErrorCode) (d : OperationData B) (ds : List (OperationData B)) (t : Timer) (s : Socket)
      → l.Good d.op.progress
      → m.kind.is_header_completed d.op.progress ≡ true
      → Waiting m frame l ds
      → Returns (after_payload m.kind ec d ds t s)
  after_payload-Returns success d ds t s g h w =
      let (c, e) = a.answers d.op.progress g in rw e (by_test c)
    where
      by_test :
          (o : Bool)
          → Returns (elim o [
            | false ↦ start_payload_async m.kind (d ∷ ds) t s
            | true ↦ completes m.kind d ds t s
          ])
      by_test false = start_payload-Returns d ds t s g h
      by_test true = completes-Returns d ds t s w
  after_payload-Returns operation_aborted d ds t s g h w = fails-Returns true (d ∷ ds) t s
  after_payload-Returns failure d ds t s g h w = fails-Returns false (d ∷ ds) t s

  handle-Returns :
      (phase : Phase) (ec : ErrorCode) (bytes : List ℕ) (d : OperationData B)
      (ds : List (OperationData B)) (t : Timer) (s : Socket) (stream : List ℕ)
      (done : List (List ℕ))
      → Lined m frame l (d ∷ ds) s.is_open (some phase) stream done
      → m.Moves phase d.op.progress bytes
      → Returns (handle m phase ec (length bytes) (filled m phase bytes d ∷ ds) t s)
  unfolding on_header_operation on_payload_operation
  handle-Returns in_header ec bytes d ds t s stream done x moves =
      after_header-Returns ec (with_bytes m.kind (length bytes) (filled m in_header bytes d)) ds t s
        (l.moves_header d.op.progress x.flight.0 bytes x.operations.0 x.flight.1 moves).0
  handle-Returns in_payload ec bytes d ds t s stream done x moves =
      after_payload-Returns ec (with_bytes m.kind (length bytes) (filled m in_payload bytes d)) ds t
        s (l.moves_payload d.op.progress x.flight.0 bytes x.operations.0 x.flight.1 moves).0
        (a.behind_header d.op.progress x.flight.0 bytes x.flight.1) x.operations.1

  pub Reach-Returns :
      (t : Timer) (s : Socket) {w : World B} (phase : Phase) (ec : ErrorCode) (bytes : List ℕ)
      → Reach m (idle_line t s) w
      → w.in_flight ≡ some phase
      → Fit m phase bytes w.operations
      → (turn : Turn B R) × (handle m phase ec
            (length bytes)
            (fill_first m phase bytes w.operations)
            w.timer
            w.socket
          ≡ ok turn)
  Reach-Returns t s {w} phase ec bytes r f fit =
      by_operations w.operations
        (subst (λ p. Lined m frame l w.operations w.socket.is_open p w.stream w.done) f
          (Reach-IsLine m frame l t s r))
        fit
    where
      by_operations :
          (ops : List (OperationData B))
          → Lined m frame l ops w.socket.is_open (some phase) w.stream w.done
          → Fit m phase bytes ops
          → Returns
              (handle m phase ec (length bytes) (fill_first m phase bytes ops) w.timer w.socket)
      by_operations [] x moves = absurd x.flight
      by_operations (d ∷ ds) x moves =
          handle-Returns phase ec bytes d ds w.timer w.socket w.stream w.done x moves
