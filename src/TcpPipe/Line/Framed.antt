-- ===== src/TcpPipe/Line/Framed.antt =====
-- The bytes of one side of a tcp_pipe_endpoint as frames.
pub mod Handlers
pub mod Timeouts
use common.Base.{
  ℕ, ◌≡◌, refl, sym, ap, ◌∙◌, List, [], ◌∷◌, ◌++◌, append-nil, append_assoc, length, All, Option,
  none, some, Bool, true, false, arith, Bool-cases, inl, inr, ok, bind_ok, ok_injective, subst,
  ◌||◌, not,
}
use common.Results.{PipeOpRes, is_op_success}
use common.TcpPipe.Endpoint.{
  OperationData, Timer, Socket, ErrorCode, success, operation_aborted, failure, header, payload,
  Turn, invalidate_unsafe, start_header_async, start_payload_async, ends_with, goes_on, fails,
  after_header, after_payload, next_operation, completes, closing_result, cancel_timer,
}
use common.TcpPipe.Line.{Phase, in_header, in_payload, phase_of, Medium, completed}

-- Messages one after the other.
abbrev pub frames : (List ℕ → List ℕ) → List (List ℕ) → List ℕ
frames frame [] = []
frames frame (x ∷ xs) = frame x ++ frames frame xs

pub frames-append :
    (frame : List ℕ → List ℕ) (xs : List (List ℕ)) (x : List ℕ)
    → frames frame (xs ++ x ∷ []) ≡ frames frame xs ++ frame x
frames-append frame [] x = append-nil (frame x)
frames-append frame (y ∷ xs) x =
    ap (λ r. frame y ++ r) (frames-append frame xs x)
    ∙ sym (append_assoc (frame y) (frames frame xs) (frame x))

-- What a medium must keep, for messages framed by `frame`. `held` are the bytes of a message that
-- an operation has moved, `Good` holds of its progress between two handlers, and `Partial` of what
-- it may leave on the line.
pub record Laws {B R : Type 0} (m : Medium B R) (frame : List ℕ → List ℕ) : Type 1 where
  pub Good : B → Type 0
  pub held : B → List ℕ
  pub Partial : List ℕ → Type 0
  pub nothing : Partial []
  pub keeps : (b : B) (r : PipeOpRes) → is_op_success r ≡ false → (m.kind.take r b).0 ≡ b
  pub starts : (b : B) → m.Starts b → Good b × (held b ≡ [])
  pub moves_header :
      (b : B) (r : R) (bytes : List ℕ)
      → Good b
      → m.kind.header_buffer b ≡ ok r
      → m.Moves in_header b bytes
      → let b' = m.kind.add_bytes (length bytes) (m.fill in_header bytes b) in
        Good b' × (held b' ≡ held b ++ bytes)
  pub moves_payload :
      (b : B) (r : R) (bytes : List ℕ)
      → Good b
      → m.kind.payload_buffer b ≡ ok r
      → m.Moves in_payload b bytes
      → let b' = m.kind.add_bytes (length bytes) (m.fill in_payload bytes b) in
        Good b' × (held b' ≡ held b ++ bytes)
  pub whole :
      (b : B) → Good b → m.kind.is_payload_completed b ≡ ok true → held b ≡ frame (m.message b)
  pub partial : (b : B) → Good b → Partial (held b)

module _ {B R : Type 0} (m : Medium B R) (frame : List ℕ → List ℕ) (l : Laws m frame) where
  -- The operations behind the one in progress have moved nothing.
  abbrev pub Waiting : List (OperationData B) → Type 0
  Waiting ds = All (λ (d : OperationData B). l.Good d.op.progress × (l.held d.op.progress ≡ [])) ds

  abbrev pub Operations : List (OperationData B) → Type 0
  Operations [] = Unit {0}
  Operations (d ∷ ds) = l.Good d.op.progress × Waiting ds

  -- What the line holds behind the complete frames.
  abbrev pub Tail : List (OperationData B) → Bool → List ℕ → Type 0
  Tail [] open_ tail = open_ ≡ true → tail ≡ []
  Tail (d ∷ ds) open_ tail = tail ≡ l.held d.op.progress

  abbrev pub Ready : Phase → B → Type 0
  Ready in_header b = (r : R) × (m.kind.header_buffer b ≡ ok r)
  Ready in_payload b = (r : R) × (m.kind.payload_buffer b ≡ ok r)

  -- An operation on the socket is under way exactly while there are operations.
  abbrev pub Flight : Option Phase → List (OperationData B) → Type 0
  Flight none [] = Unit {0}
  Flight none (d ∷ ds) = ⊥
  Flight (some p) [] = ⊥
  Flight (some p) (d ∷ ds) = Ready p d.op.progress

  pub record Lined (ops : List (OperationData B)) (open_ : Bool) (under_way : Option Phase)
      (stream : List ℕ) (done : List (List ℕ)) : Type 0 where
    pub tail : List ℕ
    pub line : stream ≡ frames frame done ++ tail
    pub partial : l.Partial tail
    pub end : Tail ops open_ tail
    pub operations : Operations ops
    pub flight : Flight under_way ops

  abbrev pub Fits : List ℕ → List (List ℕ) → Turn B R → Type 0
  Fits stream done turn =
      Lined turn.operations turn.socket.is_open (phase_of turn.started) stream done

  pub ends_with-Fits :
      (r : PipeOpRes) (callbacks : List ℕ) (ops : List (OperationData B)) (t : Timer) (s : Socket)
      (turn : Turn B R) (stream : List ℕ) (done : List (List ℕ)) (tail : List ℕ)
      → s.is_open ≡ false
      → stream ≡ frames frame done ++ tail
      → l.Partial tail
      → ends_with m.kind r callbacks ops t s ≡ ok turn
      → Fits stream done turn
  ends_with-Fits r callbacks ops t s turn stream done tail shut e p h =
      subst (Fits stream done) (ok_injective h) (record {
        tail = tail;
        line = e;
        partial = p;
        end = λ o. absurd (ground (arith, shut, o));
        operations = tt;
        flight = tt;
      })

  -- The start of an operation on the socket, with what the line holds of the first operation.
  pub start_header-Fits :
      (d : OperationData B) (ds : List (OperationData B)) (t : Timer) (s : Socket) (turn : Turn B R)
      (stream : List ℕ) (done : List (List ℕ))
      → stream ≡ frames frame done ++ l.held d.op.progress
      → Operations (d ∷ ds)
      → start_header_async m.kind (d ∷ ds) t s ≡ ok turn
      → Fits stream done turn
  unfolding start_header_async
  start_header-Fits d ds t s turn stream done e o h = elim (Bool-cases s.is_open) [
    | inr shut ↦
        ends_with-Fits (closing_result s) [] (d ∷ ds) t s turn stream done (l.held d.op.progress)
          shut e (l.partial d.op.progress o.0) (ground (arith, shut, h))
    | inl up ↦ begins up
  ]
    where
      begins : s.is_open ≡ true → Fits stream done turn
      begins up =
          let (r, b, f) =
            bind_ok (m.kind.header_buffer d.op.progress)
              (λ r. goes_on m.kind (header r) (d ∷ ds) t s) {b = turn} (ground (arith, up, h)) in
          subst (Fits stream done) (ok_injective f) (record {
            tail = l.held d.op.progress;
            line = e;
            partial = l.partial d.op.progress o.0;
            end = refl;
            operations = o;
            flight = (r, b);
          })

  pub start_payload-Fits :
      (d : OperationData B) (ds : List (OperationData B)) (t : Timer) (s : Socket) (turn : Turn B R)
      (stream : List ℕ) (done : List (List ℕ))
      → stream ≡ frames frame done ++ l.held d.op.progress
      → Operations (d ∷ ds)
      → start_payload_async m.kind (d ∷ ds) t s ≡ ok turn
      → Fits stream done turn
  unfolding start_payload_async invalidate_unsafe
  start_payload-Fits d ds t s turn stream done e o h =
      elim (Bool-cases (m.kind.is_payload_buffer_valid d.op.progress)) [
        | inr bad ↦
            ends_with-Fits PipeOpRes.failed (invalidate_unsafe false s).1 (d ∷ ds) t
              (invalidate_unsafe false s).0 turn stream done (l.held d.op.progress) refl e
              (l.partial d.op.progress o.0) (ground (arith, bad, h))
        | inl valid ↦ elim (Bool-cases s.is_open) [
          | inr shut ↦
              ends_with-Fits (closing_result s) [] (d ∷ ds) t s turn stream done
                (l.held d.op.progress) shut e (l.partial d.op.progress o.0)
                (ground (arith, valid, shut, h))
          | inl up ↦ begins valid up
        ]
      ]
    where
      begins :
          m.kind.is_payload_buffer_valid d.op.progress ≡ true
          → s.is_open ≡ true
          → Fits stream done turn
      begins valid up =
          let (r, b, f) =
            bind_ok (m.kind.payload_buffer d.op.progress)
              (λ r. goes_on m.kind (payload r) (d ∷ ds) t s) {b = turn}
              (ground (arith, valid, up, h)) in
          subst (Fits stream done) (ok_injective f) (record {
            tail = l.held d.op.progress;
            line = e;
            partial = l.partial d.op.progress o.0;
            end = refl;
            operations = o;
            flight = (r, b);
          })
      -- An error ends all operations, on a socket that is then closed.
