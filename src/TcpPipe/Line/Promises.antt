-- ===== src/TcpPipe/Line/Promises.antt =====
-- The promises of one side of a tcp_pipe_endpoint.
pub mod Handlers
pub mod History
use common.Base.{
  ℕ, ◌+◌, ◌≡◌, refl, sym, ap, ◌∙◌, List, [], ◌∷◌, ◌++◌, length, Option, none, some, Bool, true,
  false, arith, subst, Bool-cases, ◌⊎◌, inl, inr, Outcome, ok, fault, bind_ok, ok_injective, ◌>>=◌,
  ◌||◌, not, if◌then◌else◌, ◌==◌,
}
use common.Results.{PipeOpRes}
use common.TcpPipe.Endpoint.{
  Kind, OperationData, Operation, PendingResult, Side, Timer, Socket, ErrorCode, success,
  operation_aborted, failure, Started, header, payload, Turn, invalidate_unsafe, start_header_async,
  start_payload_async, on_header_operation, on_payload_operation, add_operation, on_timeout,
  ends_with, goes_on, fails, after_header, after_payload, next_operation, completes, emplace_front,
  start_timer, take_pending_result, complete_all_operations_unsafe, closing_result, with_bytes,
  time_out_later, cancel_timer,
}
use common.TcpPipe.Line.{
  Phase, in_header, in_payload, Medium, World, Step, asks, handles, times_out, socket_changes,
  Reach, here, next, idle_line, handle, filled,
}

-- How often a promise was given out, and how often it was settled.
abbrev pub count : ℕ → List ℕ → ℕ
count p [] = 0
count p (q ∷ qs) = (if q == p then 1 else 0) + count p qs

abbrev pub settles : ℕ → List PendingResult → ℕ
settles p [] = 0
settles p (r ∷ rs) = (if r.promise == p then 1 else 0) + settles p rs

pub count-append : (p : ℕ) (xs ys : List ℕ) → count p (xs ++ ys) ≡ count p xs + count p ys
count-append p [] ys = omega arith
count-append p (x ∷ xs) ys = omega (arith, count-append p xs ys)

pub settles-append :
    (p : ℕ) (xs ys : List PendingResult) → settles p (xs ++ ys) ≡ settles p xs + settles p ys
settles-append p [] ys = omega arith
settles-append p (x ∷ xs) ys = omega (arith, settles-append p xs ys)

-- How often an operation, or one of them, has still to settle a promise.
abbrev pub owes : {B : Type 0} → ℕ → Operation B → ℕ
owes p op = if op.m_is_promise_resolved then 0 else if op.m_promise == p then 1 else 0

abbrev pub pending : {B : Type 0} → ℕ → List (OperationData B) → ℕ
pending p [] = 0
pending p (d ∷ ds) = owes p d.op + pending p ds

pub pending-append :
    {B : Type 0} (p : ℕ) (xs ys : List (OperationData B))
    → pending p (xs ++ ys) ≡ pending p xs + pending p ys
pending-append p [] ys = omega arith
pending-append p (x ∷ xs) ys = omega (arith, pending-append p xs ys)

module _ {B R : Type 0} (k : Kind B R) (p : ℕ) where
  -- A turn from operations that owe `n` settlements of the promise.
  abbrev pub Keeps : ℕ → Turn B R → Type 0
  Keeps n turn = settles p turn.results + pending p turn.operations ≡ n

  pub take_pending_result_lem :
      (r : PipeOpRes) (op : Operation B)
      → (settles p (take_pending_result k r op).1 ≡ owes p op)
        × (owes p (take_pending_result k r op).0 ≡ 0)
  unfolding take_pending_result
  take_pending_result_lem r op = elim (Bool-cases op.m_is_promise_resolved) [
    | inl old ↦ simp (old) (refl, refl)
    | inr new ↦ simp (new) (omega arith, refl)
  ]

  complete_all_lem :
      (r : PipeOpRes) (ops : List (OperationData B)) (t : Timer)
      → settles p (complete_all_operations_unsafe k r ops t).1 ≡ pending p ops
  unfolding complete_all_operations_unsafe
  complete_all_lem r [] t = refl
  complete_all_lem r (d ∷ ds) t =
      settles-append p (take_pending_result k r d.op).1 _
      ∙ omega (
        arith,
        (take_pending_result_lem r d.op).0,
        complete_all_lem r ds (cancel_timer d.timer_id t),
      )

  ends_with-Keeps :
      (r : PipeOpRes) (callbacks : List ℕ) (ops : List (OperationData B)) (t : Timer) (s : Socket)
      (turn : Turn B R)
      → ends_with k r callbacks ops t s ≡ ok turn
      → Keeps (pending p ops) turn
  ends_with-Keeps r callbacks ops t s turn h =
      subst (Keeps (pending p ops)) (ok_injective h) (omega (arith, complete_all_lem r ops t))

  goes_on-Keeps :
      (started : Started R) (ops : List (OperationData B)) (t : Timer) (s : Socket)
      (turn : Turn B R)
      → goes_on k started ops t s ≡ ok turn
      → Keeps (pending p ops) turn
  goes_on-Keeps started ops t s turn h =
      subst (Keeps (pending p ops)) (ok_injective h) (omega arith)

  pub start_header-Keeps :
      (ops : List (OperationData B)) (t : Timer) (s : Socket) (turn : Turn B R)
      → start_header_async k ops t s ≡ ok turn
      → Keeps (pending p ops) turn
  unfolding start_header_async
  start_header-Keeps [] t s turn h = cc
  start_header-Keeps (d ∷ ds) t s turn h = by_socket s.is_open h
    where
      by_socket :
          (o : Bool)
          → (elim o [
            | false ↦ ends_with k (closing_result s) [] (d ∷ ds) t s
            | true ↦ k.header_buffer d.op.progress >>= λ b. goes_on k (header b) (d ∷ ds) t s
          ])
            ≡ ok turn
          → Keeps (pending p (d ∷ ds)) turn
      by_socket false h = ends_with-Keeps (closing_result s) [] (d ∷ ds) t s turn h
      by_socket true h =
          let (b, _, f) =
            bind_ok (k.header_buffer d.op.progress) (λ b. goes_on k (header b) (d ∷ ds) t s)
              {b = turn} h in
          goes_on-Keeps (header b) (d ∷ ds) t s turn f

  pub start_payload-Keeps :
      (ops : List (OperationData B)) (t : Timer) (s : Socket) (turn : Turn B R)
      → start_payload_async k ops t s ≡ ok turn
      → Keeps (pending p ops) turn
  unfolding start_payload_async invalidate_unsafe
  start_payload-Keeps [] t s turn h = cc
  start_payload-Keeps (d ∷ ds) t s turn h =
      elim (Bool-cases (k.is_payload_buffer_valid d.op.progress)) [
        | inr bad ↦
            ends_with-Keeps PipeOpRes.failed (invalidate_unsafe false s).1 (d ∷ ds) t
              (invalidate_unsafe false s).0 turn (ground (arith, bad, h))
        | inl valid ↦ elim (Bool-cases s.is_open) [
          | inr shut ↦
              ends_with-Keeps (closing_result s) [] (d ∷ ds) t s turn
                (ground (arith, valid, shut, h))
          | inl up ↦
              (let (b, _, f) =
                  bind_ok (k.payload_buffer d.op.progress) (λ b. goes_on k (payload b) (d ∷ ds) t s)
                    {b = turn} (ground (arith, valid, up, h)) in
                goes_on-Keeps (payload b) (d ∷ ds) t s turn f)
        ]
      ]

  pub fails-Keeps :
      (aborted : Bool) (ops : List (OperationData B)) (t : Timer) (s : Socket) (turn : Turn B R)
      → fails k aborted ops t s ≡ ok turn
      → Keeps (pending p ops) turn
  fails-Keeps aborted ops t s turn h = by_test (aborted || not s.is_open) h
    where
      by_test :
          (o : Bool)
          → (elim o [
            | true ↦ ends_with k (closing_result s) [] ops t s
            | false ↦
                ends_with k PipeOpRes.failed
                  (invalidate_unsafe false s).1
                  ops
                  t
                  (invalidate_unsafe false s).0
          ])
            ≡ ok turn
          → Keeps (pending p ops) turn
      by_test true h = ends_with-Keeps (closing_result s) [] ops t s turn h
      by_test false h =
          ends_with-Keeps PipeOpRes.failed (invalidate_unsafe false s).1 ops t
            (invalidate_unsafe false s).0 turn h
