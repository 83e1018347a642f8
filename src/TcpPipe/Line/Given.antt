-- ===== src/TcpPipe/Line/Given.antt =====
-- The messages that the reads of a tcp_pipe_endpoint give to their callers.
pub mod History
use common.Base.{
  ℕ, ◌≡◌, refl, sym, ap, ◌∙◌, List, [], ◌∷◌, ◌++◌, append-nil, length, Option, none, some, Bool,
  true, false, arith, subst, Bool-cases, ◌⊎◌, inl, inr, Outcome, ok, bind_ok, ok_injective, ◌>>=◌,
  ◌||◌, not, if◌then◌else◌, ◌==◌,
}
use common.Results.{PipeOpRes, is_op_success}
use common.TcpPipe.Operation.{bytes_of}
use common.TcpPipe.Endpoint.{
  Kind, OperationData, Operation, PendingResult, Side, Timer, Socket, ErrorCode, success,
  operation_aborted, failure, Started, header, payload, Turn, invalidate_unsafe, start_header_async,
  start_payload_async, on_header_operation, on_payload_operation, add_operation, on_timeout,
  ends_with, goes_on, fails, after_header, after_payload, next_operation, completes, emplace_front,
  start_timer, take_pending_result, complete_all_operations_unsafe, closing_result, with_bytes,
  time_out_later, cancel_timer,
}

-- The messages of the results that are a success.
abbrev pub successes : List PendingResult → List (List ℕ)
successes [] = []
successes (r ∷ rs) = (if is_op_success r.result then bytes_of r.buffer ∷ [] else []) ++ successes rs

pub successes-append :
    (xs ys : List PendingResult) → successes (xs ++ ys) ≡ successes xs ++ successes ys
successes-append [] ys = refl
successes-append (x ∷ xs) ys = elim (Bool-cases (is_op_success x.result)) [
  | inl yes_ ↦ rw yes_ (ap (λ t. bytes_of x.buffer ∷ t) (successes-append xs ys))
  | inr no_ ↦ rw no_ (successes-append xs ys)
]

closing_fails : (s : Socket) → is_op_success (closing_result s) ≡ false
closing_fails s = ground arith

module _ {B R : Type 0} (k : Kind B R) where
  abbrev pub Quiet : Turn B R → Type 0
  Quiet turn = successes turn.results ≡ []

  take-quiet :
      (r : PipeOpRes) (op : Operation B)
      → is_op_success r ≡ false
      → successes (take_pending_result k r op).1 ≡ []
  unfolding take_pending_result
  take-quiet r op h = elim (Bool-cases op.m_is_promise_resolved) [
    | inl old ↦ simp (old) refl
    | inr new ↦ simp (new, h) refl
  ]

  complete_all-quiet :
      (r : PipeOpRes) (ops : List (OperationData B)) (t : Timer)
      → is_op_success r ≡ false
      → successes (complete_all_operations_unsafe k r ops t).1 ≡ []
  unfolding complete_all_operations_unsafe
  complete_all-quiet r [] t h = refl
  complete_all-quiet r (d ∷ ds) t h =
      successes-append (take_pending_result k r d.op).1 _
      ∙ rw (take-quiet r d.op h) (complete_all-quiet r ds (cancel_timer d.timer_id t) h)

  ends_with-Quiet :
      (r : PipeOpRes) (callbacks : List ℕ) (ops : List (OperationData B)) (t : Timer) (s : Socket)
      (turn : Turn B R)
      → is_op_success r ≡ false
      → ends_with k r callbacks ops t s ≡ ok turn
      → Quiet turn
  ends_with-Quiet r callbacks ops t s turn q h =
      subst Quiet (ok_injective h) (complete_all-quiet r ops t q)

  start_header-Quiet :
      (ops : List (OperationData B)) (t : Timer) (s : Socket) (turn : Turn B R)
      → start_header_async k ops t s ≡ ok turn
      → Quiet turn
  unfolding start_header_async
  start_header-Quiet [] t s turn h = cc
  start_header-Quiet (d ∷ ds) t s turn h = elim (Bool-cases s.is_open) [
    | inr shut ↦
        ends_with-Quiet (closing_result s) [] (d ∷ ds) t s turn (closing_fails s)
          (ground (arith, shut, h))
    | inl up ↦
        (let (b, _, f) =
            bind_ok (k.header_buffer d.op.progress) (λ b. goes_on k (header b) (d ∷ ds) t s)
              {b = turn} (ground (arith, up, h)) in
          subst Quiet (ok_injective f) refl)
  ]

  pub start_payload-Quiet :
      (ops : List (OperationData B)) (t : Timer) (s : Socket) (turn : Turn B R)
      → start_payload_async k ops t s ≡ ok turn
      → Quiet turn
  unfolding start_payload_async invalidate_unsafe
  start_payload-Quiet [] t s turn h = cc
  start_payload-Quiet (d ∷ ds) t s turn h =
      elim (Bool-cases (k.is_payload_buffer_valid d.op.progress)) [
        | inr bad ↦
            ends_with-Quiet PipeOpRes.failed (invalidate_unsafe false s).1 (d ∷ ds) t
              (invalidate_unsafe false s).0 turn refl (ground (arith, bad, h))
        | inl valid ↦ elim (Bool-cases s.is_open) [
          | inr shut ↦
              ends_with-Quiet (closing_result s) [] (d ∷ ds) t s turn (closing_fails s)
                (ground (arith, valid, shut, h))
          | inl up ↦
              (let (b, _, f) =
                  bind_ok (k.payload_buffer d.op.progress) (λ b. goes_on k (payload b) (d ∷ ds) t s)
                    {b = turn} (ground (arith, valid, up, h)) in
                subst Quiet (ok_injective f) refl)
        ]
      ]

  pub fails-Quiet :
      (aborted : Bool) (ops : List (OperationData B)) (t : Timer) (s : Socket) (turn : Turn B R)
      → fails k aborted ops t s ≡ ok turn
      → Quiet turn
  fails-Quiet aborted ops t s turn h = by_test (aborted || not s.is_open) h
    where
      by_test :
          (o : Bool)
          → (elim o [
            | true ↦ ends_with k (closing_result s) [] ops t s
            | false ↦
                ends_with k PipeOpRes.failed
                  (invalidate_unsafe false s).1
                  ops
                  t
                  (invalidate_unsafe false s).0
          ])
            ≡ ok turn
          → Quiet turn
      by_test true h = ends_with-Quiet (closing_result s) [] ops t s turn (closing_fails s) h
      by_test false h =
          ends_with-Quiet PipeOpRes.failed (invalidate_unsafe false s).1 ops t
            (invalidate_unsafe false s).0 turn refl h

  pub after_header-Quiet :
      (ec : ErrorCode) (d : OperationData B) (ds : List (OperationData B)) (t : Timer) (s : Socket)
      (turn : Turn B R)
      → after_header k ec d ds t s ≡ ok turn
      → Quiet turn
  after_header-Quiet success d ds t s turn h = by_test (k.is_header_completed d.op.progress) h
    where
      by_test :
          (o : Bool)
          → (elim o [
            | false ↦ start_header_async k (d ∷ ds) t s
            | true ↦ start_payload_async k (d ∷ ds) t s
          ])
            ≡ ok turn
          → Quiet turn
      by_test false h = start_header-Quiet (d ∷ ds) t s turn h
      by_test true h = start_payload-Quiet (d ∷ ds) t s turn h
  after_header-Quiet operation_aborted d ds t s turn h = fails-Quiet true (d ∷ ds) t s turn h
  after_header-Quiet failure d ds t s turn h = fails-Quiet false (d ∷ ds) t s turn h

  next_operation-Quiet :
      (ops : List (OperationData B)) (t : Timer) (s : Socket) (turn : Turn B R)
      → next_operation k ops t s ≡ ok turn
      → Quiet turn
  next_operation-Quiet [] t s turn h = subst Quiet (ok_injective h) refl
  next_operation-Quiet (d ∷ ds) t s turn h = start_header-Quiet (d ∷ ds) t s turn h

  -- An operation that completes gives its message, or has given a result before.
  pub completes-gives :
      (d : OperationData B) (ds : List (OperationData B)) (t : Timer) (s : Socket) (turn : Turn B R)
      → completes k d ds t s ≡ ok turn
      → (successes turn.results ≡ [])
        ⊎ (successes turn.results ≡ bytes_of (k.take PipeOpRes.success d.op.progress).1 ∷ [])
  unfolding take_pending_result
  completes-gives d ds t s turn h =
      let (turn', f, g) =
        bind_ok (next_operation k ds (cancel_timer d.timer_id t) s) _ {b = turn} h in
      let q = next_operation-Quiet ds (cancel_timer d.timer_id t) s turn' f in
      subst
        (λ (u : Turn B R).
          (successes u.results ≡ [])
          ⊎ (successes u.results ≡ bytes_of (k.take PipeOpRes.success d.op.progress).1 ∷ []))
        (ok_injective g)
        (elim (Bool-cases d.op.m_is_promise_resolved) [
          | inl old ↦ simp (old) (inl q)
          | inr new ↦
              simp (new) (inr (ap (λ t. bytes_of (k.take PipeOpRes.success d.op.progress).1 ∷ t) q))
        ])

  pub add_operation-Quiet :
      (side : Side) (timeout : Option ℕ) (promise : ℕ) (b : B) (id : ℕ)
      (ops : List (OperationData B)) (t : Timer) (s : Socket) (turn : Turn B R)
      → add_operation k side timeout promise b id ops t s ≡ ok turn
      → Quiet turn
  unfolding add_operation
  add_operation-Quiet side timeout promise b id ops t s turn h =
      let ((timer_id, t'), _, f) =
        bind_ok (start_timer timeout (record { side = side; id = id }) t) _ {b = turn} h in
      by_ops ops t' timer_id f
    where
      by_ops :
          (ops : List (OperationData B)) (t' : Timer) (timer_id : Option ℕ)
          → emplace_front k ops
              (record {
                id = id;
                op = record { progress = b; m_is_promise_resolved = false; m_promise = promise };
                timer_id = timer_id;
              })
              t'
              s
            ≡ ok turn
          → Quiet turn
      by_ops [] t' timer_id f = start_header-Quiet _ t' s turn f
      by_ops (d ∷ ds) t' timer_id f = subst Quiet (ok_injective f) refl

  time_out_later-quiet :
      (id : ℕ) (r : PipeOpRes) (ds : List (OperationData B))
      → is_op_success r ≡ false
      → successes (time_out_later k id r ds).1 ≡ []
  time_out_later-quiet id r [] h = refl
  time_out_later-quiet id r (d ∷ ds) h = elim (Bool-cases (d.id == id)) [
    | inl same ↦ rw same (take-quiet r d.op h)
    | inr other ↦ rw other (time_out_later-quiet id r ds h)
  ]

  pub on_timeout-quiet :
      (id : ℕ) (ops : List (OperationData B)) (s : Socket)
      → successes (on_timeout k id ops s).1 ≡ []
  unfolding on_timeout
  on_timeout-quiet id [] s = refl
  on_timeout-quiet id (d ∷ ds) s =
      let r = if s.is_open then PipeOpRes.timeout else closing_result s in
      let q : is_op_success (if s.is_open then PipeOpRes.timeout else closing_result s) ≡ false =
        ground arith in
      elim (Bool-cases (d.id == id)) [
        | inl same ↦ rw same (take-quiet r d.op q)
        | inr other ↦ rw other (time_out_later-quiet id r ds q)
      ]
