-- ===== src/TcpPipe/Line/Promises/Handlers.antt =====
-- The promises in the handlers of a tcp_pipe_endpoint.
use common.Base.{
  ℕ, ◌+◌, ◌≡◌, refl, List, [], ◌∷◌, Option, Bool, true, false, arith, subst, Bool-cases, inl, inr,
  ok, bind_ok, ok_injective, if◌then◌else◌, ◌==◌,
}
use common.Results.{PipeOpRes}
use common.TcpPipe.Endpoint.{
  Kind, OperationData, Side, Timer, Socket, ErrorCode, success, operation_aborted, failure, Turn,
  start_header_async, start_payload_async, add_operation, on_timeout, after_header, after_payload,
  next_operation, completes, emplace_front, start_timer, take_pending_result, closing_result,
  time_out_later, cancel_timer,
}
use common.TcpPipe.Line.Promises.{
  count, settles, settles-append, owes, pending, pending-append, Keeps, take_pending_result_lem,
  start_header-Keeps, start_payload-Keeps, fails-Keeps,
}

module _ {B R : Type 0} (k : Kind B R) (p : ℕ) where
  pub after_header-Keeps :
      (ec : ErrorCode) (d : OperationData B) (ds : List (OperationData B)) (t : Timer) (s : Socket)
      (turn : Turn B R)
      → after_header k ec d ds t s ≡ ok turn
      → Keeps k p (pending p (d ∷ ds)) turn
  after_header-Keeps success d ds t s turn h = by_test (k.is_header_completed d.op.progress) h
    where
      by_test :
          (o : Bool)
          → (elim o [
            | false ↦ start_header_async k (d ∷ ds) t s
            | true ↦ start_payload_async k (d ∷ ds) t s
          ])
            ≡ ok turn
          → Keeps k p (pending p (d ∷ ds)) turn
      by_test false h = start_header-Keeps k p (d ∷ ds) t s turn h
      by_test true h = start_payload-Keeps k p (d ∷ ds) t s turn h
  after_header-Keeps operation_aborted d ds t s turn h = fails-Keeps k p true (d ∷ ds) t s turn h
  after_header-Keeps failure d ds t s turn h = fails-Keeps k p false (d ∷ ds) t s turn h

  next_operation-Keeps :
      (ops : List (OperationData B)) (t : Timer) (s : Socket) (turn : Turn B R)
      → next_operation k ops t s ≡ ok turn
      → Keeps k p (pending p ops) turn
  next_operation-Keeps [] t s turn h = subst (Keeps k p 0) (ok_injective h) (omega arith)
  next_operation-Keeps (d ∷ ds) t s turn h = start_header-Keeps k p (d ∷ ds) t s turn h

  completes-Keeps :
      (d : OperationData B) (ds : List (OperationData B)) (t : Timer) (s : Socket) (turn : Turn B R)
      → completes k d ds t s ≡ ok turn
      → Keeps k p (pending p (d ∷ ds)) turn
  completes-Keeps d ds t s turn h =
      let (turn', f, g) =
        bind_ok (next_operation k ds (cancel_timer d.timer_id t) s) _ {b = turn} h in
      subst (Keeps k p (pending p (d ∷ ds))) (ok_injective g) (
        omega (
          arith,
          settles-append p (take_pending_result k PipeOpRes.success d.op).1 turn'.results,
          (take_pending_result_lem k p PipeOpRes.success d.op).0,
          next_operation-Keeps ds (cancel_timer d.timer_id t) s turn' f,
        ))

  pub after_payload-Keeps :
      (ec : ErrorCode) (d : OperationData B) (ds : List (OperationData B)) (t : Timer) (s : Socket)
      (turn : Turn B R)
      → after_payload k ec d ds t s ≡ ok turn
      → Keeps k p (pending p (d ∷ ds)) turn
  after_payload-Keeps success d ds t s turn h =
      let (c, _, g) = bind_ok (k.is_payload_completed d.op.progress) _ {b = turn} h in by_test c g
    where
      by_test :
          (o : Bool)
          → (elim o [ false ↦ start_payload_async k (d ∷ ds) t s | true ↦ completes k d ds t s ])
            ≡ ok turn
          → Keeps k p (pending p (d ∷ ds)) turn
      by_test false h = start_payload-Keeps k p (d ∷ ds) t s turn h
      by_test true h = completes-Keeps d ds t s turn h
  after_payload-Keeps operation_aborted d ds t s turn h = fails-Keeps k p true (d ∷ ds) t s turn h
  after_payload-Keeps failure d ds t s turn h = fails-Keeps k p false (d ∷ ds) t s turn h

  emplace_front-Keeps :
      (ops : List (OperationData B)) (d : OperationData B) (t : Timer) (s : Socket)
      (turn : Turn B R)
      → emplace_front k ops d t s ≡ ok turn
      → Keeps k p (pending p ops + owes p d.op) turn
  emplace_front-Keeps [] d t s turn h = omega (arith, start_header-Keeps k p (d ∷ []) t s turn h)
  emplace_front-Keeps (d' ∷ ds) d t s turn h =
      subst (Keeps k p (pending p (d' ∷ ds) + owes p d.op)) (ok_injective h)
        (omega (arith, pending-append p ds (d ∷ [])))

  pub add_operation-Keeps :
      (side : Side) (timeout : Option ℕ) (promise : ℕ) (b : B) (id : ℕ)
      (ops : List (OperationData B)) (t : Timer) (s : Socket) (turn : Turn B R)
      → add_operation k side timeout promise b id ops t s ≡ ok turn
      → Keeps k p (pending p ops + count p (promise ∷ [])) turn
  unfolding add_operation
  add_operation-Keeps side timeout promise b id ops t s turn h =
      let ((timer_id, t'), _, f) =
        bind_ok (start_timer timeout (record { side = side; id = id }) t) _ {b = turn} h in
      omega (arith, emplace_front-Keeps ops _ t' s turn f)

  time_out_later_lem :
      (id : ℕ) (r : PipeOpRes) (ds : List (OperationData B))
      → settles p (time_out_later k id r ds).1 + pending p (time_out_later k id r ds).0
        ≡ pending p ds
  time_out_later_lem id r [] = refl
  time_out_later_lem id r (d ∷ ds) = elim (Bool-cases (d.id == id)) [
    | inl same ↦ rw same (omega (arith, (take_pending_result_lem k p r d.op).0))
    | inr other ↦ rw other (omega (arith, time_out_later_lem id r ds))
  ]

  pub on_timeout_lem :
      (id : ℕ) (ops : List (OperationData B)) (s : Socket)
      → settles p (on_timeout k id ops s).1 + pending p (on_timeout k id ops s).0 ≡ pending p ops
  unfolding on_timeout
  on_timeout_lem id [] s = refl
  on_timeout_lem id (d ∷ ds) s =
      let r = if s.is_open then PipeOpRes.timeout else closing_result s in
      elim (Bool-cases (d.id == id)) [
        | inl same ↦ rw same (
            omega (
              arith,
              (take_pending_result_lem k p r d.op).0,
              (take_pending_result_lem k p r d.op).1,
            ))
        | inr other ↦ rw other (omega (arith, time_out_later_lem id r ds))
      ]
