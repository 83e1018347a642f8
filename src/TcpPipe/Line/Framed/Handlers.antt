-- ===== src/TcpPipe/Line/Framed/Handlers.antt =====
-- The bytes of one side of a tcp_pipe_endpoint behind its handlers.
use common.Base.{
  ℕ, ◌≡◌, refl, sym, ap, ◌∙◌, List, [], ◌∷◌, ◌++◌, append-nil, Bool, true, false, arith, Bool-cases,
  inl, inr, ok, bind_ok, ok_injective, subst, ◌||◌, not,
}
use common.Results.{PipeOpRes}
use common.TcpPipe.Endpoint.{
  OperationData, Timer, Socket, ErrorCode, success, operation_aborted, failure, Turn,
  invalidate_unsafe, start_payload_async, fails, after_header, after_payload, next_operation,
  completes, closing_result, cancel_timer,
}
use common.TcpPipe.Line.{in_payload, Medium, completed}
use common.TcpPipe.Line.Framed.{
  frames, frames-append, Laws, Waiting, Operations, Fits, ends_with-Fits, start_header-Fits,
  start_payload-Fits,
}

module _ {B R : Type 0} (m : Medium B R) (frame : List ℕ → List ℕ) (l : Laws m frame) where
  fails-Fits :
      (aborted : Bool) (d : OperationData B) (ds : List (OperationData B)) (t : Timer) (s : Socket)
      (turn : Turn B R) (stream : List ℕ) (done : List (List ℕ))
      → (aborted ≡ true → s.is_open ≡ false)
      → stream ≡ frames frame done ++ l.held d.op.progress
      → Operations m frame l (d ∷ ds)
      → fails m.kind aborted (d ∷ ds) t s ≡ ok turn
      → Fits m frame l stream done turn
  unfolding invalidate_unsafe
  fails-Fits aborted d ds t s turn stream done shut e o h =
      elim (Bool-cases (aborted || not s.is_open)) [
        | inl ended ↦
            ends_with-Fits m frame l (closing_result s) [] (d ∷ ds) t s turn stream done
              (l.held d.op.progress) (ground (arith, ended, shut)) e (l.partial d.op.progress o.0)
              (ground (arith, ended, h))
        | inr up ↦
            ends_with-Fits m frame l PipeOpRes.failed (invalidate_unsafe false s).1 (d ∷ ds) t
              (invalidate_unsafe false s).0 turn stream done (l.held d.op.progress) refl e
              (l.partial d.op.progress o.0) (ground (arith, up, h))
      ]

  pub after_header-Fits :
      (ec : ErrorCode) (d : OperationData B) (ds : List (OperationData B)) (t : Timer) (s : Socket)
      (turn : Turn B R) (stream : List ℕ) (done : List (List ℕ))
      → (ec ≡ operation_aborted → s.is_open ≡ false)
      → stream ≡ frames frame done ++ l.held d.op.progress
      → Operations m frame l (d ∷ ds)
      → after_header m.kind ec d ds t s ≡ ok turn
      → Fits m frame l stream done turn
  after_header-Fits success d ds t s turn stream done shut e o h =
      elim (Bool-cases (m.kind.is_header_completed d.op.progress)) [
        | inr more ↦
            start_header-Fits m frame l d ds t s turn stream done e o (ground (arith, more, h))
        | inl full ↦
            start_payload-Fits m frame l d ds t s turn stream done e o (ground (arith, full, h))
      ]
  after_header-Fits operation_aborted d ds t s turn stream done shut e o h =
      fails-Fits true d ds t s turn stream done (λ a. shut refl) e o h
  after_header-Fits failure d ds t s turn stream done shut e o h =
      fails-Fits false d ds t s turn stream done (λ a. absurd (ground (arith, a))) e o h

  -- The next operation starts on an empty tail.
  next_operation-Fits :
      (ds : List (OperationData B)) (t : Timer) (s : Socket) (turn : Turn B R) (stream : List ℕ)
      (done : List (List ℕ))
      → stream ≡ frames frame done
      → Waiting m frame l ds
      → next_operation m.kind ds t s ≡ ok turn
      → Fits m frame l stream done turn
  next_operation-Fits [] t s turn stream done e w h =
      subst (Fits m frame l stream done) (ok_injective h) (record {
        tail = [];
        line = e ∙ sym (append-nil (frames frame done));
        partial = l.nothing;
        end = λ o. refl;
        operations = tt;
        flight = tt;
      })
  next_operation-Fits (d ∷ ds) t s turn stream done e w h =
      start_header-Fits m frame l d ds t s turn stream done
        (e ∙ sym (append-nil (frames frame done)) ∙ ap (λ r. frames frame done ++ r) (sym w.0.1))
        (w.0.0, w.1) h

  completes-Fits :
      (d : OperationData B) (ds : List (OperationData B)) (t : Timer) (s : Socket) (turn : Turn B R)
      (stream : List ℕ) (done : List (List ℕ))
      → stream ≡ frames frame done
      → Waiting m frame l ds
      → completes m.kind d ds t s ≡ ok turn
      → Fits m frame l stream done turn
  completes-Fits d ds t s turn stream done e w h =
      let (turn', f, g) = bind_ok (next_operation m.kind ds (cancel_timer d.timer_id t) s) _ h in
      let x = next_operation-Fits ds (cancel_timer d.timer_id t) s turn' stream done e w f in
      subst (Fits m frame l stream done) (ok_injective g) (record {
        tail = x.tail;
        line = x.line;
        partial = x.partial;
        end = x.end;
        operations = x.operations;
        flight = x.flight;
      })

  pub after_payload-Fits :
      (ec : ErrorCode) (d : OperationData B) (ds : List (OperationData B)) (t : Timer) (s : Socket)
      (turn : Turn B R) (stream : List ℕ) (done : List (List ℕ))
      → (ec ≡ operation_aborted → s.is_open ≡ false)
      → stream ≡ frames frame done ++ l.held d.op.progress
      → Operations m frame l (d ∷ ds)
      → after_payload m.kind ec d ds t s ≡ ok turn
      → Fits m frame l stream (done ++ completed m in_payload ec d.op.progress) turn
  after_payload-Fits success d ds t s turn stream done shut e o h =
      let (c, f, g) = bind_ok (m.kind.is_payload_completed d.op.progress) _ h in split c f g
    where
      split :
          (c : Bool)
          → m.kind.is_payload_completed d.op.progress ≡ ok c
          → (elim c [
            | false ↦ start_payload_async m.kind (d ∷ ds) t s
            | true ↦ completes m.kind d ds t s
          ])
            ≡ ok turn
          → Fits m frame l stream (done ++ completed m in_payload success d.op.progress) turn
      split false f g =
          rw (f, append-nil done) (start_payload-Fits m frame l d ds t s turn stream done e o g)
      split true f g = rw f (
          completes-Fits d ds t s turn stream (done ++ m.message d.op.progress ∷ [])
            (e
              ∙ ap (λ r. frames frame done ++ r) (l.whole d.op.progress o.0 f)
              ∙ sym (frames-append frame done (m.message d.op.progress)))
            o.1 g)
  after_payload-Fits operation_aborted d ds t s turn stream done shut e o h =
      rw (append-nil done) (fails-Fits true d ds t s turn stream done (λ a. shut refl) e o h)
  after_payload-Fits failure d ds t s turn stream done shut e o h =
      rw (append-nil done)
        (fails-Fits false d ds t s turn stream done (λ a. absurd (ground (arith, a))) e o h)
