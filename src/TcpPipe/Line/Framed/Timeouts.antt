-- ===== src/TcpPipe/Line/Framed/Timeouts.antt =====
-- The bytes of one side of a tcp_pipe_endpoint when a timer expires or the socket changes.
use common.Base.{
  ℕ, ◌≡◌, refl, sym, ap, ◌∙◌, List, [], ◌∷◌, Option, none, some, Bool, true, false, arith,
  Bool-cases, inl, inr, subst, ◌==◌, if◌then◌else◌,
}
use common.Results.{PipeOpRes, is_op_success}
use common.TcpPipe.Endpoint.{
  OperationData, Operation, Socket, on_timeout, take_pending_result, closing_result, time_out_later,
}
use common.TcpPipe.Line.{Phase, in_header, in_payload, Medium}
use common.TcpPipe.Line.Framed.{Laws, Waiting, Lined}

module _ {B R : Type 0} (m : Medium B R) (frame : List ℕ → List ℕ) (l : Laws m frame) where
  -- A time-out leaves the progress of an operation as it is.
  time_out_later-Waiting :
      (id : ℕ) (r : PipeOpRes) (ds : List (OperationData B))
      → Waiting m frame l ds
      → Waiting m frame l (time_out_later m.kind id r ds).0
  time_out_later-Waiting id r [] w = tt
  time_out_later-Waiting id r (d ∷ ds) w = elim (Bool-cases (d.id == id)) [
    | inl same ↦ rw same w.1
    | inr other ↦ rw other (w.0, time_out_later-Waiting id r ds w.1)
  ]

  take_pending_result-progress :
      (r : PipeOpRes) (op : Operation B)
      → is_op_success r ≡ false
      → (take_pending_result m.kind r op).0.progress ≡ op.progress
  unfolding take_pending_result
  take_pending_result-progress r op h = elim (Bool-cases op.m_is_promise_resolved) [
    | inl old ↦ simp (old) refl
    | inr new ↦ simp (new) (l.keeps op.progress r h)
  ]

  timeout_fails :
      (s : Socket)
      → is_op_success (if s.is_open then PipeOpRes.timeout else closing_result s) ≡ false
  timeout_fails s = ground arith

  -- Another operation in the first place, with the same progress.
  head-Lined :
      (d d' : OperationData B) (ds : List (OperationData B)) (open_ : Bool)
      (in_flight : Option Phase) (stream : List ℕ) (done : List (List ℕ))
      → d'.op.progress ≡ d.op.progress
      → Lined m frame l (d ∷ ds) open_ in_flight stream done
      → Lined m frame l (d' ∷ ds) open_ in_flight stream done
  head-Lined d d' ds open_ none stream done e x = absurd x.flight
  head-Lined d d' ds open_ (some in_header) stream done e x = record {
    tail = x.tail;
    line = x.line;
    partial = x.partial;
    end = x.end ∙ ap l.held (sym e);
    operations = (subst l.Good (sym e) x.operations.0, x.operations.1);
    flight = (x.flight.0, ap m.kind.header_buffer e ∙ x.flight.1);
  }
  head-Lined d d' ds open_ (some in_payload) stream done e x = record {
    tail = x.tail;
    line = x.line;
    partial = x.partial;
    end = x.end ∙ ap l.held (sym e);
    operations = (subst l.Good (sym e) x.operations.0, x.operations.1);
    flight = (x.flight.0, ap m.kind.payload_buffer e ∙ x.flight.1);
  }

  rest-Lined :
      (d : OperationData B) (ds ds' : List (OperationData B)) (open_ : Bool)
      (in_flight : Option Phase) (stream : List ℕ) (done : List (List ℕ))
      → Waiting m frame l ds'
      → Lined m frame l (d ∷ ds) open_ in_flight stream done
      → Lined m frame l (d ∷ ds') open_ in_flight stream done
  rest-Lined d ds ds' open_ none stream done w x = absurd x.flight
  rest-Lined d ds ds' open_ (some p) stream done w x = record {
    tail = x.tail;
    line = x.line;
    partial = x.partial;
    end = x.end;
    operations = (x.operations.0, w);
    flight = x.flight;
  }

  pub on_timeout-Lined :
      (id : ℕ) (ops : List (OperationData B)) (s : Socket) (in_flight : Option Phase)
      (stream : List ℕ) (done : List (List ℕ))
      → Lined m frame l ops s.is_open in_flight stream done
      → Lined m frame l (on_timeout m.kind id ops s).0 s.is_open in_flight stream done
  unfolding on_timeout
  on_timeout-Lined id [] s in_flight stream done x = x
  on_timeout-Lined id (d ∷ ds) s in_flight stream done x = elim (Bool-cases (d.id == id)) [
    | inl same ↦ simp (same) (
        head-Lined d _ ds s.is_open in_flight stream done
          (take_pending_result-progress (if s.is_open then PipeOpRes.timeout else closing_result s)
            d.op (timeout_fails s))
          x)
    | inr other ↦ simp (other) (
        rest-Lined d ds _ s.is_open in_flight stream done
          (time_out_later-Waiting id (if s.is_open then PipeOpRes.timeout else closing_result s) ds
            (waiting_of in_flight x))
          x)
  ]
    where
      waiting_of :
          (p : Option Phase)
          → Lined m frame l (d ∷ ds) s.is_open p stream done
          → Waiting m frame l ds
      waiting_of p x = x.operations.1

  pub closes-Lined :
      (ops : List (OperationData B)) (a b : Bool) (in_flight : Option Phase) (stream : List ℕ)
      (done : List (List ℕ))
      → (a ≡ false → b ≡ false)
      → Lined m frame l ops a in_flight stream done
      → Lined m frame l ops b in_flight stream done
  closes-Lined [] a b in_flight stream done h x = record {
    tail = x.tail;
    line = x.line;
    partial = x.partial;
    end = λ o. x.end (still a o h);
    operations = x.operations;
    flight = x.flight;
  }
    where
      still : (a : Bool) → b ≡ true → (a ≡ false → b ≡ false) → a ≡ true
      still true o h = refl
      still false o h = absurd (ground (arith, o, h refl))
  closes-Lined (d ∷ ds) a b in_flight stream done h x = record {
    tail = x.tail;
    line = x.line;
    partial = x.partial;
    end = x.end;
    operations = x.operations;
    flight = x.flight;
  }
