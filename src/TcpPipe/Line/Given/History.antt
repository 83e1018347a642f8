-- ===== src/TcpPipe/Line/Given/History.antt =====
-- The messages that reads have given, over a history of one side of a tcp_pipe_endpoint.
use common.Base.{
  ℕ, ◌≡◌, refl, sym, List, [], ◌∷◌, ◌++◌, append-nil, length, Bool, true, false, subst, ◌⊎◌, inl,
  inr, ok, bind_ok,
}
use common.Results.{PipeOpRes}
use common.TcpPipe.Operation.{Endian, bytes_of}
use common.TcpPipe.Operation.Read.{ReadProgress}
use common.TcpPipe.Endpoint.{
  OperationData, PendingResult, Timer, Socket, ErrorCode, success, operation_aborted, failure, Turn,
  start_payload_async, on_header_operation, on_payload_operation, after_payload, completes,
  with_bytes,
}
use common.TcpPipe.Impl.{read_kind}
use common.TcpPipe.Line.{
  Phase, in_header, in_payload, Medium, World, Step, asks, handles, times_out, socket_changes,
  Reach, here, next, idle_line, handle, filled, completed, if_done,
}
use common.TcpPipe.Line.Reading.{read_medium}
use common.TcpPipe.Line.Given.{
  successes, successes-append, start_payload-Quiet, fails-Quiet, after_header-Quiet,
  completes-gives, add_operation-Quiet, on_timeout-quiet,
}

-- The first messages are some of the second, in their order.
pub data Among : List (List ℕ) → List (List ℕ) → Type 0 where
  no_more : Among [] []
  skips : {xs ys : List (List ℕ)} (y : List ℕ) → Among xs ys → Among xs (y ∷ ys)
  keeps : {xs ys : List (List ℕ)} (x : List ℕ) → Among xs ys → Among (x ∷ xs) (x ∷ ys)

nothing-Among : (ys : List (List ℕ)) → Among [] ys
nothing-Among [] = no_more
nothing-Among (y ∷ ys) = skips y (nothing-Among ys)

Among-append :
    {xs ys xs' ys' : List (List ℕ)} → Among xs ys → Among xs' ys' → Among (xs ++ xs') (ys ++ ys')
Among-append no_more b = b
Among-append (skips y a) b = skips y (Among-append a b)
Among-append (keeps x a) b = keeps x (Among-append a b)

module _ {B R : Type 0} (m : Medium B R)
    (gives : (b : B) → bytes_of (m.kind.take PipeOpRes.success b).1 ≡ m.message b) where
  after_payload-Among :
      (ec : ErrorCode) (d : OperationData B) (ds : List (OperationData B)) (t : Timer) (s : Socket)
      (turn : Turn B R)
      → after_payload m.kind ec d ds t s ≡ ok turn
      → Among (successes turn.results) (completed m in_payload ec d.op.progress)
  after_payload-Among success d ds t s turn h =
      let (c, e, f) = bind_ok (m.kind.is_payload_completed d.op.progress) _ {b = turn} h in
      rw e (by_test c f)
    where
      by_gift :
          (successes turn.results ≡ [])
            ⊎ (successes turn.results
                ≡ bytes_of (m.kind.take PipeOpRes.success d.op.progress).1 ∷ [])
          → Among (successes turn.results) (m.message d.op.progress ∷ [])
      by_gift (inl q) = rw q (nothing-Among _)
      by_gift (inr g) = rw (g, gives d.op.progress) (keeps (m.message d.op.progress) no_more)

      by_test :
          (o : Bool)
          → (elim o [
            | false ↦ start_payload_async m.kind (d ∷ ds) t s
            | true ↦ completes m.kind d ds t s
          ])
            ≡ ok turn
          → Among (successes turn.results) (if_done m (ok o) (m.message d.op.progress))
      by_test false f = rw (start_payload-Quiet m.kind (d ∷ ds) t s turn f) no_more
      by_test true f = by_gift (completes-gives m.kind d ds t s turn f)
  after_payload-Among operation_aborted d ds t s turn h =
      rw (fails-Quiet m.kind true (d ∷ ds) t s turn h) no_more
  after_payload-Among failure d ds t s turn h =
      rw (fails-Quiet m.kind false (d ∷ ds) t s turn h) no_more

  nothing_of_header : (ec : ErrorCode) (b : B) → completed m in_header ec b ≡ []
  nothing_of_header success b = refl
  nothing_of_header operation_aborted b = refl
  nothing_of_header failure b = refl

  handle-Among :
      (phase : Phase) (ec : ErrorCode) (bytes : List ℕ) (d : OperationData B)
      (ds : List (OperationData B)) (t : Timer) (s : Socket) (turn : Turn B R)
      → handle m phase ec (length bytes) (filled m phase bytes d ∷ ds) t s ≡ ok turn
      → Among (successes turn.results) (
          completed m phase ec (m.kind.add_bytes (length bytes) (m.fill phase bytes d.op.progress)))
  unfolding on_header_operation on_payload_operation
  handle-Among in_header ec bytes d ds t s turn h =
      rw
        (after_header-Quiet m.kind ec
          (with_bytes m.kind (length bytes) (filled m in_header bytes d)) ds t s turn h)
        (nothing-Among _)
  handle-Among in_payload ec bytes d ds t s turn h =
      after_payload-Among ec (with_bytes m.kind (length bytes) (filled m in_payload bytes d)) ds t s
        turn h

  abbrev IsGiven : World B → Type 0
  IsGiven w = Among (successes w.settled) w.done

  grows :
      (w : World B) (rs : List PendingResult) (more : List (List ℕ))
      → Among (successes rs) more
      → IsGiven w
      → Among (successes (w.settled ++ rs)) (w.done ++ more)
  grows w rs more a x = rw (successes-append w.settled rs) (Among-append x a)

  stays :
      (w : World B) (rs : List PendingResult)
      → successes rs ≡ []
      → IsGiven w
      → Among (successes (w.settled ++ rs)) w.done
  stays w rs q x = rw (successes-append w.settled rs, q, append-nil (successes w.settled)) x

  Step-IsGiven : {w u : World B} → Step m w u → IsGiven w → IsGiven u
  Step-IsGiven {w} (asks side timeout promise id b turn starts up h e) x = subst IsGiven (sym e) (
      stays w turn.results
        (add_operation-Quiet m.kind side timeout promise b id w.operations w.timer w.socket turn h)
        x)
  Step-IsGiven {w} (handles phase ec bytes d ds turn f g moves shut h e) x =
      subst IsGiven (sym e)
        (grows w turn.results _ (handle-Among phase ec bytes d ds w.timer w.socket turn h) x)
  Step-IsGiven {w} (times_out id e) x =
      subst IsGiven (sym e) (stays w _ (on_timeout-quiet m.kind id w.operations w.socket) x)
  Step-IsGiven {w} (socket_changes s t shut e) x = subst IsGiven (sym e) x

  Reach-IsGiven : (t : Timer) (s : Socket) {w : World B} → Reach m (idle_line t s) w → IsGiven w
  Reach-IsGiven t s here = no_more
  Reach-IsGiven t s (next r step) = Step-IsGiven step (Reach-IsGiven t s r)

read_gives :
    (e : Endian) (garbage : ℕ → ℕ) (r : ReadProgress)
    → bytes_of ((read_kind e garbage).take PipeOpRes.success r).1 ≡ bytes_of r.m_payload_buffer
unfolding read_kind
read_gives e garbage r = refl

-- In every state that the reading side of an endpoint can reach, the buffers that its reads have
-- given with a success are, in order and unaltered, some of the messages that the side has
-- completed.
pub given_lem :
    (e : Endian) (garbage : ℕ → ℕ) (t : Timer) (s : Socket) {w : World ReadProgress}
    → Reach (read_medium e garbage) (idle_line t s) w
    → Among (successes w.settled) w.done
given_lem e garbage t s r = Reach-IsGiven (read_medium e garbage) (read_gives e garbage) t s r
