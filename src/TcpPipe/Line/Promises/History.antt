-- ===== src/TcpPipe/Line/Promises/History.antt =====
-- The promises of one side of a tcp_pipe_endpoint over a history of events.
use common.Base.{ℕ, ◌+◌, ◌≡◌, refl, sym, ap, List, [], ◌∷◌, length, arith, subst, ok}
use common.TcpPipe.Endpoint.{
  OperationData, Timer, Socket, ErrorCode, Turn, on_header_operation, on_payload_operation,
  on_timeout, with_bytes,
}
use common.TcpPipe.Line.{
  Phase, in_header, in_payload, Medium, World, Step, asks, handles, times_out, socket_changes,
  Reach, here, next, idle_line, handle, filled,
}
use common.TcpPipe.Line.Promises.{count, settles, count-append, settles-append, pending}
use common.TcpPipe.Line.Promises.Handlers.{
  after_header-Keeps, after_payload-Keeps, add_operation-Keeps, on_timeout_lem,
}

module _ {B R : Type 0} (m : Medium B R) (p : ℕ) where
  abbrev Settled : World B → Type 0
  Settled w = count p w.issued ≡ settles p w.settled + pending p w.operations

  handle-Keeps :
      (phase : Phase) (ec : ErrorCode) (bytes : List ℕ) (d : OperationData B)
      (ds : List (OperationData B)) (t : Timer) (s : Socket) (turn : Turn B R)
      → handle m phase ec (length bytes) (filled m phase bytes d ∷ ds) t s ≡ ok turn
      → settles p turn.results + pending p turn.operations ≡ pending p (d ∷ ds)
  unfolding on_header_operation on_payload_operation
  handle-Keeps in_header ec bytes d ds t s turn h =
      after_header-Keeps m.kind p ec (with_bytes m.kind (length bytes) (filled m in_header bytes d))
        ds t s turn h
  handle-Keeps in_payload ec bytes d ds t s turn h =
      after_payload-Keeps m.kind p ec
        (with_bytes m.kind (length bytes) (filled m in_payload bytes d)) ds t s turn h

  Step-Settled : {w u : World B} → Step m w u → Settled w → Settled u
  Step-Settled {w} (asks side timeout promise id b turn starts up h e) x = subst Settled (sym e) (
      omega (
        arith,
        x,
        count-append p w.issued (promise ∷ []),
        settles-append p w.settled turn.results,
        add_operation-Keeps m.kind p side timeout promise b id w.operations w.timer w.socket turn h,
      ))
  Step-Settled {w} (handles phase ec bytes d ds turn f g moves shut h e) x = subst Settled (sym e) (
      omega (
        arith,
        x,
        settles-append p w.settled turn.results,
        ap (pending p) g,
        handle-Keeps phase ec bytes d ds w.timer w.socket turn h,
      ))
  Step-Settled {w} (times_out id e) x = subst Settled (sym e) (
      omega (
        arith,
        x,
        settles-append p w.settled (on_timeout m.kind id w.operations w.socket).1,
        on_timeout_lem m.kind p id w.operations w.socket,
      ))
  Step-Settled {w} (socket_changes s t shut e) x = subst Settled (sym e) x

  -- In every state that one side of an endpoint can reach, each promise that its calls gave out
  -- has been settled or is owed by exactly one of its operations that have given no result, as
  -- often as it was given out.
  pub Reach-Settled :
      (t : Timer) (s : Socket) {w : World B}
      → Reach m (idle_line t s) w
      → count p w.issued ≡ settles p w.settled + pending p w.operations
  Reach-Settled t s here = refl
  Reach-Settled t s (next r step) = Step-Settled step (Reach-Settled t s r)
