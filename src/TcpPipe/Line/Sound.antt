-- ===== src/TcpPipe/Line/Sound.antt =====
-- What holds of each message that one side of a tcp_pipe_endpoint completes.
use common.Base.{
  ℕ, ◌≡◌, refl, sym, List, [], ◌∷◌, ◌++◌, length, All, some, Bool, true, false, Outcome, ok, throws,
  fault, subst,
}
use common.TcpPipe.Endpoint.{
  ErrorCode, success, operation_aborted, failure, Timer, Socket, OperationData,
}
use common.TcpPipe.Line.{
  Phase, in_header, in_payload, Medium, World, Step, asks, handles, times_out, socket_changes,
  Reach, here, next, completed, if_done, idle_line,
}
use common.TcpPipe.Line.Framed.{Laws, Lined}
use common.TcpPipe.Line.History.{IsLine, Reach-IsLine}

module _ {B R : Type 0} (m : Medium B R) (frame : List ℕ → List ℕ) (l : Laws m frame)
    (P : List ℕ → Type 0)
    (sound : (b : B) → l.Good b → m.kind.is_payload_completed b ≡ ok true → P (m.message b)) where
  All-append : (xs ys : List (List ℕ)) → All P xs → All P ys → All P (xs ++ ys)
  All-append [] ys h k = k
  All-append (x ∷ xs) ys h k = (h.0, All-append xs ys h.1 k)

  if_done-All : (b : B) → l.Good b → All P (if_done m (m.kind.is_payload_completed b) (m.message b))
  if_done-All b g = by_answer (m.kind.is_payload_completed b) (sound b g)
    where
      by_answer :
          (o : Outcome Bool) → (o ≡ ok true → P (m.message b)) → All P (if_done m o (m.message b))
      by_answer (ok true) h = (h refl, tt)
      by_answer (ok false) h = tt
      by_answer (throws x) h = tt
      by_answer fault h = tt

  completed-All :
      (phase : Phase) (ec : ErrorCode) (bytes : List ℕ) (d : OperationData B)
      (ds : List (OperationData B)) (w : World B)
      → Lined m frame l (d ∷ ds) w.socket.is_open (some phase) w.stream w.done
      → m.Moves phase d.op.progress bytes
      → All P (
          completed m phase ec (m.kind.add_bytes (length bytes) (m.fill phase bytes d.op.progress)))
  completed-All in_header success bytes d ds w x h = tt
  completed-All in_header operation_aborted bytes d ds w x h = tt
  completed-All in_header failure bytes d ds w x h = tt
  completed-All in_payload success bytes d ds w x h =
      if_done-All _ (l.moves_payload d.op.progress x.flight.0 bytes x.operations.0 x.flight.1 h).0
  completed-All in_payload operation_aborted bytes d ds w x h = tt
  completed-All in_payload failure bytes d ds w x h = tt

  Step-All : {w u : World B} → Step m w u → IsLine m frame l w → All P w.done → All P u.done
  Step-All {w} (asks side timeout promise id b turn starts up h e) x a =
      subst (λ (u : World B). All P u.done) (sym e) a
  Step-All {w} (handles phase ec bytes d ds turn f g moves shut h e) x a =
      subst (λ (u : World B). All P u.done) (sym e)
        (All-append w.done _ a (
          completed-All phase ec bytes d ds w
            (subst (λ o. Lined m frame l o w.socket.is_open (some phase) w.stream w.done) g
              (subst (λ p. Lined m frame l w.operations w.socket.is_open p w.stream w.done) f x))
            moves))
  Step-All {w} (times_out id e) x a = subst (λ (u : World B). All P u.done) (sym e) a
  Step-All {w} (socket_changes s t shut e) x a = subst (λ (u : World B). All P u.done) (sym e) a

  pub Reach-All : (t : Timer) (s : Socket) {w : World B} → Reach m (idle_line t s) w → All P w.done
  Reach-All t s here = tt
  Reach-All t s (next r step) = Step-All step (Reach-IsLine m frame l t s r) (Reach-All t s r)
