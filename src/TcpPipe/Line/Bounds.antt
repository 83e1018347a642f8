-- ===== src/TcpPipe/Line/Bounds.antt =====
-- How large the messages are that a tcp_pipe_endpoint takes from its socket.
use common.Base.{ℕ, ◌<◌, ◌≤◌, ◌≡◌, ap, List, length, All, true, ok_injective, arith}
use common.Message.Types.{max_transfer_message_size}
use common.TcpPipe.Operation.{Endian, EndianLaws, bytes_of}
use common.TcpPipe.Operation.Read
use common.TcpPipe.Operation.Read.{ReadProgress}
use common.TcpPipe.Endpoint.{Timer, Socket}
use common.TcpPipe.Impl.{read_kind}
use common.TcpPipe.Line.{World, Reach, idle_line}
use common.TcpPipe.Line.Sound.{Reach-All}
use common.TcpPipe.Line.Writing.{frame}
use common.TcpPipe.Line.Reading.{read_medium, Stage, heading, loading}
use common.TcpPipe.Line.Reading.Kept.{read_laws, no_payload}

-- What a connection may be given as a message.
abbrev pub Admissible : List ℕ → Type 0
Admissible message = (0 < length message) × (length message ≤ max_transfer_message_size)

Stage-Admissible :
    (e : Endian) (r : ReadProgress)
    → Stage e r
    → Read.is_payload_completed r ≡ true
    → Admissible (bytes_of r.m_payload_buffer)
unfolding Read.is_payload_completed
Stage-Admissible e r (heading low none_) h = absurd (ground (arith, h, no_payload r none_))
Stage-Admissible e r (loading mem there size some_ bound high top) h =
    rw (ap bytes_of there) (some_, bound)

-- In every state that the reading side of an endpoint can reach, whatever bytes the peer has
-- sent, each message that it has completed has at least one byte and at most
-- max_transfer_message_size.
pub received_bounds :
    (e : Endian) (laws : EndianLaws e) (garbage : ℕ → ℕ) (t : Timer) (s : Socket)
    {w : World ReadProgress}
    → Reach (read_medium e garbage) (idle_line t s) w
    → All Admissible w.done
unfolding read_laws read_kind
received_bounds e laws garbage t s r =
    Reach-All (read_medium e garbage) (frame e) (read_laws e garbage laws) Admissible
      (λ r g h. Stage-Admissible e r g.stage (ok_injective h)) t s r
