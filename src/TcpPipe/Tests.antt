-- ===== src/TcpPipe/Tests.antt =====
-- The code of rpc-lib/rpc-lib/pipe/tcp-pipe at concrete inputs, with the conversions of
-- transfer-message.cpp for those of boost::endian.
use common.Base.{
  All, ℕ, ◌+◌, ◌^◌, ◌<◌, ◌≡◌, refl, ap₂, List, [], ◌∷◌, ◌++◌, length, arith, none, some, true,
  false, Outcome, ok,
}
use common.Base.Bits.{bit_and_byte}
use common.Utils.Memory.{AllBytes}
use common.Utils.Buffer.{Buffer}
use common.Utils.Buffer
use common.Message.Endian.{from_uint32_to_big_endian, from_uint_loop}
use common.Message.Endian.Value.{big_endian}
use common.Message.Encode.Layout.{length-from_uint32}
use common.Message.Layout.{big_endian-from_uint32, from_uint32-AllBytes}
use common.Timer.Multiple
use common.TcpPipe.Operation.{Endian, EndianLaws}
use common.TcpPipe.Operation.Write
use common.TcpPipe.Operation.Write.{WriteProgress}
use common.TcpPipe.Operation.Read
use common.TcpPipe.Operation.Read.{ReadProgress}
use common.TcpPipe.Endpoint.{
  Socket, Turn, writer, reader, success, add_operation, OperationData, start_header_async,
  start_payload_async, on_header_operation, on_payload_operation, take_pending_result,
}
use common.TcpPipe.Impl.{write_kind, read_kind}
use common.TcpPipe.Line.{
  World, Phase, in_header, in_payload, asks, handles, after, phase_of, Reach, here, next, idle_line,
  handle, filled,
}
use common.TcpPipe.Line.Framed.{frames}
use common.TcpPipe.Line.Writing.{frame, write_medium}
use common.TcpPipe.Line.Reading.{read_medium}
use common.TcpPipe.Line.Bounds.{Admissible, received_bounds}
use common.TcpPipe.Line.Given.{successes}
use common.TcpPipe.Line.Given.History.{Among, given_lem}
use common.TcpPipe.Line.Joined.{delivery}
use common.TcpPipe.Line.Total.Kinds.{writes_return, reads_return}
use common.TcpPipe.Line.Promises.{count, settles, pending}
use common.TcpPipe.Line.Promises.History.{Reach-Settled}

abbrev host : Endian
host = record { native_to_big = from_uint32_to_big_endian; big_to_native = big_endian 0 }

host_to_big :
    (h : List ℕ) → length h ≡ 4 → AllBytes h → from_uint32_to_big_endian (big_endian 0 h) ≡ h
unfolding from_uint32_to_big_endian from_uint_loop
host_to_big [] n h = absurd (omega arith)
host_to_big (a ∷ []) n h = absurd (omega arith)
host_to_big (a ∷ b ∷ []) n h = absurd (omega arith)
host_to_big (a ∷ b ∷ c ∷ []) n h = absurd (omega arith)
host_to_big (a ∷ b ∷ c ∷ d ∷ []) n h = simp bit_and_byte (
    ap₂ ◌∷◌ (omega arith)
      (ap₂ ◌∷◌ (omega arith) (ap₂ ◌∷◌ (omega arith) (ap₂ ◌∷◌ (omega arith) refl))))
host_to_big (a ∷ b ∷ c ∷ d ∷ x ∷ xs) n h = absurd (omega arith)

host_bound : (h : List ℕ) → length h ≡ 4 → AllBytes h → big_endian 0 h < 2 ^ 32
host_bound [] n h = absurd (omega arith)
host_bound (a ∷ []) n h = absurd (omega arith)
host_bound (a ∷ b ∷ []) n h = absurd (omega arith)
host_bound (a ∷ b ∷ c ∷ []) n h = absurd (omega arith)
host_bound (a ∷ b ∷ c ∷ d ∷ []) n h = omega arith
host_bound (a ∷ b ∷ c ∷ d ∷ x ∷ xs) n h = absurd (omega arith)

abbrev host_laws : EndianLaws host
unfolding host_to_big host_bound
host_laws = record {
  width = length-from_uint32;
  big_bytes = from_uint32-AllBytes;
  to_native = big_endian-from_uint32;
  to_big = host_to_big;
  native_bound = host_bound;
}

abbrev open_socket : Socket
open_socket = record {
  is_open = true;
  m_was_invalidated_by_fail = false;
  m_disconnect_callbacks = [];
}

abbrev hi : Buffer
hi = record { m_buffer = some (104 ∷ 105 ∷ []); m_size = 2 }

abbrev zeros : ℕ → ℕ
zeros n = 0

abbrev result : {B R : Type 0} → Outcome (Turn B R) → Turn B R
result (ok turn) = turn
result _ = record {
  operations = [];
  timer = Multiple.fresh;
  socket = open_socket;
  results = [];
  callbacks = [];
  started = none;
}

abbrev first : {B : Type 0} → B → List (OperationData B) → OperationData B
first b [] = record {
  id = 0;
  op = record { progress = b; m_is_promise_resolved = false; m_promise = 0 };
  timer_id = none;
}
first b (d ∷ ds) = d

-- The turns of a write of `hi`, sent in two parts.
abbrev asked : Turn WriteProgress (List ℕ)
asked =
    result (
      add_operation write_kind writer none 7 (Write.create host hi) 0 [] Multiple.fresh open_socket)

abbrev sends : Phase → ℕ → Turn WriteProgress (List ℕ) → Turn WriteProgress (List ℕ)
sends phase bytes turn = result (
    handle (write_medium host) phase success bytes
      (first (Write.create host hi) turn.operations ∷ []) turn.timer turn.socket)

abbrev sent_header : Turn WriteProgress (List ℕ)
sent_header = sends in_header 4 asked

abbrev sent : World WriteProgress
sent =
    let turn = sends in_payload 2 sent_header in
    after (write_medium host) (idle_line Multiple.fresh open_socket) turn (phase_of turn.started)
      (0 ∷ 0 ∷ 0 ∷ 2 ∷ 104 ∷ 105 ∷ []) ((104 ∷ 105 ∷ []) ∷ []) (7 ∷ [])

writes : Reach (write_medium host) (idle_line Multiple.fresh open_socket) sent
unfolding Write.create Write.add_bytes Write.get_unwritten_header_buffer
    Write.get_unwritten_payload_buffer Write.is_header_completed Write.is_payload_completed
    write_kind add_operation start_header_async start_payload_async on_header_operation
    on_payload_operation take_pending_result from_uint32_to_big_endian from_uint_loop
writes =
    next
      (next
        (next here (
          asks writer none 7 0 (Write.create host hi) asked (hi, refl, omega arith, refl) refl refl
            refl))
        (handles in_header success (0 ∷ 0 ∷ 0 ∷ 2 ∷ [])
          (first (Write.create host hi) asked.operations) [] sent_header refl refl ([], refl)
          (λ a. absurd (ground (arith, a))) refl refl))
      (handles in_payload success (104 ∷ 105 ∷ [])
        (first (Write.create host hi) sent_header.operations) [] (sends in_payload 2 sent_header)
        refl refl ([], refl) (λ a. absurd (ground (arith, a))) refl refl)

-- The turns of a read that receives it: the header in two parts, then the payload.
abbrev waits : Turn ReadProgress ℕ
waits =
    result (
      add_operation (read_kind host zeros) reader none 9 Read.create 0 [] Multiple.fresh
        open_socket)

abbrev receives : Phase → List ℕ → Turn ReadProgress ℕ → Turn ReadProgress ℕ
receives phase bytes turn = result (
    handle (read_medium host zeros) phase success (length bytes)
      (filled (read_medium host zeros) phase bytes (first Read.create turn.operations) ∷ [])
      turn.timer turn.socket)

abbrev some_header : Turn ReadProgress ℕ
some_header = receives in_header (0 ∷ 0 ∷ 0 ∷ []) waits

abbrev whole_header : Turn ReadProgress ℕ
whole_header = receives in_header (2 ∷ []) some_header

abbrev whole : Turn ReadProgress ℕ
whole = receives in_payload (104 ∷ 105 ∷ []) whole_header

abbrev got : World ReadProgress
got =
    after (read_medium host zeros) (idle_line Multiple.fresh open_socket) whole
      (phase_of whole.started) (0 ∷ 0 ∷ 0 ∷ 2 ∷ 104 ∷ 105 ∷ []) ((104 ∷ 105 ∷ []) ∷ []) (9 ∷ [])

reads : Reach (read_medium host zeros) (idle_line Multiple.fresh open_socket) got
unfolding Read.create Read.add_bytes Read.get_buffer_for_unread_header
    Read.get_buffer_for_unread_payload Read.is_header_completed Read.is_payload_completed
    Read.fill_header Read.fill_payload read_kind add_operation start_header_async
    start_payload_async on_header_operation on_payload_operation take_pending_result Buffer.create
reads =
    next
      (next
        (next (next here (asks reader none 9 0 Read.create waits refl refl refl refl)) (
          handles in_header success (0 ∷ 0 ∷ 0 ∷ []) (first Read.create waits.operations) []
            some_header refl refl (4, refl, omega arith, omega arith)
            (λ a. absurd (ground (arith, a))) refl refl))
        (handles in_header success (2 ∷ []) (first Read.create some_header.operations) []
          whole_header refl refl (1, refl, omega arith, omega arith)
          (λ a. absurd (ground (arith, a))) refl refl))
      (handles in_payload success (104 ∷ 105 ∷ []) (first Read.create whole_header.operations) []
        whole refl refl (2, refl, omega arith, omega arith) (λ a. absurd (ground (arith, a))) refl
        refl)

delivery_example :
    (message : List ℕ) × (suffix : List ℕ) × (rest : List (List ℕ)) × ((0 ∷ 0 ∷ 0 ∷ 2 ∷ 104 ∷ 105
          ∷ [])
        ++ suffix
      ≡ frames (frame host) ((104 ∷ 105 ∷ []) ∷ message ∷ []))
    × ((104 ∷ 105 ∷ []) ∷ rest ≡ (104 ∷ 105 ∷ []) ∷ message ∷ [])
delivery_example =
    delivery host host_laws zeros Multiple.fresh Multiple.fresh open_socket open_socket [] writes
      reads refl

Reach-Settled_example : count 9 got.issued ≡ settles 9 got.settled + pending 9 got.operations
Reach-Settled_example = Reach-Settled (read_medium host zeros) 9 Multiple.fresh open_socket reads

abbrev write_asked : World WriteProgress
write_asked =
    after (write_medium host) (idle_line Multiple.fresh open_socket) asked (some in_header) [] []
      (7 ∷ [])

writes_return_example :
    (turn : Turn WriteProgress (List ℕ)) × (handle
        (write_medium host)
        in_header
        success
        3
        (first (Write.create host hi) asked.operations ∷ [])
        asked.timer
        asked.socket
      ≡ ok turn)
unfolding Write.create Write.get_unwritten_header_buffer write_kind add_operation start_header_async
    from_uint32_to_big_endian from_uint_loop
writes_return_example =
    writes_return host host_laws Multiple.fresh open_socket {w = write_asked} in_header success
      (0 ∷ 0 ∷ 0 ∷ [])
      (next here (
        asks writer none 7 0 (Write.create host hi) asked (hi, refl, omega arith, refl) refl refl
          refl))
      refl (2 ∷ [], refl)

abbrev read_asked : World ReadProgress
read_asked =
    after (read_medium host zeros) (idle_line Multiple.fresh open_socket) waits (some in_header) []
      [] (9 ∷ [])

reads_return_example :
    (turn : Turn ReadProgress ℕ) × (handle
        (read_medium host zeros)
        in_header
        success
        4
        (filled
            (read_medium host zeros)
            in_header
            (255 ∷ 255 ∷ 255 ∷ 255 ∷ [])
            (first Read.create waits.operations)
          ∷ [])
        waits.timer
        waits.socket
      ≡ ok turn)
unfolding Read.create Read.get_buffer_for_unread_header read_kind add_operation start_header_async
reads_return_example =
    reads_return host host_laws zeros Multiple.fresh open_socket {w = read_asked} in_header success
      (255 ∷ 255 ∷ 255 ∷ 255 ∷ [])
      (next here (asks reader none 9 0 Read.create waits refl refl refl refl)) refl
      (4, refl, omega arith, omega arith)

received_bounds_example : All Admissible got.done
received_bounds_example = received_bounds host host_laws zeros Multiple.fresh open_socket reads

given_lem_example : Among (successes got.settled) ((104 ∷ 105 ∷ []) ∷ [])
given_lem_example = given_lem host zeros Multiple.fresh open_socket reads
