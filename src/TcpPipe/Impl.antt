-- ===== src/TcpPipe/Impl.antt =====
-- tcp_pipe_endpoint::impl put together (pipe/tcp-pipe/tcp-pipe-endpoint.cpp): the two kinds of
-- operation, and the methods that use them.
use common.Base.{
  ℕ, ◌+◌, ◌%◌, ◌^◌, List, [], Option, none, some, Bool, true, false, not, ◌==◌, Outcome, ok, ensure,
  ◌>>=◌, ◌>>◌, if◌then◌else◌,
}
use common.Utils.Buffer.{Buffer}
use common.Utils.Buffer
use common.Results.{is_op_success}
use common.Timer.Multiple
use common.TcpPipe.Operation.{Endian}
use common.TcpPipe.Operation.Write
use common.TcpPipe.Operation.Write.{WriteProgress}
use common.TcpPipe.Operation.Read
use common.TcpPipe.Operation.Read.{ReadProgress}
use common.TcpPipe.Endpoint.{
  Kind, OperationData, PendingResult, Side, writer, reader, Timer, Socket, ErrorCode, Turn,
  invalidate_unsafe, add_operation, on_timeout,
}
use common.TcpPipe.Endpoint

-- A write: its buffers for asio are bytes to send, and its payload is always there.
unfoldable pub write_kind : Kind WriteProgress (List ℕ)
write_kind = record {
  add_bytes = Write.add_bytes;
  header_buffer = Write.get_unwritten_header_buffer;
  payload_buffer = Write.get_unwritten_payload_buffer;
  is_header_completed = Write.is_header_completed;
  is_payload_completed = Write.is_payload_completed;
  is_payload_buffer_valid = λ w. true;
  take = λ r w. (w, Buffer.empty);
}

-- A read: its buffers for asio are room for bytes, and a success takes the payload.
unfoldable pub read_kind : Endian → (ℕ → ℕ) → Kind ReadProgress ℕ
read_kind e garbage = record {
  add_bytes = Read.add_bytes e garbage;
  header_buffer = Read.get_buffer_for_unread_header;
  payload_buffer = Read.get_buffer_for_unread_payload;
  is_header_completed = Read.is_header_completed;
  is_payload_completed = λ r. ok (Read.is_payload_completed r);
  is_payload_buffer_valid = Read.is_payload_buffer_valid;
  take = λ result r.
      if is_op_success result
      then (record r { m_payload_buffer = Buffer.empty }, r.m_payload_buffer)
      else (r, Buffer.empty);
}

pub record Impl : Type 0 where
  pub m_next_write_op_id : ℕ
  pub m_write_operations : List (OperationData WriteProgress)
  pub m_next_read_op_id : ℕ
  pub m_read_operations : List (OperationData ReadProgress)
  pub m_socket : Socket
  pub m_timer : Timer

unfoldable pub create : Impl
create = record {
  m_next_write_op_id = 0;
  m_write_operations = [];
  m_next_read_op_id = 0;
  m_read_operations = [];
  m_socket = record {
    is_open = true;
    m_was_invalidated_by_fail = false;
    m_disconnect_callbacks = [];
  };
  m_timer = Multiple.fresh;
}

unfoldable pub is_connected : Impl → Bool
is_connected i = i.m_socket.is_open

-- A turn of either side, put into the endpoint.
abbrev pub written : Turn WriteProgress (List ℕ) → Impl → Impl
written turn i = record i {
  m_write_operations = turn.operations;
  m_socket = turn.socket;
  m_timer = turn.timer;
}

abbrev pub read_ : Turn ReadProgress ℕ → Impl → Impl
read_ turn i = record i {
  m_read_operations = turn.operations;
  m_socket = turn.socket;
  m_timer = turn.timer;
}

-- The turn of a call that finds the socket open; `none` is a future that is ready with a failure.
unfoldable pub write_async :
    Endian → Option ℕ → ℕ → Buffer → Impl → Outcome (Impl × Option (Turn WriteProgress (List ℕ)))
write_async e timeout promise msg i = do
  ensure (not (msg.m_size == 0))
  elim i.m_socket.is_open [
    | false ↦ ok (i, none)
    | true ↦ (do
      let id = i.m_next_write_op_id
      turn ←
          add_operation write_kind writer timeout promise (Write.create e msg) id
            i.m_write_operations i.m_timer i.m_socket
      ok (record (written turn i) { m_next_write_op_id = (id + 1) % 2 ^ 64 }, some turn))
  ]

unfoldable pub read_async :
    Endian → (ℕ → ℕ) → Option ℕ → ℕ → Impl → Outcome (Impl × Option (Turn ReadProgress ℕ))
read_async e garbage timeout promise i = elim i.m_socket.is_open [
  | false ↦ ok (i, none)
  | true ↦ (do
    let id = i.m_next_read_op_id
    turn ←
        add_operation (read_kind e garbage) reader timeout promise Read.create id
          i.m_read_operations i.m_timer i.m_socket
    ok (record (read_ turn i) { m_next_read_op_id = (id + 1) % 2 ^ 64 }, some turn))
]

unfoldable pub invalidate : Impl → Impl × List ℕ
invalidate i =
    let (s, callbacks) = invalidate_unsafe true i.m_socket in (record i { m_socket = s }, callbacks)

unfoldable pub set_disconnect_callback : ℕ → Impl → Impl × List ℕ
set_disconnect_callback callback i =
    let (s, ran) = Endpoint.set_disconnect_callback callback i.m_socket in
    (record i { m_socket = s }, ran)
