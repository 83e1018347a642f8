-- ===== src/Lib.antt =====
-- A verification library for common-lib and rpc-lib, a C++ RPC library over pipes.
--
-- The program. A channel (client side) and a service (server side) share a connection, which
-- numbers, sends and matches messages over a pipe. A message is a buffer in the wire format of
-- transfer-message.cpp. A connection keeps the promises of its pending requests in a map, with a
-- timer for each, and settles a promise when the response, the timeout, a failed send or the end
-- of the pipe comes. All of it runs as callbacks on a thread pool; a critical section under the
-- connection's mutex is one step of the model.
--
-- The files.
-- - Base: numbers, lists, association lists (Base/Assoc) and the outcome of a call (Base/Calls):
--   it returns, throws, or faults, where a fault is a failed assertion or an access outside
--   memory.
-- - Utils: common-lib/common-lib/utils. Memory is a block of bytes and a pointer into it; Buffer is
--   the class `buffer` and View is `cbuffer_view`. A new block holds bytes that a parameter
--   `garbage` chooses.
-- - Message: rpc-lib/rpc-lib/internal/transfer-message. Encode has the creators and the fill
--   functions, which thread the buffer and the position; Decode has the validity tests and the
--   accessors; Endian the conversions. The loops recur on the number of bytes left.
-- - Future: common-lib/common-lib/thread/future. Controller is future_controller, the shared state of a
--   future; Controller/Steps puts it among the tasks of its thread pool and of callbacks that
--   are not empty, since the code asserts that.
-- - Timer: common-lib/common-lib/timer: Multiple is multiple_timer, Periodic is periodic_timer.
--   A wait handler is an event.
-- - Results: the enumerations of rpc-lib/rpc-lib/types and rpc-lib/rpc-lib/pipe.
-- - Connection: rpc-lib/rpc-lib/internal/connection. Handlers has a function for each method and
--   continuation, from the state to the new state and the effects asked of other objects; World
--   is a step relation over the events, with a ledger of the promises and the sends.
-- - MemoryPipe: rpc-lib/rpc-lib/pipe/memory-pipe. MemPipeEnv joins the two ends of a pipe, and
--   MemPipeEnv/Ledger is a step relation over its events, with a ledger of the promises. MemBuffers
--   is the pipe, MemBuffer one direction of it: MemBuffer has the critical sections of mem_buffer,
--   with its strands as queues of tasks; MemBuffer/Steps is a step relation over them, with a
--   ledger of the messages that were accepted and delivered.
-- - TcpPipe: rpc-lib/rpc-lib/pipe/tcp-pipe. Operation has write_operation and read_operation,
--   Endpoint the templates of tcp_pipe_endpoint::impl over a kind of operation, Impl its methods.
--   Line is a step relation over the events of one direction of one endpoint, with a ledger of the
--   bytes, the messages and the promises; a `Medium` says how writes and reads differ. Line/Joined
--   puts the writer of one endpoint and the reader of the other together. ServerEnv is
--   tcp_pipe_server_env::impl, and ServerEnv/Events a step relation over its events.
-- - Rpc: rpc-lib/rpc-lib/internal/channel, service and controller. EndToEnd puts the channel, the
--   wire format and the service together. ServerConnector is
--   rpc-lib/rpc-lib/internal/connector/server-connector.cpp, with a heap for the flags that its runs
--   share, and ServerConnector/Events a step relation over its continuations.
--
-- Numbers. Bytes are numbers below 256 where `AllBytes` says so; the shifts and sums of the
-- conversions wrap at 2 ^ 32 and 2 ^ 64 as in the source, and so does the counter of timer ids.
-- No definition runs on fuel.
--
-- Parameters. google::protobuf is a parameter: `ProtoMessage` is what the code asks of a message,
-- `Serializes` its documented behaviour, and `Readable` and `Generated` are the message and the
-- service that are read. The clock's answers, the answers of the pipe and the contents of fresh
-- memory are arguments.
--
-- boost::asio is a parameter of the pipe over a socket: an operation moves a leading part of the
-- buffer that it is given, and is aborted only after its socket is closed. boost::endian is `Endian`,
-- with its documented behaviour in `EndianLaws`.
--
-- Not modelled: Windows pipes, the thread pool itself, locks, the client's connector, the
-- endpoints over the connectors, and the template metaprogramming of common-lib. The order of the steps is any order
-- that the mutex allows; a data race outside it is not modelled, and memory exhaustion only where
-- `write_impl` queues a message.
pub mod Base
pub mod Utils
pub mod Message
pub mod Future
pub mod Timer
pub mod Results
pub mod Connection
pub mod MemoryPipe
pub mod Rpc
pub mod TcpPipe
