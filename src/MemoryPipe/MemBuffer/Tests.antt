-- ===== src/MemoryPipe/MemBuffer/Tests.antt =====
-- A run of a mem_buffer: a read waits, a write comes and is paired up with it.
use common.Base.{◌≡◌, refl, List, [], ◌∷◌, none, some, true, ok}
use common.Base.Assoc.{is_absent, find}
use common.Utils.Buffer.{Buffer}
use common.Timer.Multiple
use common.MemoryPipe.MemBuffer.{
  MemBuffer, Effect, write_async, read_async, write_impl, resolve_read_promise, read_impl,
  push_back, ReadPromiseData,
}
use common.MemoryPipe.MemBuffer
use common.MemoryPipe.MemBuffer.Steps.{
  World, initial, apply, written, Reach, here, next, reads, writes, runs_read, runs_write, resolves,
}
use common.MemoryPipe.MemBuffer.Order.{Ordered}
use common.MemoryPipe.MemBuffer.History.{Reach-Ordered}

abbrev message : Buffer
message = record { m_buffer = some (1 ∷ 2 ∷ []); m_size = 2 }

abbrev read_task : MemBuffer.ReadTask
read_task = record { promise = 0; timeout = none; started_while_valid = true }

abbrev write_task : MemBuffer.WriteTask
write_task = record { promise = 0; data_ = message; timeout_point = none }

abbrev asked : World
unfolding initial read_async write_async MemBuffer.create Multiple.fresh
asked = record initial {
  buffer = (write_async 5 none 0 message (read_async none 0 MemBuffer.create)).0;
}

abbrev answered : MemBuffer × List Effect
unfolding MemBuffer.create Multiple.fresh
answered = (
  record MemBuffer.create {
    m_write_strand = write_task ∷ [];
    m_next_read_promise_id = 1;
    m_read_promises = (0, record { timer_id = none; promise = 0 }) ∷ [];
  },
  [],
)

abbrev waiting : World
unfolding initial
waiting = apply answered asked

abbrev accepted : World
accepted = written write_task [] (write_impl 6 true message none waiting.buffer) waiting

abbrev delivered : World
delivered = record (apply (resolve_read_promise accepted.buffer) accepted) { resolving = 0 }

read_step : read_impl 0 none true (record asked.buffer { m_read_strand = [] }) ≡ ok answered
unfolding asked answered initial read_impl read_async write_async push_back is_absent find
    MemBuffer.create Multiple.fresh
read_step = refl

history : Reach initial delivered
unfolding asked waiting initial write_impl resolve_read_promise read_async write_async
    MemBuffer.create Multiple.fresh answered
history =
    next
      (next
        (next (next (next here (reads none 0 refl)) (writes 5 none 0 message refl))
          (runs_read read_task [] answered refl read_step refl))
        (runs_write 6 true write_task [] refl refl))
      (resolves 0 refl refl)

-- What the run delivered.
delivered_run : delivered.delivered ≡ message ∷ []
unfolding asked waiting initial write_impl resolve_read_promise read_async write_async
    MemBuffer.create Multiple.fresh answered
delivered_run = refl

Reach-Ordered_example :
    Ordered delivered.buffer delivered.accepted delivered.delivered delivered.resolving
Reach-Ordered_example = Reach-Ordered history
