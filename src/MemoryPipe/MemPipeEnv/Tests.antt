-- ===== src/MemoryPipe/MemPipeEnv/Tests.antt =====
-- A run of a mem_pipe_env: a client waits, and a server comes.
use common.Base.{◌≡◌, refl, [], ◌∷◌, none, some, arith, ok}
use common.Base.Assoc.{is_absent, find}
use common.Results.{PipeWaitRes}
use common.Timer.Multiple
use common.MemoryPipe.MemPipeEnv.{
  MemPipeEnv, PromiseData, server, client, settle, ready, pending, create_new_pipe_end, push_back,
}
use common.MemoryPipe.MemPipeEnv
use common.MemoryPipe.MemPipeEnv.Ledger.{
  World, new_world, Reach, here, next, asks, Joins, Reach-Joins,
}

abbrev one_client : MemPipeEnv
unfolding MemPipeEnv.create Multiple.fresh
one_client = record MemPipeEnv.create {
  m_next_read_promise_id = 1;
  m_client_side_pipe_promises = (0, record { client_id = 4; timer_id = none; promise = 0 }) ∷ [];
}

abbrev joined : MemPipeEnv
unfolding MemPipeEnv.create Multiple.fresh
joined = record MemPipeEnv.create { m_next_read_promise_id = 1 }

open_step : create_new_pipe_end 4 client none 0 0 MemPipeEnv.create ≡ ok (one_client, [], pending 0)
unfolding create_new_pipe_end push_back is_absent find MemPipeEnv.create Multiple.fresh one_client
open_step = refl

-- The two ends share their buffers.
join_step :
    create_new_pipe_end 4 server none 1 7 one_client
    ≡ ok (
      joined,
      settle 0 PipeWaitRes.success (some (record { is_server = client; buffers = 7 })) ∷ [],
      ready (record { is_server = server; buffers = 7 }),
    )
unfolding create_new_pipe_end MemPipeEnv.create Multiple.fresh one_client joined
join_step = refl

abbrev waiting : World
waiting = record { env = one_client; asked = 0 ∷ []; at_once = []; settled = [] }

abbrev paired : World
paired = record {
  env = joined;
  asked = 1 ∷ 0 ∷ [];
  at_once = 1 ∷ [];
  settled = settle 0 PipeWaitRes.success (some (record { is_server = client; buffers = 7 })) ∷ [];
}

paired-Reach : Reach new_world paired
unfolding MemPipeEnv.create one_client
paired-Reach =
    next (next here (asks 4 client none 0 0 one_client [] (pending 0) (omega arith) open_step refl))
      (asks 4 server none 1 7 joined
        (settle 0 PipeWaitRes.success (some (record { is_server = client; buffers = 7 })) ∷ [])
        (ready (record { is_server = server; buffers = 7 })) (omega arith) join_step refl)

Reach-Joins_example : Joins 0 paired
Reach-Joins_example = Reach-Joins 0 paired-Reach
