-- ===== src/MemoryPipe/MemBuffers/Tests.antt =====
-- The end of a pipe with one callback before it and one after.
use common.Base.{◌≡◌, refl, [], ◌∷◌, true, false}
use common.MemoryPipe.MemBuffers
use common.MemoryPipe.MemBuffers.Ends.{sets, ends, run_calls, run_calls_lem}

run_calls_lem_example :
    (run_calls (sets 1 ∷ ends true false ∷ sets 2 ∷ []) MemBuffers.create).1 ≡ 1 ∷ 2 ∷ []
unfolding MemBuffers.create
run_calls_lem_example =
    run_calls_lem (sets 1 ∷ ends true false ∷ sets 2 ∷ []) MemBuffers.create refl
