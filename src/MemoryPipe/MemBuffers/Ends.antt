-- ===== src/MemoryPipe/MemBuffers/Ends.antt =====
-- mem_buffers over a sequence of calls: the callbacks of set_invalidate_callback.
use common.Base.{
  ℕ, ◌≡◌, refl, ap, ◌∙◌, List, [], ◌∷◌, ◌++◌, append_assoc, Bool, true, false, if◌then◌else◌,
}
use common.MemoryPipe.MemBuffers.{MemBuffers, set_invalidate_callback, invalidate_impl}

-- The two operations that touch the callbacks.
pub data Call : Type 0 where
  sets : ℕ → Call
  ends : Bool → Bool → Call

-- What a sequence of calls leaves, and the callbacks that it runs, in order.
pub run_calls : List Call → MemBuffers → MemBuffers × List ℕ
run_calls [] m = (m, [])
run_calls (sets callback ∷ calls) m =
    let (m', ran) = set_invalidate_callback callback m in
    let (m'', rest) = run_calls calls m' in (m'', ran ++ rest)
run_calls (ends server client ∷ calls) m =
    let (m', _, _, ran) = invalidate_impl server client m in
    let (m'', rest) = run_calls calls m' in (m'', ran ++ rest)

abbrev pub callbacks : List Call → List ℕ
callbacks [] = []
callbacks (sets callback ∷ calls) = callback ∷ callbacks calls
callbacks (ends server client ∷ calls) = callbacks calls

abbrev pub is_ended : List Call → Bool
is_ended [] = false
is_ended (sets callback ∷ calls) = is_ended calls
is_ended (ends server client ∷ calls) = true

run-ended :
    (calls : List Call) (m : MemBuffers)
    → m.m_invalidated ≡ true
    → m.m_on_invalidate ≡ []
    → (run_calls calls m).1 ≡ callbacks calls
unfolding run_calls set_invalidate_callback invalidate_impl
run-ended [] m h n = refl
run-ended (sets callback ∷ calls) m h n = simp (h) (ap (λ r. callback ∷ r) (run-ended calls m h n))
run-ended (ends server client ∷ calls) m h n =
    let m' = (invalidate_impl server client m).0 in
    ap (λ a. a ++ (run_calls calls m').1) n ∙ run-ended calls m' refl refl

-- For any sequence of calls on a pipe that is valid: if an invalidation is among them, the
-- callbacks that run are those that were set before and those that the calls set, each once and
-- in that order; if none is, no callback runs.
pub run_calls_lem :
    (calls : List Call) (m : MemBuffers)
    → m.m_invalidated ≡ false
    → (run_calls calls m).1 ≡ (if is_ended calls then m.m_on_invalidate ++ callbacks calls else [])
unfolding run_calls set_invalidate_callback invalidate_impl
run_calls_lem [] m h = refl
run_calls_lem (sets callback ∷ calls) m h =
    let m' : MemBuffers = record m {
      m_invalidated = false;
      m_on_invalidate = m.m_on_invalidate ++ callback ∷ [];
    } in
    simp (h) (
      run_calls_lem calls m' refl
      ∙ ap (λ r. if is_ended calls then r else [])
          (append_assoc m.m_on_invalidate (callback ∷ []) (callbacks calls)))
run_calls_lem (ends server client ∷ calls) m h =
    ap (λ r. m.m_on_invalidate ++ r) (run-ended calls (invalidate_impl server client m).0 refl refl)
