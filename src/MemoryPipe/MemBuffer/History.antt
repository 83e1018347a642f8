-- ===== src/MemoryPipe/MemBuffer/History.antt =====
-- mem_buffer over a history of events: the messages that were accepted and delivered.
use common.Base.{
  ℕ, ◌≡◌, ◌≢◌, refl, sym, ap, ◌∙◌, List, [], ◌∷◌, Option, Bool, true, false, arith, length, inl,
  inr, Bool-cases, Option-cases, ok, ok_injective, subst, if◌then◌else◌, ◌≤◌,
}
use common.Base.Assoc.{find, erase}
use common.Utils.Buffer.{Buffer}
use common.Results.{PipeOpRes}
use common.Timer.Multiple
use common.MemoryPipe.MemBuffer.{
  MemBuffer, ReadPromiseData, Effect, read_impl, read_front, timeout_callback, invalidate,
  fail_reads, write_impl, resolve_read_promise,
}
use common.MemoryPipe.MemBuffer
use common.MemoryPipe.MemBuffer.Steps.{
  World, initial, note_delivered, on_timer, Step, writes, reads, runs_write, resolves, runs_read,
  waits, invalidates, Reach, here, next,
}
use common.MemoryPipe.MemBuffer.Order.{
  Ordered, same-Ordered, write_async-Ordered, write_impl-Ordered, resolve_read_promise-Ordered,
  read_front-Ordered,
}

-- A refused read delivers nothing.
note_delivered-refused :
    (r : PipeOpRes) (p : ℕ) (message : Buffer) (done : List Buffer)
    → r ≢ PipeOpRes.success
    → note_delivered (MemBuffer.settle_read p r message ∷ []) done ≡ done
note_delivered-refused PipeOpRes.success p message done h = absurd (h refl)
note_delivered-refused PipeOpRes.canceled p message done h = refl
note_delivered-refused PipeOpRes.failed p message done h = refl
note_delivered-refused PipeOpRes.timeout p message done h = refl

read_impl-Ordered :
    (p : ℕ) (timeout : Option ℕ) (started : Bool) (b : MemBuffer) (out : MemBuffer × List Effect)
    {accepted delivered : List Buffer} {n : ℕ}
    → read_impl p timeout started b ≡ ok out
    → Ordered b accepted delivered n
    → Ordered out.0 accepted (note_delivered out.1 delivered) n
unfolding read_impl
read_impl-Ordered p timeout started b out {accepted} {delivered} {n} h o =
    elim (Bool-cases b.m_is_valid) [
      | inl v ↦ read_front-Ordered b.m_buffer p timeout b out v refl (ground (arith, h, v)) o
      | inr v ↦ refuse v (ground (arith, h, v))
    ]
  where
    answer : PipeOpRes
    answer = if started then b.m_read_invalidation_result else PipeOpRes.failed

    answer_fails : answer ≢ PipeOpRes.success
    answer_fails = ground (arith, o.refused)

    refuse :
        b.m_is_valid ≡ false
        → ok (b, MemBuffer.settle_read p answer common.Utils.Buffer.empty ∷ []) ≡ ok out
        → Ordered out.0 accepted (note_delivered out.1 delivered) n
    refuse v e =
        subst
          (λ (x : MemBuffer × List Effect). Ordered x.0 accepted (note_delivered x.1 delivered) n)
          (ok_injective e)
          (rw (note_delivered-refused answer p common.Utils.Buffer.empty delivered answer_fails) o)

length-erase : (k : ℕ) (q : List (ℕ × ReadPromiseData)) → length (erase k q) ≤ length q
unfolding erase
length-erase k [] = omega arith
length-erase k ((j, d) ∷ q) = ground (arith, length-erase k q)

erase-nil : (k : ℕ) → erase {V = ReadPromiseData} k [] ≡ []
unfolding erase
erase-nil k = refl

timeout_callback-Ordered :
    (id : ℕ) (b : MemBuffer) {accepted delivered : List Buffer} {n : ℕ}
    → Ordered b accepted delivered n
    → let out = timeout_callback id b in Ordered out.0 accepted (note_delivered out.1 delivered) n
unfolding timeout_callback
timeout_callback-Ordered id b o = elim (Option-cases (find id b.m_read_promises)) [
  | inl e ↦ rw (e, timeout_callback) o
  | inr (d, e) ↦
      rw (e, timeout_callback)
        (record {
          kept = o.kept;
          live = o.live;
          closed = λ v. let (f, g) = o.closed v in (f, ap (erase id) g ∙ erase-nil id);
          paired = ground (arith, o.paired, length-erase id b.m_read_promises);
          refused = o.refused;
        })
]

note_delivered-fail_reads :
    (cancel_read : Bool) (q : List (ℕ × ReadPromiseData)) (done : List Buffer)
    → note_delivered
        (fail_reads (if cancel_read then PipeOpRes.canceled else PipeOpRes.failed) q)
        done
      ≡ done
note_delivered-fail_reads true [] done = refl
note_delivered-fail_reads true ((id, d) ∷ q) done = note_delivered-fail_reads true q done
note_delivered-fail_reads false [] done = refl
note_delivered-fail_reads false ((id, d) ∷ q) done = note_delivered-fail_reads false q done

closing_result :
    (cancel_read : Bool)
    → (if cancel_read then PipeOpRes.canceled else PipeOpRes.failed) ≢ PipeOpRes.success
closing_result true h = ground (arith, h)
closing_result false h = ground (arith, h)

invalidate-Ordered :
    (cancel_read : Bool) (b : MemBuffer) {accepted delivered : List Buffer} {n : ℕ}
    → Ordered b accepted delivered n
    → let out = invalidate cancel_read b in
      Ordered out.0 accepted (note_delivered out.1 delivered) n
unfolding invalidate
invalidate-Ordered cancel_read b {accepted} {delivered} {n} o = elim (Bool-cases b.m_is_valid) [
  | inr v ↦ simp (v) o
  | inl v ↦ simp (v) (
      rw (note_delivered-fail_reads cancel_read b.m_read_promises delivered) (record {
        kept = o.kept;
        live = λ c. absurd (ground (arith, c));
        closed = λ c. (refl, refl);
        paired = inl (omega arith);
        refused = closing_result cancel_read;
      }))
]

on_timer-Ordered :
    (id : ℕ) (ec : Bool) (k : ℕ) (w : World)
    → Ordered w.buffer w.accepted w.delivered w.resolving
    → let u = on_timer id ec k w in Ordered u.buffer u.accepted u.delivered u.resolving
unfolding on_timer Multiple.on_wait
on_timer-Ordered id true k w o = same-Ordered w.buffer _ refl refl refl refl o
on_timer-Ordered id false k w o =
    timeout_callback-Ordered k
      (record w.buffer {
        m_timer = record w.buffer.m_timer { timers_map = erase id w.buffer.m_timer.timers_map };
      })
      (same-Ordered w.buffer _ refl refl refl refl o)

abbrev InOrder : World → Type 0
InOrder w = Ordered w.buffer w.accepted w.delivered w.resolving

Step-Ordered : {w u : World} → Step w u → InOrder w → InOrder u
unfolding MemBuffer.read_async
Step-Ordered {w} (writes now timeout p message e) o =
    subst InOrder (sym e) (write_async-Ordered now timeout p message w.buffer o)
Step-Ordered {w} (reads timeout p e) o =
    subst InOrder (sym e) (same-Ordered w.buffer _ refl refl refl refl o)
Step-Ordered {w} (runs_write now room task tasks h e) o = subst InOrder (sym e) (
    same-Ordered (write_impl now room task.data_ task.timeout_point w.buffer).0 _ refl refl refl
      refl (write_impl-Ordered now room task.data_ task.timeout_point w.buffer o))
Step-Ordered {w} (resolves n h e) o =
    subst InOrder (sym e)
      (resolve_read_promise-Ordered w.buffer (subst (Ordered w.buffer w.accepted w.delivered) h o))
Step-Ordered {w} (runs_read task tasks out h f e) o = subst InOrder (sym e) (
    read_impl-Ordered task.promise task.timeout task.started_while_valid
      (record w.buffer { m_read_strand = tasks }) out f
      (same-Ordered w.buffer _ refl refl refl refl o))
Step-Ordered {w} (waits id ec wait h e) o =
    subst InOrder (sym e) (on_timer-Ordered id ec wait.callback w o)
Step-Ordered {w} (invalidates cancel_read e) o =
    subst InOrder (sym e) (invalidate-Ordered cancel_read w.buffer o)

initial-Ordered : InOrder initial
unfolding initial MemBuffer.create
initial-Ordered = record {
  kept = ([], refl);
  live = λ _. refl;
  closed = λ c. absurd (ground (arith, c));
  paired = inl (omega arith);
  refused = λ h. ground (arith, h);
}

-- In every state that a mem_buffer can reach, the messages that reads took are the first of those
-- whose writes succeeded, in the same order; while the buffer is valid it holds exactly the
-- others; once it is not, it holds none and no read waits; and there are no more messages, or no
-- more waiting reads, than write tasks that have still to pair one up.
pub Reach-Ordered :
    {w : World} → Reach initial w → Ordered w.buffer w.accepted w.delivered w.resolving
Reach-Ordered here = initial-Ordered
Reach-Ordered (next r s) = Step-Ordered s (Reach-Ordered r)
