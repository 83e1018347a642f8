-- ===== src/MemoryPipe/MemBuffer/Steps.antt =====
-- A mem_buffer among its events. A write task runs as two critical sections, `write_impl` and then
-- `resolve_read_promise`, and anything may come between them.
use common.Base.{ℕ, suc, ◌≡◌, List, [], ◌∷◌, ◌++◌, Option, none, some, Bool, ok}
use common.Base.Assoc.{find}
use common.Utils.Buffer.{Buffer}
use common.Results.{PipeOpRes}
use common.Timer.Multiple.{Wait}
use common.Timer.Multiple
use common.MemoryPipe.MemBuffer.{
  MemBuffer, WriteTask, ReadTask, Effect, settle_read, settle_write, write_async, read_async,
  write_impl, resolve_read_promise, read_impl, timeout_callback, invalidate,
}
use common.MemoryPipe.MemBuffer

-- `accepted` are the messages whose writes succeeded, and `delivered` those that reads took, both
-- oldest first; `answers` are the settled reads, newest first; `resolving` counts the write tasks
-- between their two critical sections.
pub record World : Type 0 where
  pub buffer : MemBuffer
  pub accepted : List Buffer
  pub delivered : List Buffer
  pub answers : List (ℕ × PipeOpRes)
  pub resolving : ℕ

unfoldable pub initial : World
initial = record {
  buffer = MemBuffer.create;
  accepted = [];
  delivered = [];
  answers = [];
  resolving = 0;
}

abbrev pub note_delivered : List Effect → List Buffer → List Buffer
note_delivered [] done = done
note_delivered (settle_read p PipeOpRes.success message ∷ es) done =
    note_delivered es (done ++ message ∷ [])
note_delivered (_ ∷ es) done = note_delivered es done

abbrev pub note_answers : List Effect → List (ℕ × PipeOpRes) → List (ℕ × PipeOpRes)
note_answers [] done = done
note_answers (settle_read p r message ∷ es) done = note_answers es ((p, r) ∷ done)
note_answers (_ ∷ es) done = note_answers es done

abbrev pub apply : MemBuffer × List Effect → World → World
apply (b, es) w = record w {
  buffer = b;
  delivered = note_delivered es w.delivered;
  answers = note_answers es w.answers;
}

abbrev pub accept : PipeOpRes → Buffer → List Buffer → List Buffer
accept PipeOpRes.success message done = done ++ message ∷ []
accept _ message done = done

abbrev pub written : WriteTask → List WriteTask → MemBuffer × PipeOpRes → World → World
written task tasks (b, r) w =
    record (apply (record b { m_write_strand = tasks }, settle_write task.promise r ∷ []) w) {
      accepted = accept r task.data_ w.accepted;
      resolving = suc w.resolving;
    }

unfoldable pub on_timer : ℕ → Bool → ℕ → World → World
on_timer id ec read_id w =
    let (t, callback) = Multiple.on_wait id ec read_id w.buffer.m_timer in
    let b : MemBuffer = record w.buffer { m_timer = t } in
    elim callback [ none ↦ record w { buffer = b } | some n ↦ apply (timeout_callback n b) w ]

pub data Step (w : World) (u : World) : Type 0 where
  writes :
      (now : ℕ) (timeout : Option ℕ) (promise : ℕ) (message : Buffer)
      → u ≡ record w { buffer = (write_async now timeout promise message w.buffer).0 }
      → Step w u
  reads :
      (timeout : Option ℕ) (promise : ℕ)
      → u ≡ record w { buffer = read_async timeout promise w.buffer }
      → Step w u
  runs_write :
      (now : ℕ) (room : Bool) (task : WriteTask) (tasks : List WriteTask)
      → w.buffer.m_write_strand ≡ task ∷ tasks
      → u ≡ written task tasks (write_impl now room task.data_ task.timeout_point w.buffer) w
      → Step w u
  resolves :
      (n : ℕ)
      → w.resolving ≡ suc n
      → u ≡ record (apply (resolve_read_promise w.buffer) w) { resolving = n }
      → Step w u
  runs_read :
      (task : ReadTask) (tasks : List ReadTask) (out : MemBuffer × List Effect)
      → w.buffer.m_read_strand ≡ task ∷ tasks
      → read_impl task.promise task.timeout task.started_while_valid
          (record w.buffer { m_read_strand = tasks })
        ≡ ok out
      → u ≡ apply out w
      → Step w u
  waits :
      (id : ℕ) (ec : Bool) (wait : Wait ℕ)
      → find id w.buffer.m_timer.timers_map ≡ some wait
      → u ≡ on_timer id ec wait.callback w
      → Step w u
  invalidates : (cancel_read : Bool) → u ≡ apply (invalidate cancel_read w.buffer) w → Step w u

pub data Reach (w : World) : World → Type 0 where
  here : Reach w w
  next : {t u : World} → Reach w t → Step t u → Reach w u
