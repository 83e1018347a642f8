-- ===== src/MemoryPipe/MemBuffer/Order.antt =====
-- The critical sections of mem_buffer, by the messages that they accept and deliver.
use common.Base.{
  ℕ, suc, ◌≤◌, ◌≡◌, ◌≢◌, refl, sym, ap, ◌∙◌, List, [], ◌∷◌, ◌++◌, append_assoc, Option, Bool, true,
  false, arith, length, length-append, ◌⊎◌, inl, inr, Bool-cases, ok, bind_ok, ok_injective, subst,
}
use common.Utils.Buffer.{Buffer}
use common.Results.{PipeOpRes}
use common.MemoryPipe.MemBuffer.{
  MemBuffer, ReadPromiseData, Effect, write_async, write_impl, resolve_read_promise, pair_up, await,
  read_front, start_timer, is_past,
}
use common.MemoryPipe.MemBuffer.Steps.{note_delivered, accept}

-- What has been delivered is the first part of what was accepted. While the buffer is valid, the
-- rest is what it holds; afterwards it holds nothing, and nobody waits. There are no more pairs of
-- a message and a waiting reader than write tasks that have still to resolve one.
pub record Ordered (b : MemBuffer) (accepted delivered : List Buffer) (resolving : ℕ) : Type 0 where
  pub kept : (rest : List Buffer) × (accepted ≡ delivered ++ rest)
  pub live : b.m_is_valid ≡ true → accepted ≡ delivered ++ b.m_buffer
  pub closed : b.m_is_valid ≡ false → (b.m_buffer ≡ []) × (b.m_read_promises ≡ [])
  pub paired : (length b.m_buffer ≤ resolving) ⊎ (length b.m_read_promises ≤ resolving)
  pub refused : b.m_read_invalidation_result ≢ PipeOpRes.success

-- A change of the strands, the timers or the counter.
pub same-Ordered :
    (b b' : MemBuffer) {accepted delivered : List Buffer} {n : ℕ}
    → b'.m_is_valid ≡ b.m_is_valid
    → b'.m_buffer ≡ b.m_buffer
    → b'.m_read_promises ≡ b.m_read_promises
    → b'.m_read_invalidation_result ≡ b.m_read_invalidation_result
    → Ordered b accepted delivered n
    → Ordered b' accepted delivered n
same-Ordered b b' {accepted} {delivered} valid messages readers result o = record {
  kept = o.kept;
  live = λ v. o.live (sym valid ∙ v) ∙ ap (λ m. delivered ++ m) (sym messages);
  closed = λ v. let (e, f) = o.closed (sym valid ∙ v) in (messages ∙ e, readers ∙ f);
  paired = ground (arith, o.paired);
  refused = λ r. o.refused (sym result ∙ r);
}

pub write_async-Ordered :
    (now : ℕ) (timeout : Option ℕ) (p : ℕ) (message : Buffer) (b : MemBuffer)
    {accepted delivered : List Buffer} {n : ℕ}
    → Ordered b accepted delivered n
    → Ordered (write_async now timeout p message b).0 accepted delivered n
unfolding write_async
write_async-Ordered now timeout p message b o = elim (Bool-cases b.m_is_valid) [
  | inl v ↦ simp (v) (same-Ordered b _ (sym v) refl refl refl o)
  | inr v ↦ simp (v) o
]

-- One more write task to resolve.
waiting-Ordered :
    (b : MemBuffer) {accepted delivered : List Buffer} {n : ℕ}
    → Ordered b accepted delivered n
    → Ordered b accepted delivered (suc n)
waiting-Ordered b o = record {
  kept = o.kept;
  live = o.live;
  closed = o.closed;
  paired = ground (arith, o.paired);
  refused = o.refused;
}

pushed-Ordered :
    (b : MemBuffer) (message : Buffer) {accepted delivered : List Buffer} {n : ℕ}
    → b.m_is_valid ≡ true
    → Ordered b accepted delivered n
    → Ordered
        (record b { m_is_valid = true; m_buffer = b.m_buffer ++ message ∷ [] })
        (accepted ++ message ∷ [])
        delivered
        (suc n)
pushed-Ordered b message {accepted} {delivered} v o = record {
  kept = (b.m_buffer ++ message ∷ [], longer);
  live = λ _. longer;
  closed = λ f. absurd (ground (arith, v, f));
  paired = ground (arith, o.paired, length-append b.m_buffer (message ∷ []));
  refused = o.refused;
}
  where
    longer : accepted ++ message ∷ [] ≡ delivered ++ (b.m_buffer ++ message ∷ [])
    longer =
        ap (λ m. m ++ message ∷ []) (o.live v) ∙ append_assoc delivered b.m_buffer (message ∷ [])

pub write_impl-Ordered :
    (now : ℕ) (room : Bool) (message : Buffer) (point : Option ℕ) (b : MemBuffer)
    {accepted delivered : List Buffer} {n : ℕ}
    → Ordered b accepted delivered n
    → let out = write_impl now room message point b in
      Ordered out.0 (accept out.1 message accepted) delivered (suc n)
unfolding write_impl
write_impl-Ordered now room message point b o = elim (Bool-cases b.m_is_valid) [
  | inr v ↦ simp (v) (waiting-Ordered b o)
  | inl v ↦ elim (Bool-cases (is_past now point)) [
    | inl late ↦ simp (v, late) (waiting-Ordered b o)
    | inr early ↦ elim (Bool-cases room) [
      | inl r ↦ simp (v, early, r) (pushed-Ordered b message v o)
      | inr r ↦ simp (v, early, r) (waiting-Ordered b o)
    ]
  ]
]

-- A read takes the oldest message.
taken :
    (b : MemBuffer) (message : Buffer) (messages accepted delivered : List Buffer)
    → b.m_buffer ≡ message ∷ messages
    → (b.m_is_valid ≡ true → accepted ≡ delivered ++ b.m_buffer)
    → b.m_is_valid ≡ true
    → accepted ≡ (delivered ++ message ∷ []) ++ messages
taken b message messages accepted delivered e live v =
    live v ∙ ap (λ m. delivered ++ m) e ∙ sym (append_assoc delivered (message ∷ []) messages)

pub resolve_read_promise-Ordered :
    (b : MemBuffer) {accepted delivered : List Buffer} {n : ℕ}
    → Ordered b accepted delivered (suc n)
    → let out = resolve_read_promise b in Ordered out.0 accepted (note_delivered out.1 delivered) n
unfolding resolve_read_promise
resolve_read_promise-Ordered b {accepted} {delivered} {n} o =
    pair b.m_read_promises b.m_buffer refl refl
  where
    pair :
        (q : List (ℕ × ReadPromiseData)) (messages : List Buffer)
        → b.m_read_promises ≡ q
        → b.m_buffer ≡ messages
        → let out = pair_up q messages b in
          Ordered out.0 accepted (note_delivered out.1 delivered) n
    pair [] messages e f = record {
      kept = o.kept;
      live = o.live;
      closed = o.closed;
      refused = o.refused;
      paired = inr (rw e (omega arith));
    }
    pair (d ∷ q) [] e f = record {
      kept = o.kept;
      live = o.live;
      closed = o.closed;
      refused = o.refused;
      paired = inl (rw f (omega arith));
    }
    pair ((id, d) ∷ q) (message ∷ messages) e f = elim (Bool-cases b.m_is_valid) [
      | inl v ↦ record {
        kept = (messages, taken b message messages accepted delivered f o.live v);
        live = taken b message messages accepted delivered f o.live;
        closed = λ c. absurd (ground (arith, v, c));
        paired = ground (arith, o.paired, ap length f, ap length e);
        refused = o.refused;
      }
      | inr v ↦ absurd (ground (arith, (o.closed v).0, f))
    ]

await_ok :
    (timeout : Option ℕ) (p : ℕ) (b : MemBuffer) (out : MemBuffer × List Effect)
    → await timeout p b ≡ ok out
    → (out.0.m_is_valid ≡ b.m_is_valid)
      × (out.0.m_buffer ≡ b.m_buffer)
      × (out.0.m_read_invalidation_result ≡ b.m_read_invalidation_result)
      × (out.1 ≡ [])
await_ok timeout p b out h =
    let ((timer_id, t), _, f) =
      bind_ok (start_timer timeout b.m_next_read_promise_id b.m_timer) _ h in
    subst
      (λ (o : MemBuffer × List Effect).
        (o.0.m_is_valid ≡ b.m_is_valid)
        × (o.0.m_buffer ≡ b.m_buffer)
        × (o.0.m_read_invalidation_result ≡ b.m_read_invalidation_result)
        × (o.1 ≡ []))
      (ok_injective f) (refl, refl, refl, refl)

-- A reader that starts to wait finds no message.
await-Ordered :
    (timeout : Option ℕ) (p : ℕ) (b : MemBuffer) (out : MemBuffer × List Effect)
    {accepted delivered : List Buffer} {n : ℕ}
    → b.m_is_valid ≡ true
    → b.m_buffer ≡ []
    → await timeout p b ≡ ok out
    → Ordered b accepted delivered n
    → Ordered out.0 accepted (note_delivered out.1 delivered) n
await-Ordered timeout p b out {accepted} {delivered} v e h o =
    let (valid, messages, result, none_settled) = await_ok timeout p b out h in
    rw none_settled (record {
      kept = o.kept;
      live = λ _. o.live v ∙ ap (λ m. delivered ++ m) (sym messages);
      closed = λ c. absurd (ground (arith, valid, v, c));
      paired = inl (rw (messages, e) (omega arith));
      refused = λ r. o.refused (sym result ∙ r);
    })

pub read_front-Ordered :
    (messages : List Buffer) (p : ℕ) (timeout : Option ℕ) (b : MemBuffer)
    (out : MemBuffer × List Effect) {accepted delivered : List Buffer} {n : ℕ}
    → b.m_is_valid ≡ true
    → b.m_buffer ≡ messages
    → read_front messages p timeout b ≡ ok out
    → Ordered b accepted delivered n
    → Ordered out.0 accepted (note_delivered out.1 delivered) n
read_front-Ordered [] p timeout b out v e h o = await-Ordered timeout p b out v e h o
read_front-Ordered (message ∷ messages) p timeout b out {accepted} {delivered} {n} v e h o =
    subst (λ (x : MemBuffer × List Effect). Ordered x.0 accepted (note_delivered x.1 delivered) n)
      (ok_injective h)
      (record {
        kept = (messages, taken b message messages accepted delivered e o.live v);
        live = taken b message messages accepted delivered e o.live;
        closed = λ c. absurd (ground (arith, v, c));
        paired = ground (arith, o.paired, ap length e);
        refused = o.refused;
      })
