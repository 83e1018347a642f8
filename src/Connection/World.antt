-- ===== src/Connection/World.antt =====
-- A connection in its surroundings: the events that reach it, one critical section at a time, and
-- a ledger of its promises and sends.
pub mod Failing
pub mod Account
pub mod Handled
pub mod Request
pub mod Once
pub mod Sent
pub mod Guarded
mod Tests
use common.Base.{
  ℕ, suc, ◌+◌, ◌≡◌, List, [], ◌∷◌, Option, none, some, Bool, true, false, ◌==◌, if◌then◌else◌,
  Outcome, ok, ◌>>=◌,
}
use common.Base.Assoc.{find}
use common.Utils.Buffer.{Buffer}
use common.Results.{RequestResult, PipeOpRes}
use common.Timer.Multiple.{MultipleTimer, Wait}
use common.Timer.Multiple
use common.Connection.Handlers.{
  Impl, Effect, settle, send_request, RequestFuture, ready, pending, start, deactivate,
  request_async, send_callback, receive_callback, timer_callback, process_watch_event,
}
use common.Connection.Handlers

-- `issued` promises have gone out, 0 to `issued` - 1; `settled` lists those that were given a
-- value, with the result, newest first; `outstanding` are the numbers of the requests whose
-- `send_async` has not completed.
pub record World : Type 0 where
  pub impl : Impl
  pub issued : ℕ
  pub settled : List (ℕ × RequestResult)
  pub outstanding : List ℕ

pub initial : Bool → ℕ → World
initial service ping_timeout = record {
  impl = Handlers.create service ping_timeout;
  issued = 0;
  settled = [];
  outstanding = [];
}

abbrev pub note : List Effect → List (ℕ × RequestResult) → List (ℕ × RequestResult)
note [] done = done
note (settle p r b ∷ effects) done = note effects ((p, r) ∷ done)
note (_ ∷ effects) done = note effects done

abbrev pub note_sends : List Effect → List ℕ → List ℕ
note_sends [] out = out
note_sends (send_request n b ∷ effects) out = note_sends effects (n ∷ out)
note_sends (_ ∷ effects) out = note_sends effects out

abbrev pub apply : Impl × List Effect → World → World
apply (c, effects) w = record {
  impl = c;
  issued = w.issued;
  settled = note effects w.settled;
  outstanding = note_sends effects w.outstanding;
}

-- One occurrence less.
abbrev pub remove_one : ℕ → List ℕ → List ℕ
remove_one n [] = []
remove_one n (m ∷ ms) = let rest = remove_one n ms in if m == n then ms else m ∷ rest

abbrev pub elem : ℕ → List ℕ → Bool
elem n [] = false
elem n (m ∷ ms) = let rest = elem n ms in if m == n then true else rest

abbrev pub issue : ℕ → RequestFuture → ℕ
issue issued (ready r) = issued
issue issued (pending p) = suc issued

pub on_request : Bool → Buffer → World → Outcome World
on_request running message w = do
  (c, effects, future) ← request_async running w.issued message w.impl
  ok (record (apply (c, effects) w) { issued = issue w.issued future })

pub on_sent : ℕ → PipeOpRes → World → Outcome World
on_sent number r w = do
  out ← send_callback number r w.impl
  ok (apply out (record w { outstanding = remove_one number w.outstanding }))

pub on_received : (ℕ → ℕ) → PipeOpRes → Buffer → World → Outcome World
on_received garbage r message w = do
  out ← receive_callback garbage r message w.impl
  ok (apply out w)

pub on_watch : (ℕ → ℕ) → ℕ → ℕ → World → Outcome World
on_watch garbage now later w = do
  out ← process_watch_event garbage now later w.impl
  ok (apply out w)

-- The handler of the wait on a timer, which runs the callback unless the wait ended in an error.
pub on_timer : ℕ → Bool → ℕ → World → World
on_timer id ec number w =
    let (timers, callback) = Multiple.on_wait id ec number w.impl.m_multiple_timer in
    let c : Impl = record w.impl { m_multiple_timer = timers } in
    elim callback [ none ↦ record w { impl = c } | some n ↦ apply (timer_callback n c) w ]

-- What may happen next. A send completes once; the wait on a timer ends once, and with an error
-- only if the timer was cancelled.
pub data Step (garbage : ℕ → ℕ) (w : World) (u : World) : Type 0 where
  starts : u ≡ apply (start w.impl) w → Step garbage w u
  deactivates : u ≡ apply (deactivate w.impl) w → Step garbage w u
  requests :
      (running : Bool) (message : Buffer) → on_request running message w ≡ ok u → Step garbage w u
  sends :
      (number : ℕ) (r : PipeOpRes)
      → elem number w.outstanding ≡ true
      → on_sent number r w ≡ ok u
      → Step garbage w u
  receives :
      (r : PipeOpRes) (message : Buffer) → on_received garbage r message w ≡ ok u → Step garbage w u
  watches : (now later : ℕ) → on_watch garbage now later w ≡ ok u → Step garbage w u
  waits :
      (id : ℕ) (ec : Bool) (wait : Wait ℕ)
      → find id w.impl.m_multiple_timer.timers_map ≡ some wait
      → (ec ≡ true → wait.cancelled ≡ true)
      → u ≡ on_timer id ec wait.callback w
      → Step garbage w u

-- Any history, from the start of the connection.
pub data Reach (garbage : ℕ → ℕ) (w : World) : World → Type 0 where
  here : Reach garbage w w
  next : {t u : World} → Reach garbage w t → Step garbage t u → Reach garbage w u
