-- ===== src/Timer/Periodic/Activity.antt =====
-- periodic_timer::impl among its events: its activity, its stop callbacks and its periods.
use common.Base.{
  ℕ, ◌+◌, ◌%◌, ◌^◌, ◌<◌, ◌≡◌, refl, sym, ap, ◌∙◌, List, [], ◌∷◌, ◌++◌, append-nil, append_assoc,
  Option, Bool, true, false, not, ◌&&◌, ltb, arith, ◌⊎◌, inl, inr, Bool-cases, ok, subst,
  ok_injective,
}
use common.Timer.Periodic.{
  PeriodicTimer, Phase, idle, waiting, running, CallbackRet, is_continue, start, stop_async,
  on_wait, after_callback, start_period, deactivate, cancel_wait, create, posted,
}

abbrev pub is_idle : Phase → Bool
is_idle idle = true
is_idle _ = false

-- `given` are the stop callbacks that the calls of `stop_async` brought, `done` those posted.
pub record World : Type 0 where
  pub timer : PeriodicTimer
  pub given : List ℕ
  pub done : List ℕ

abbrev pub new_world : World
new_world = record { timer = create; given = []; done = [] }

-- What a function leaves, with the callbacks that it posts.
abbrev pub after : World → PeriodicTimer × List ℕ → World
after w r = record w { timer = r.0; done = w.done ++ r.1 }

-- The timer is active exactly while there is a wait or a run; the callbacks given are, in order,
-- those posted and those held, and an inactive timer holds none; and an active one has not used
-- up its periods, unless it is in its first.
pub record Live (w : World) : Type 0 where
  pub active : w.timer.m_is_active ≡ not (is_idle w.timer.phase)
  pub answered : w.timer.m_is_active ≡ false → w.done ≡ w.given
  pub held : w.given ≡ w.done ++ w.timer.m_stop_callbacks
  pub allowed :
      w.timer.m_is_active ≡ true
      → (w.timer.m_current_periods_count ≡ 0)
        ⊎ (w.timer.m_current_periods_count < w.timer.m_total_periods_count)

pub data Step (w : World) (u : World) : Type 0 where
  starts :
      (total_periods : ℕ) (t : PeriodicTimer)
      → start total_periods w.timer ≡ ok t
      → u ≡ record w { timer = t }
      → Step w u
  stops :
      (callback : Option ℕ)
      → u ≡ record (after w (stop_async callback w.timer)) { given = w.given ++ posted callback }
      → Step w u
  waits :
      (cancelled ec : Bool)
      → w.timer.phase ≡ waiting cancelled
      → u ≡ after w (on_wait ec w.timer)
      → Step w u
  answers :
      (ret : CallbackRet)
      → w.timer.phase ≡ running
      → u ≡ after w (after_callback ret w.timer)
      → Step w u

pub data Reach (w : World) : World → Type 0 where
  here : Reach w w
  next : {u v : World} → Reach w u → Step u v → Reach w v

start-Live :
    (total : ℕ) (w : World) (t : PeriodicTimer)
    → start total w.timer ≡ ok t
    → Live w
    → Live (record w { timer = t })
unfolding start start_period
start-Live total w t h l = elim (Bool-cases w.timer.m_is_active) [
  | inl on ↦ absurd (ground (arith, h, on))
  | inr off ↦
      subst (λ t. Live (record w { timer = t })) (ok_injective (simp (off) at h))
        (record {
          active = refl;
          answered = λ e. absurd (ground (arith, e));
          held = l.held;
          allowed = λ e. inl refl;
        })
]

is_idle-cancel_wait : (p : Phase) → is_idle (cancel_wait p) ≡ is_idle p
is_idle-cancel_wait idle = refl
is_idle-cancel_wait (waiting c) = refl
is_idle-cancel_wait running = refl

-- An inactive timer holds no callback.
nothing_held : (w : World) → Live w → w.timer.m_is_active ≡ false → w.timer.m_stop_callbacks ≡ []
nothing_held w l off =
    append_nothing w.done w.timer.m_stop_callbacks (sym l.held ∙ sym (l.answered off))
  where
    append_nothing : (xs ys : List ℕ) → xs ++ ys ≡ xs → ys ≡ []
    append_nothing [] ys h = h
    append_nothing (x ∷ xs) ys h = append_nothing xs ys (cc)

stop_async-Live :
    (callback : Option ℕ) (w : World)
    → Live w
    → Live (record (after w (stop_async callback w.timer)) { given = w.given ++ posted callback })
unfolding stop_async
stop_async-Live callback w l = elim (Bool-cases w.timer.m_is_active) [
  | inr off ↦ simp (off) (record {
    active = l.active;
    answered = λ e. ap (λ xs. xs ++ posted callback) (l.answered off);
    held =
        ap (λ xs. xs ++ posted callback) (sym (l.answered off))
        ∙ sym (append-nil (w.done ++ posted callback))
        ∙ ap (λ xs. (w.done ++ posted callback) ++ xs) (sym (nothing_held w l off));
    allowed = l.allowed;
  })
  | inl on ↦ simp (on) (record {
    active = ground (arith, on, l.active, is_idle-cancel_wait w.timer.phase);
    answered = λ e. absurd (ground (arith, e));
    held =
        ap (λ xs. xs ++ posted callback) l.held
        ∙ append_assoc w.done w.timer.m_stop_callbacks (posted callback)
        ∙ ap (λ xs. xs ++ (w.timer.m_stop_callbacks ++ posted callback)) (sym (append-nil w.done));
    allowed = λ e. l.allowed on;
  })
]

deactivate-Live :
    (w : World) (count : ℕ)
    → Live w
    → Live (after w (deactivate (record w.timer { m_current_periods_count = count })))
unfolding deactivate
deactivate-Live w count l = record {
  active = refl;
  answered = λ e. sym l.held;
  held = l.held ∙ sym (append-nil (w.done ++ w.timer.m_stop_callbacks));
  allowed = λ e. absurd (ground (arith, e));
}

on_wait-Live :
    (cancelled ec : Bool) (w : World)
    → w.timer.phase ≡ waiting cancelled
    → Live w
    → Live (after w (on_wait ec w.timer))
unfolding on_wait
on_wait-Live cancelled true w h l = deactivate-Live w w.timer.m_current_periods_count l
on_wait-Live cancelled false w h l = record {
  active = l.active ∙ ap (λ p. not (is_idle p)) h;
  answered = λ e. append-nil w.done ∙ l.answered e;
  held = l.held ∙ ap (λ xs. xs ++ w.timer.m_stop_callbacks) (sym (append-nil w.done));
  allowed = l.allowed;
}

after_callback-Live :
    (ret : CallbackRet) (w : World)
    → w.timer.phase ≡ running
    → Live w
    → Live (after w (after_callback ret w.timer))
unfolding after_callback start_period
after_callback-Live ret w h l =
    let count = (w.timer.m_current_periods_count + 1) % 2 ^ 64 in
    elim (Bool-cases
      (is_continue ret && (not w.timer.m_is_stopped && ltb count w.timer.m_total_periods_count))) [
        | inr ends ↦ rw ends (deactivate-Live w count l)
        | inl goes ↦ rw goes (record {
          active = l.active ∙ ap (λ p. not (is_idle p)) h;
          answered = λ e. append-nil w.done ∙ l.answered e;
          held = l.held ∙ ap (λ xs. xs ++ w.timer.m_stop_callbacks) (sym (append-nil w.done));
          allowed = λ e. inr (ground (arith, goes));
        })
      ]

Step-Live : {w u : World} → Step w u → Live w → Live u
Step-Live {w} (starts total t h e) l = subst Live (sym e) (start-Live total w t h l)
Step-Live {w} (stops callback e) l = subst Live (sym e) (stop_async-Live callback w l)
Step-Live {w} (waits cancelled ec h e) l = subst Live (sym e) (on_wait-Live cancelled ec w h l)
Step-Live {w} (answers ret h e) l = subst Live (sym e) (after_callback-Live ret w h l)

new_world-Live : Live new_world
unfolding create
new_world-Live = record {
  active = refl;
  answered = λ e. refl;
  held = refl;
  allowed = λ e. absurd (ground (arith, e));
}

-- In every state that a periodic_timer can reach, it is active exactly while a wait is on or its
-- callback runs; the stop callbacks that its calls were given are, in order, those that it has
-- posted and then those that it holds, and when it is inactive all of them have been posted; and
-- while it is active it is in its first period or has fewer periods behind it than its total.
pub Reach-Live : {w : World} → Reach new_world w → Live w
Reach-Live here = new_world-Live
Reach-Live (next r s) = Step-Live s (Reach-Live r)
