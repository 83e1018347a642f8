-- ===== src/MemoryPipe/MemPipeEnv/Pairing.antt =====
-- The two containers of waiting ends of a mem_pipe_env.
use common.Base.{
  ℕ, ◌≡◌, refl, ◌∙◌, List, [], ◌∷◌, Option, none, some, Bool, true, false, arith, ◌⊎◌, inl, inr,
  Option-cases, ok, bind_ok, ok_injective, subst,
}
use common.Base.Assoc.{find, erase}
use common.Timer.Multiple.{MultipleTimer, Wait}
use common.Timer.Multiple
use common.MemoryPipe.MemPipeEnv.{
  MemPipeEnv, Promises, Side, server, client, Expiry, Settled, EndpointFuture, opposite, promises,
  set_promises, enlist, match_up, cancel_loop, cancel_pending_endpoints, remove_promise_by_timeout,
  start_timer,
}

-- The handler of the wait on a timer, with the promises that it settles.
unfoldable pub on_timer : ℕ → Bool → Expiry → MemPipeEnv → MemPipeEnv × List Settled
on_timer id ec expiry e =
    let (t, callback) = Multiple.on_wait id ec expiry e.m_timer in
    let e' : MemPipeEnv = record e { m_timer = t } in
    elim callback [ none ↦ (e', []) | some x ↦ remove_promise_by_timeout x.side x.id e' ]

abbrev pub OneSided : MemPipeEnv → Type 0
OneSided e = (promises server e ≡ []) ⊎ (promises client e ≡ [])

-- From either side.
OneSided-from :
    (side : Side) (e : MemPipeEnv)
    → (promises side e ≡ []) ⊎ (promises (opposite side) e ≡ [])
    → OneSided e
OneSided-from server e h = h
OneSided-from client e (inl h) = inr h
OneSided-from client e (inr h) = inl h

OneSided-at :
    (side : Side) (e : MemPipeEnv)
    → OneSided e
    → (promises side e ≡ []) ⊎ (promises (opposite side) e ≡ [])
OneSided-at server e h = h
OneSided-at client e (inl h) = inr h
OneSided-at client e (inr h) = inl h

promises-set :
    (side : Side) (q : Promises) (e : MemPipeEnv) → promises side (set_promises side q e) ≡ q
promises-set server q e = refl
promises-set client q e = refl

promises-set_opposite :
    (side : Side) (q : Promises) (e : MemPipeEnv)
    → promises (opposite side) (set_promises side q e) ≡ promises (opposite side) e
promises-set_opposite server q e = refl
promises-set_opposite client q e = refl

-- The timers and the counter are not the containers.
promises-timer :
    (side : Side) (n : ℕ) (t : MultipleTimer Expiry) (e : MemPipeEnv)
    → promises side (record e { m_next_read_promise_id = n; m_timer = t }) ≡ promises side e
promises-timer server n t e = refl
promises-timer client n t e = refl

-- A container that is changed, while the other one is empty or this one stays empty.
set_promises-OneSided :
    (side : Side) (q : Promises) (n : ℕ) (t : MultipleTimer Expiry) (e : MemPipeEnv)
    → (promises side e ≡ [] → q ≡ [])
    → OneSided e
    → OneSided (set_promises side q (record e { m_next_read_promise_id = n; m_timer = t }))
set_promises-OneSided side q n t e h o = OneSided-from side _ (elim (OneSided-at side e o) [
  | inl this ↦ inl (promises-set side q _ ∙ h this)
  | inr other ↦ inr (promises-set_opposite side q _ ∙ promises-timer (opposite side) n t e ∙ other)
])

enlist-OneSided :
    (client_id : ℕ) (side : Side) (timeout : Option ℕ) (promise : ℕ) (e : MemPipeEnv)
    (out : MemPipeEnv × List Settled × EndpointFuture)
    → promises (opposite side) e ≡ []
    → enlist client_id side timeout promise e ≡ ok out
    → OneSided out.0
enlist-OneSided client_id side timeout promise e out other h =
    let ((timer_id, t), _, f) =
      bind_ok
        (start_timer timeout (record { side = side; id = e.m_next_read_promise_id }) e.m_timer) _
        h in
    subst (λ (o : MemPipeEnv × List Settled × EndpointFuture). OneSided o.0) (ok_injective f)
      (OneSided-from side _
        (inr (promises-set_opposite side _ _ ∙ promises-timer (opposite side) _ t e ∙ other)))

pub match_up-OneSided :
    (q : Promises) (client_id : ℕ) (side : Side) (timeout : Option ℕ) (promise buffers : ℕ)
    (e : MemPipeEnv) (out : MemPipeEnv × List Settled × EndpointFuture)
    → promises (opposite side) e ≡ q
    → match_up q client_id side timeout promise buffers e ≡ ok out
    → OneSided e
    → OneSided out.0
match_up-OneSided [] client_id side timeout promise buffers e out other h o =
    enlist-OneSided client_id side timeout promise e out other h
match_up-OneSided ((id, d) ∷ q) client_id side timeout promise buffers e out other h o =
    subst (λ (x : MemPipeEnv × List Settled × EndpointFuture). OneSided x.0) (ok_injective h)
      (set_promises-OneSided (opposite side) q e.m_next_read_promise_id _ e
        (λ nothing. absurd (ground (arith, nothing, other))) o)

cancel_loop-nil :
    (client_id : Option ℕ) (q : Promises) (t : MultipleTimer Expiry)
    → q ≡ []
    → (cancel_loop client_id q t).0 ≡ []
unfolding cancel_loop
cancel_loop-nil client_id [] t h = refl
cancel_loop-nil client_id (d ∷ q) t h = absurd (ground (arith, h))

erase-nil : (id : ℕ) (q : Promises) → q ≡ [] → erase id q ≡ []
unfolding erase
erase-nil id [] h = refl
erase-nil id (d ∷ q) h = absurd (ground (arith, h))

remove_promise_by_timeout-OneSided :
    (side : Side) (id : ℕ) (e : MemPipeEnv)
    → OneSided e
    → OneSided (remove_promise_by_timeout side id e).0
unfolding remove_promise_by_timeout
remove_promise_by_timeout-OneSided side id e o = elim (Option-cases (find id (promises side e))) [
  | inl h ↦ rw (h, remove_promise_by_timeout) o
  | inr (d, h) ↦
      rw (h, remove_promise_by_timeout)
        (set_promises-OneSided side _ e.m_next_read_promise_id e.m_timer e
          (erase-nil id (promises side e)) o)
]

pub on_timer-OneSided :
    (id : ℕ) (ec : Bool) (x : Expiry) (e : MemPipeEnv)
    → OneSided e
    → OneSided (on_timer id ec x e).0
unfolding on_timer Multiple.on_wait
on_timer-OneSided id true x e o = o
on_timer-OneSided id false x e o =
    remove_promise_by_timeout-OneSided x.side x.id
      (record e { m_timer = record e.m_timer { timers_map = erase id e.m_timer.timers_map } }) o

pub cancel-OneSided :
    (client_id : Option ℕ) (side : Side) (e : MemPipeEnv)
    → OneSided e
    → OneSided (cancel_pending_endpoints client_id side e).0
unfolding cancel_pending_endpoints
cancel-OneSided client_id side e o =
    set_promises-OneSided side _ e.m_next_read_promise_id _ e
      (cancel_loop-nil client_id (promises side e) e.m_timer) o
