-- ===== src/MemoryPipe/MemPipeEnv/Containers.antt =====
-- A container of mem_pipe_env: its ids are different and below the next one.
use common.Base.{
  ℕ, ◌+◌, ◌≤◌, ◌≡◌, refl, List, [], ◌∷◌, ◌++◌, Option, none, some, false, ◌==◌, if◌then◌else◌,
  arith, Bool-cases, inl, inr, ==_iff,
}
use common.Base.Assoc.{
  find, is_absent, erase, find-erase, Unique, erase-Unique, count_by, count_by-erase,
}
use common.Timer.Multiple.{MultipleTimer}
use common.MemoryPipe.MemPipeEnv.{
  Promises, PromiseData, Expiry, push_back, is_chosen, cancel_loop, cancel_timer,
}

-- How often a promise waits in a container.
abbrev pub owed : ℕ → Promises → ℕ
owed p [] = 0
owed p ((id, d) ∷ q) = (if d.promise == p then 1 else 0) + owed p q

abbrev pub Kept : ℕ → Promises → Type 0
Kept n q = Unique q × ((k : ℕ) → n ≤ k → find k q ≡ none)

pub Kept-later : {n next : ℕ} (q : Promises) → n ≤ next → Kept n q → Kept next q
Kept-later q le h = (h.0, λ k l. h.1 k (omega arith))

find-append :
    (k id : ℕ) (d : PromiseData) (q : Promises)
    → find k q ≡ none
    → find k (q ++ (id, d) ∷ []) ≡ (if id == k then some d else none)
unfolding find
find-append k id d [] h = refl
find-append k id d ((j, e) ∷ q) h = ground (arith, find-append k id d q)

found_before :
    (k id : ℕ) (d : PromiseData) (q : Promises)
    → (id == k) ≡ false
    → find k q ≡ none
    → find k (q ++ (id, d) ∷ []) ≡ none
found_before k id d q other h = ground (arith, find-append k id d q h, other)

append-Unique :
    (id : ℕ) (d : PromiseData) (q : Promises)
    → Unique q
    → find id q ≡ none
    → Unique (q ++ (id, d) ∷ [])
unfolding find
append-Unique id d [] u h = (refl, tt)
append-Unique id d ((j, e) ∷ q) u h = elim (Bool-cases (j == id)) [
  | inl same ↦ absurd (ground (arith, same, h))
  | inr other ↦ (
    found_before j id d q (ground (arith, other, ==_iff j id, ==_iff id j)) u.0,
    append-Unique id d q u.1 (ground (arith, other, h)),
  )
]

-- A fresh id is appended.
push_back_fresh :
    (id : ℕ) (d : PromiseData) (q : Promises)
    → find id q ≡ none
    → push_back id d q ≡ q ++ (id, d) ∷ []
unfolding push_back is_absent
push_back_fresh id d q h = ground (arith, h)

pub push_back-Kept :
    (id : ℕ) (d : PromiseData) (q : Promises) → Kept id q → Kept (id + 1) (push_back id d q)
push_back-Kept id d q h = rw (push_back_fresh id d q (h.1 id (omega arith))) (
  append-Unique id d q h.0 (h.1 id (omega arith)),
  λ k l. found_before k id d q (ground (arith, ==_iff id k)) (h.1 k (omega arith)),
)

owed-append :
    (p id : ℕ) (d : PromiseData) (q : Promises)
    → owed p (q ++ (id, d) ∷ []) ≡ (if d.promise == p then 1 else 0) + owed p q
owed-append p id d [] = refl
owed-append p id d ((j, e) ∷ q) = omega (arith, owed-append p id d q)

pub owed-push_back :
    (p id : ℕ) (d : PromiseData) (q : Promises)
    → Kept id q
    → owed p (push_back id d q) ≡ (if d.promise == p then 1 else 0) + owed p q
owed-push_back p id d q h =
    rw (push_back_fresh id d q (h.1 id (omega arith))) (owed-append p id d q)

find_tail :
    (k id : ℕ) (d : PromiseData) (q : Promises) → find k ((id, d) ∷ q) ≡ none → find k q ≡ none
unfolding find
find_tail k id d q h = ground (arith, h)

pub tail-Kept : {n : ℕ} (id : ℕ) (d : PromiseData) (q : Promises) → Kept n ((id, d) ∷ q) → Kept n q
tail-Kept id d q h = (h.0.1, λ k l. find_tail k id d q (h.1 k l))

pub erase-Kept : {n : ℕ} (id : ℕ) (q : Promises) → Kept n q → Kept n (erase id q)
erase-Kept id q h = (erase-Unique id q h.0, λ k l. ground (arith, find-erase id k q, h.1 k l))

owed_count : (p : ℕ) (q : Promises) → owed p q ≡ count_by (λ (d : PromiseData). d.promise == p) q
owed_count p [] = refl
owed_count p ((id, d) ∷ q) = omega (arith, owed_count p q)

pub owed-erase :
    {n : ℕ} (p id : ℕ) (d : PromiseData) (q : Promises)
    → Kept n q
    → find id q ≡ some d
    → owed p q ≡ (if d.promise == p then 1 else 0) + owed p (erase id q)
owed-erase p id d q h f = omega (
  arith,
  owed_count p q,
  owed_count p (erase id q),
  count_by-erase (λ (d : PromiseData). d.promise == p) id d q h.0 f,
)

abbrev pub count : ℕ → List ℕ → ℕ
count p [] = 0
count p (q ∷ qs) = (if q == p then 1 else 0) + count p qs

-- What the cancellation leaves shows no more ids.
find-cancel_loop :
    (client_id : Option ℕ) (k : ℕ) (q : Promises) (t : MultipleTimer Expiry)
    → find k q ≡ none
    → find k (cancel_loop client_id q t).0 ≡ none
unfolding find cancel_loop
find-cancel_loop client_id k [] t h = refl
find-cancel_loop client_id k ((j, d) ∷ q) t h = elim (Bool-cases (is_chosen client_id d)) [
  | inl chosen ↦
      rw chosen (find-cancel_loop client_id k q (cancel_timer d.timer_id t) (find_tail k j d q h))
  | inr other ↦
      let rest = find-cancel_loop client_id k q t (find_tail k j d q h) in
      rw other (ground (arith, rest, h))
]

cancel_loop-Unique :
    (client_id : Option ℕ) (q : Promises) (t : MultipleTimer Expiry)
    → Unique q
    → Unique (cancel_loop client_id q t).0
unfolding cancel_loop
cancel_loop-Unique client_id [] t u = u
cancel_loop-Unique client_id ((j, d) ∷ q) t u = elim (Bool-cases (is_chosen client_id d)) [
  | inl chosen ↦ rw chosen (cancel_loop-Unique client_id q (cancel_timer d.timer_id t) u.1)
  | inr other ↦
      rw other (find-cancel_loop client_id j q t u.0, cancel_loop-Unique client_id q t u.1)
]

pub cancel_loop-Kept :
    {n : ℕ} (client_id : Option ℕ) (q : Promises) (t : MultipleTimer Expiry)
    → Kept n q
    → Kept n (cancel_loop client_id q t).0
cancel_loop-Kept client_id q t h =
    (cancel_loop-Unique client_id q t h.0, λ k l. find-cancel_loop client_id k q t (h.1 k l))

pub owed-cancel_loop :
    (p : ℕ) (client_id : Option ℕ) (q : Promises) (t : MultipleTimer Expiry)
    → owed p q ≡ owed p (cancel_loop client_id q t).0 + count p (cancel_loop client_id q t).2
unfolding cancel_loop
owed-cancel_loop p client_id [] t = refl
owed-cancel_loop p client_id ((j, d) ∷ q) t = elim (Bool-cases (is_chosen client_id d)) [
  | inl chosen ↦
      rw chosen (omega (arith, owed-cancel_loop p client_id q (cancel_timer d.timer_id t)))
  | inr other ↦ rw other (omega (arith, owed-cancel_loop p client_id q t))
]
