-- ===== src/Connection/World/Guarded.antt =====
-- The pending requests of connection::impl, their timers and their outstanding sends.
use common.Base.{
  ℕ, suc, ◌<◌, ◌≡◌, ◌≢◌, refl, sym, ◌∙◌, List, [], ◌∷◌, none, some, true, false, arith, ◌==◌,
  if◌then◌else◌, ◌⊎◌, inl, inr, Bool-cases, Option-cases,
}
use common.Base.Assoc.{find, erase, modify, emplace, find-erase, find-modify, find-emplace}
use common.Results.{RequestResult}
use common.Timer.Multiple.{Wait, cancel_wait}
use common.Connection.Handlers.{RequestData, mark_sent}
use common.Connection.World.{elem, remove_one}

-- For the requests that `P` picks: one that is not sent has an outstanding send, and one that has
-- not been failed has a live timer whose callback names it. A failed one is not sent. Timer ids
-- are below `issued`, and no two requests share one.
pub record Guarded (P : ℕ → Type 0) (m : List (ℕ × RequestData)) (timers : List (ℕ × Wait ℕ))
    (out : List ℕ) (issued : ℕ) : Type 0 where
  pub unsent :
      (n : ℕ) (d : RequestData)
      → P n
      → find n m ≡ some d
      → d.is_req_sent ≡ false
      → elem n out ≡ true
  pub timed :
      (n : ℕ) (d : RequestData)
      → P n
      → find n m ≡ some d
      → d.fail_req_result ≡ none
      → find d.timer_id timers ≡ some (record { cancelled = false; callback = n })
  pub failed :
      (n : ℕ) (d : RequestData) (r : RequestResult)
      → find n m ≡ some d
      → d.fail_req_result ≡ some r
      → d.is_req_sent ≡ false
  pub below : (n : ℕ) (d : RequestData) → find n m ≡ some d → d.timer_id < issued
  pub apart :
      (n k : ℕ) (d e : RequestData)
      → find n m ≡ some d
      → find k m ≡ some e
      → d.timer_id ≡ e.timer_id
      → n ≡ k

abbrev pub Everyone : ℕ → Type 0
Everyone n = Unit {0}

abbrev pub Others : ℕ → ℕ → Type 0
Others n k = n ≢ k

-- What is found behind an erased key was there, under another key.
found_behind :
    (n k : ℕ) (m : List (ℕ × RequestData)) (d : RequestData)
    → find k (erase n m) ≡ some d
    → (n ≢ k) × (find k m ≡ some d)
found_behind n k m d h = ground (arith, find-erase n k m)

-- Completing `n` needs a guard on the other requests only, and its own timer is not theirs.
pub complete-Guarded :
    (n : ℕ) (d : RequestData) (m : List (ℕ × RequestData)) (timers : List (ℕ × Wait ℕ))
    (out : List ℕ) (issued : ℕ)
    → find n m ≡ some d
    → Guarded (Others n) m timers out issued
    → Guarded Everyone (erase n m) (modify d.timer_id cancel_wait timers) out issued
complete-Guarded n d m timers out issued h g = record {
  unsent = λ k e _ f. let (ne, f') = found_behind n k m e f in g.unsent k e ne f';
  timed = λ k e _ f live.
      let (ne, f') = found_behind n k m e f in
      ground (
        arith,
        find-modify d.timer_id e.timer_id cancel_wait timers,
        g.timed k e ne f' live,
        g.apart n k d e h f',
        ne,
      );
  failed = λ k e r f. g.failed k e r (found_behind n k m e f).1;
  below = λ k e f. g.below k e (found_behind n k m e f).1;
  apart = λ j k d' e f f'. g.apart j k d' e (found_behind n j m d' f).1 (found_behind n k m e f').1;
}

-- Taking `n` out needs a guard on the other requests only.
pub erase-Guarded :
    (n : ℕ) (m : List (ℕ × RequestData)) (timers : List (ℕ × Wait ℕ)) (out : List ℕ) (issued : ℕ)
    → Guarded (Others n) m timers out issued
    → Guarded Everyone (erase n m) timers out issued
erase-Guarded n m timers out issued g = record {
  unsent = λ k e _ f. let (ne, f') = found_behind n k m e f in g.unsent k e ne f';
  timed = λ k e _ f. let (ne, f') = found_behind n k m e f in g.timed k e ne f';
  failed = λ k e r f. g.failed k e r (found_behind n k m e f).1;
  below = λ k e f. g.below k e (found_behind n k m e f).1;
  apart = λ j k d' e f f'. g.apart j k d' e (found_behind n j m d' f).1 (found_behind n k m e f').1;
}

elem-remove_one : (n k : ℕ) (out : List ℕ) → n ≢ k → elem k (remove_one n out) ≡ elem k out
elem-remove_one n k [] ne = refl
elem-remove_one n k (j ∷ out) ne = ground (arith, elem-remove_one n k out ne)

-- The completion of a send lifts the guard of its own request only.
pub remove-Guarded :
    (n : ℕ) (m : List (ℕ × RequestData)) (timers : List (ℕ × Wait ℕ)) (out : List ℕ) (issued : ℕ)
    → Guarded Everyone m timers out issued
    → Guarded (Others n) m timers (remove_one n out) issued
remove-Guarded n m timers out issued g = record {
  unsent = λ k e ne f s. elem-remove_one n k out ne ∙ g.unsent k e tt f s;
  timed = λ k e ne. g.timed k e tt;
  failed = g.failed;
  below = g.below;
  apart = g.apart;
}

-- What is found in the map with `n` marked was there, marked or not.
found_marked :
    (n k : ℕ) (m : List (ℕ × RequestData)) (e : RequestData)
    → find k (modify n mark_sent m) ≡ some e
    → (e' : RequestData) × (find k m ≡ some e')
      × (e.timer_id ≡ e'.timer_id)
      × (e.fail_req_result ≡ e'.fail_req_result)
      × (e.is_req_sent ≡ (if n == k then true else e'.is_req_sent))
found_marked n k m e h = elim (Option-cases (find k m)) [
  | inl f ↦ absurd (ground (arith, find-modify n k mark_sent m))
  | inr (e', f) ↦ (let (a, b, c) = marked e' f in (e', f, a, b, c))
]
  where
    marked :
        (e' : RequestData)
        → find k m ≡ some e'
        → (e.timer_id ≡ e'.timer_id)
          × (e.fail_req_result ≡ e'.fail_req_result)
          × (e.is_req_sent ≡ (if n == k then true else e'.is_req_sent))
    marked e' f = ground (arith, find-modify n k mark_sent m)

-- A request that is marked as sent needs its outstanding send no more.
pub sent-Guarded :
    (n : ℕ) (d : RequestData) (m : List (ℕ × RequestData)) (timers : List (ℕ × Wait ℕ))
    (out : List ℕ) (issued : ℕ)
    → find n m ≡ some d
    → d.fail_req_result ≡ none
    → Guarded Everyone m timers out issued
    → Guarded Everyone (modify n mark_sent m) timers (remove_one n out) issued
sent-Guarded n d m timers out issued h live g = record {
  unsent = λ k e _ f s.
      let (e', f', _, _, marked) = found_marked n k m e f in
      ground (arith, elem-remove_one n k out, g.unsent k e' tt f');
  timed = λ k e _ f l.
      let (e', f', same, alike, _) = found_marked n k m e f in ground (arith, g.timed k e' tt f');
  failed = λ k e r f bad.
      let (e', f', _, alike, marked) = found_marked n k m e f in ground (arith, g.failed k e' r f');
  below = λ k e f.
      let (e', f', same, _, _) = found_marked n k m e f in omega (arith, g.below k e' f', same);
  apart = λ j k d' e f f' same.
      let (d'', h', same', _, _) = found_marked n j m d' f in
      let (e'', h'', same'', _, _) = found_marked n k m e f' in
      g.apart j k d'' e'' h' h'' (sym same' ∙ same ∙ same'');
}

-- A new request's entry, and the search in the map that has it.
abbrev pub new_entry : ℕ → ℕ → RequestData
new_entry p id = record { promise = p; timer_id = id; is_req_sent = false; fail_req_result = none }

found_added :
    (n k : ℕ) (d : RequestData) (m : List (ℕ × RequestData)) (e : RequestData)
    → find n m ≡ none
    → find k (emplace n d m) ≡ some e
    → ((n ≡ k) × (e ≡ d)) ⊎ ((n ≢ k) × (find k m ≡ some e))
found_added n k d m e hm h = elim (Bool-cases (n == k)) [
  | inl same ↦ inl (ground (arith, find-emplace n k d m hm))
  | inr ne ↦ inr (ground (arith, find-emplace n k d m hm))
]

-- A new request has its send outstanding and a fresh timer.
pub emplace-Guarded :
    (n p : ℕ) (m : List (ℕ × RequestData)) (timers : List (ℕ × Wait ℕ)) (out : List ℕ) (issued : ℕ)
    → find n m ≡ none
    → find issued timers ≡ none
    → Guarded Everyone m timers out issued
    → Guarded Everyone
        (emplace n (new_entry p issued) m)
        (emplace issued (record { cancelled = false; callback = n }) timers)
        (n ∷ out)
        (suc issued)
emplace-Guarded n p m timers out issued hm ht g = record {
  unsent = λ k e _ f s. elim (found_added n k (new_entry p issued) m e hm f) [
    | inl (same, _) ↦ ground arith
    | inr (ne, f') ↦ ground (arith, g.unsent k e tt f' s)
  ];
  timed = λ k e _ f l. elim (found_added n k (new_entry p issued) m e hm f) [
    | inl (same, is_new) ↦ ground (
      arith,
      find-emplace issued e.timer_id (record { cancelled = false; callback = n }) timers ht,
    )
    | inr (ne, f') ↦ ground (
      arith,
      find-emplace issued e.timer_id (record { cancelled = false; callback = n }) timers ht,
      g.timed k e tt f' l,
    )
  ];
  failed = λ k e r f bad. elim (found_added n k (new_entry p issued) m e hm f) [
    | inl (same, is_new) ↦ ground arith
    | inr (ne, f') ↦ g.failed k e r f' bad
  ];
  below = λ k e f. elim (found_added n k (new_entry p issued) m e hm f) [
    | inl (same, is_new) ↦ ground arith
    | inr (ne, f') ↦ omega (arith, g.below k e f')
  ];
  apart = λ j k d e f f' same.
      apart_added (found_added n j (new_entry p issued) m d hm f)
        (found_added n k (new_entry p issued) m e hm f') same;
}
  where
    apart_added :
        {j k : ℕ} {d e : RequestData}
        → ((n ≡ j) × (d ≡ new_entry p issued)) ⊎ ((n ≢ j) × (find j m ≡ some d))
        → ((n ≡ k) × (e ≡ new_entry p issued)) ⊎ ((n ≢ k) × (find k m ≡ some e))
        → d.timer_id ≡ e.timer_id
        → j ≡ k
    apart_added (inl (a, _)) (inl (b, _)) same = sym a ∙ b
    apart_added {k} {e} (inl (a, x)) (inr (_, f)) same = absurd (ground (arith, g.below k e f))
    apart_added {j} {d} (inr (_, f)) (inl (b, y)) same = absurd (ground (arith, g.below j d f))
    apart_added {j} {k} {d} {e} (inr (_, f)) (inr (_, f')) same = g.apart j k d e f f' same
