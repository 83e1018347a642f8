-- ===== src/Base/Assoc.antt =====
-- Maps with keys that are numbers, as association lists: `std::unordered_map<uint64_t, V>`.
use Prim.Native.Nat.{ℕ, ◌+◌}
use mathlib.Core.Path.{◌≡◌, refl}
use mathlib.Core.Bool.{Bool, true, false}
use mathlib.Core.List.{List, [], ◌∷◌}
use mathlib.Core.Option.{Option, none, some}
use native.Mathlib.Omega.{arith}
use common.Base.Tests.{◌==◌, if◌then◌else◌, ==_iff}

module _ {ℓ} {V : Type ℓ} where
  unfoldable pub find : ℕ → List (ℕ × V) → Option V
  find k [] = none
  find k ((j, v) ∷ m) = if j == k then some v else find k m

  -- `count(k) == 0`
  unfoldable pub is_absent : ℕ → List (ℕ × V) → Bool
  is_absent k m = elim (find k m) [ none ↦ true | some v ↦ false ]

  unfoldable pub erase : ℕ → List (ℕ × V) → List (ℕ × V)
  erase k [] = []
  erase k ((j, v) ∷ m) = let rest = erase k m in if j == k then rest else (j, v) ∷ rest

  unfoldable pub modify : ℕ → (V → V) → List (ℕ × V) → List (ℕ × V)
  modify k f [] = []
  modify k f ((j, v) ∷ m) =
      let rest = modify k f m in if j == k then (j, f v) ∷ rest else (j, v) ∷ rest

  -- `emplace` leaves a key alone that is there.
  unfoldable pub emplace : ℕ → V → List (ℕ × V) → List (ℕ × V)
  emplace k v m = elim (find k m) [ none ↦ (k, v) ∷ m | some w ↦ m ]

  pub find-erase :
      (k j : ℕ) (m : List (ℕ × V)) → find j (erase k m) ≡ (if k == j then none else find j m)
  unfolding find erase
  find-erase k j [] = ground arith
  find-erase k j ((i, v) ∷ m) = ground (arith, find-erase k j m)

  pub find-modify :
      (k j : ℕ) (f : V → V) (m : List (ℕ × V))
      → find j (modify k f m)
        ≡ (if k == j then elim (find j m) [ none ↦ none | some v ↦ some (f v) ] else find j m)
  unfolding find modify
  find-modify k j f [] = ground arith
  find-modify k j f ((i, v) ∷ m) = ground (arith, find-modify k j f m)

  pub find-emplace :
      (k j : ℕ) (v : V) (m : List (ℕ × V))
      → find k m ≡ none
      → find j (emplace k v m) ≡ (if k == j then some v else find j m)
  unfolding find emplace
  find-emplace k j v m h = ground arith

  -- No key stands twice.
  abbrev pub Unique : List (ℕ × V) → Type ℓ
  Unique [] = Unit
  Unique ((k, v) ∷ m) = (find k m ≡ none) × Unique m

  pub erase-Unique : (k : ℕ) (m : List (ℕ × V)) → Unique m → Unique (erase k m)
  unfolding erase
  erase-Unique k [] u = u
  erase-Unique k ((j, v) ∷ m) u = ground (arith, erase-Unique k m u.1, find-erase k j m, u.0)

  pub modify-Unique : (k : ℕ) (f : V → V) (m : List (ℕ × V)) → Unique m → Unique (modify k f m)
  unfolding modify
  modify-Unique k f [] u = u
  modify-Unique k f ((j, v) ∷ m) u =
      ground (arith, modify-Unique k f m u.1, find-modify k j f m, u.0)

  pub emplace-Unique : (k : ℕ) (v : V) (m : List (ℕ × V)) → Unique m → Unique (emplace k v m)
  unfolding emplace
  emplace-Unique k v m u = ground (arith, u)

  -- How many entries have a property.
  abbrev pub count_by : (V → Bool) → List (ℕ × V) → ℕ
  count_by p [] = 0
  count_by p ((k, v) ∷ m) = (if p v then 1 else 0) + count_by p m

  erase_absent : (k : ℕ) (m : List (ℕ × V)) → find k m ≡ none → erase k m ≡ m
  unfolding find erase
  erase_absent k [] h = refl
  erase_absent k ((j, v) ∷ m) h = ground (arith, erase_absent k m)

  pub count_by-erase :
      (p : V → Bool) (k : ℕ) (v : V) (m : List (ℕ × V))
      → Unique m
      → find k m ≡ some v
      → count_by p m ≡ (if p v then 1 else 0) + count_by p (erase k m)
  unfolding find erase
  count_by-erase p k v [] u h = ground arith
  count_by-erase p k v ((j, w) ∷ m) u h =
      ground (arith, count_by-erase p k v m u.1, erase_absent k m, ==_iff j k, u.0)

  pub count_by-modify :
      (p : V → Bool) (k : ℕ) (f : V → V) (m : List (ℕ × V))
      → ((v : V) → p (f v) ≡ p v)
      → count_by p (modify k f m) ≡ count_by p m
  unfolding modify
  count_by-modify p k f [] h = refl
  count_by-modify p k f ((j, v) ∷ m) h = ground (arith, count_by-modify p k f m h, h v)

  pub count_by-emplace :
      (p : V → Bool) (k : ℕ) (v : V) (m : List (ℕ × V))
      → find k m ≡ none
      → count_by p (emplace k v m) ≡ (if p v then 1 else 0) + count_by p m
  unfolding emplace
  count_by-emplace p k v m h = ground arith
