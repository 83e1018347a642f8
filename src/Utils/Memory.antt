-- ===== src/Utils/Memory.antt =====
-- A `std::byte *` is the memory that it reaches, from the byte it points at to the end of its
-- block; `none` is `nullptr`. Bytes are numbers, below 256 where `AllBytes` says so.
use common.Base.{
  ℕ, zero, suc, ◌+◌, ◌<◌, ◌≡◌, refl, ap, List, [], ◌∷◌, ◌++◌, Option, none, some, arith, length,
  get_elem?, drop, All, Outcome, ok, fault, access, get_elem?-lt, ◌∙◌,
}

abbrev pub Pointer : Type 0
Pointer = Option (List ℕ)

abbrev pub AllBytes : List ℕ → Type 0
AllBytes = All (λ b. b < 256)

-- `p + n`. A null pointer stays null: nothing is read through it.
abbrev pub offset : Pointer → ℕ → Pointer
offset none n = none
offset (some bytes) n = some (drop n bytes)

-- `p[i]`, read
unfoldable pub read : Pointer → ℕ → Outcome ℕ
read none i = fault
read (some bytes) i = access (get_elem? bytes i)

-- the bytes of a block with one of them replaced
unfoldable pub store : List ℕ → ℕ → ℕ → Option (List ℕ)
store [] i v = none
store (x ∷ xs) zero v = some (v ∷ xs)
store (x ∷ xs) (suc i) v = elim (store xs i v) [ none ↦ none | some ys ↦ some (x ∷ ys) ]

-- `p[i] = v`
unfoldable pub write : Pointer → ℕ → ℕ → Outcome Pointer
write none i v = fault
write (some bytes) i v = elim (store bytes i v) [ none ↦ fault | some ys ↦ ok (some ys) ]

-- `new std::byte[n]`, whose bytes are indeterminate: `garbage` says what they are.
abbrev pub block : (ℕ → ℕ) → ℕ → List ℕ
block garbage zero = []
block garbage (suc n) = garbage n ∷ block garbage n

pub length-block : (garbage : ℕ → ℕ) (n : ℕ) → length (block garbage n) ≡ n
length-block garbage zero = refl
length-block garbage (suc n) = ap suc (length-block garbage n)

pub store_middle :
    (xs : List ℕ) (x v : ℕ) (ys : List ℕ) → store (xs ++ x ∷ ys) (length xs) v ≡ some (xs ++ v ∷ ys)
unfolding store
store_middle [] x v ys = refl
store_middle (a ∷ xs) x v ys = ground (arith, store_middle xs x v ys)

pub write_middle :
    (xs : List ℕ) (x v : ℕ) (ys : List ℕ)
    → write (some (xs ++ x ∷ ys)) (length xs) v ≡ ok (some (xs ++ v ∷ ys))
unfolding write
write_middle xs x v ys = ground (arith, store_middle xs x v ys)

-- A read inside the memory does not fault.
pub read-lt :
    (bytes : List ℕ) (i : ℕ)
    → i < length bytes
    → (v : ℕ) × (read (some bytes) i ≡ ok v) × (get_elem? bytes i ≡ some v)
unfolding read
read-lt bytes i h = let (v, e) = get_elem?-lt bytes i h in (v, ap access e, e)

pub get_elem?-drop : (n i : ℕ) (xs : List ℕ) → get_elem? (drop n xs) i ≡ get_elem? xs (n + i)
get_elem?-drop zero i xs = ap (get_elem? xs) (omega arith)
get_elem?-drop (suc n) i [] = refl
get_elem?-drop (suc n) i (x ∷ xs) =
    get_elem?-drop n i xs ∙ ap (get_elem? (x ∷ xs)) {x = suc (n + i)} (omega arith)
