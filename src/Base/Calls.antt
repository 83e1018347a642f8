-- ===== src/Base/Calls.antt =====
-- What a C++ call may do: return, throw, or fault. A fault is an access outside the memory that
-- a pointer reaches, or an `assert` that does not hold.
use mathlib.Core.Path.{◌≡◌, refl}
use mathlib.Core.Bool.{Bool, true, false}
use mathlib.Core.Option.{Option, none, some}

-- The exceptions that the modelled code throws, by what they say.
pub data Exception : Type 0 where
  out_of_range invalid_buffer message_is_too_big failed_to_serialize : Exception
  unexpected_type unexpected_number logic_error bad_weak_ptr : Exception

pub data Outcome {ℓ} (A : Type ℓ) : Type ℓ where
  ok : A → Outcome A
  throws : Exception → Outcome A
  fault : Outcome A

infixl 5 ◌>>=◌ ◌>>◌
abbrev pub ◌>>=◌ {ℓ κ} : {A : Type ℓ} {B : Type κ} → Outcome A → (A → Outcome B) → Outcome B
ok a >>= f = f a
throws e >>= f = throws e
fault >>= f = fault

abbrev pub ◌>>◌ {ℓ} : {B : Type ℓ} → Outcome (Unit {0}) → Outcome B → Outcome B
m >> k = m >>= λ _. k

-- How a call ended.
abbrev pub is_ok {ℓ} : {A : Type ℓ} → Outcome A → Bool
is_ok (ok a) = true
is_ok _ = false

abbrev pub is_fault {ℓ} : {A : Type ℓ} → Outcome A → Bool
is_fault fault = true
is_fault _ = false

-- `assert(b)`
abbrev pub ensure : Bool → Outcome (Unit {0})
ensure true = ok tt
ensure false = fault

-- An access through a pointer, with what it reaches.
abbrev pub access {ℓ} : {A : Type ℓ} → Option A → Outcome A
access none = fault
access (some a) = ok a

-- `if(b) throw e;`
abbrev pub throw_if : Bool → Exception → Outcome (Unit {0})
throw_if true e = throws e
throw_if false e = ok tt

-- The parts of a bind that returned.
pub bind_ok {ℓ κ} :
    {A : Type ℓ} {B : Type κ} (m : Outcome A) (f : A → Outcome B) {b : B}
    → (m >>= f) ≡ ok b
    → (a : A) × (m ≡ ok a) × (f a ≡ ok b)
bind_ok (ok a) f h = (a, refl, h)
bind_ok (throws e) f h = cc
bind_ok fault f h = cc

pub ok_injective {ℓ} : {A : Type ℓ} {a b : A} → ok a ≡ ok b → a ≡ b
ok_injective h = cc

-- A result that a check let through.
pub checked_ok {ℓ κ} :
    {A : Type ℓ} {B : Type κ} (b : Bool) (a : A) (f : A → Outcome B) {x : B}
    → ((ensure b >> ok a) >>= f) ≡ ok x
    → f a ≡ ok x
checked_ok true a f h = h
checked_ok false a f h = cc

pub ensure_ok {ℓ} :
    {B : Type ℓ} (b : Bool) (rest : Outcome B) {x : B}
    → (ensure b >> rest) ≡ ok x
    → (b ≡ true) × (rest ≡ ok x)
ensure_ok true rest h = (refl, h)
ensure_ok false rest h = cc
