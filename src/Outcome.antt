-- ===== src/Outcome.antt =====
-- How a call ends: with a value, with a use of memory that is not allocated, or in `g_error`, which
-- aborts the process.
use gnome_usage.Base.{◌≡◌, refl, Bool, true, false, if◌then◌else◌}

pub data Outcome {ℓ} (A : Type ℓ) : Type ℓ where
  ok : A → Outcome A
  fault : Outcome A
  aborted : Outcome A

infixl 5 ◌>>=◌
abbrev pub ◌>>=◌ {ℓ κ} : {A : Type ℓ} {B : Type κ} → Outcome A → (A → Outcome B) → Outcome B
ok a >>= f = f a
fault >>= f = fault
aborted >>= f = aborted

-- The call ends with a value, and the value has the property.
abbrev pub Returns {ℓ} : {A : Type ℓ} → (A → Type 0) → Outcome A → Type 0
Returns P (ok a) = P a
Returns P fault = ⊥
Returns P aborted = ⊥

-- A chain of calls returns if the first does and the rest does from there.
pub Returns-bind {ℓ κ} :
    {A : Type ℓ} {B : Type κ} (P : A → Type 0) (Q : B → Type 0) (m : Outcome A) (f : A → Outcome B)
    → Returns P m
    → ((a : A) → P a → Returns Q (f a))
    → Returns Q (m >>= f)
Returns-bind P Q (ok a) f p next = next a p
Returns-bind P Q fault f p next = p
Returns-bind P Q aborted f p next = p

pub Returns-mono {ℓ} :
    {A : Type ℓ} (P Q : A → Type 0) (m : Outcome A)
    → Returns P m
    → ((a : A) → P a → Q a)
    → Returns Q m
Returns-mono P Q (ok a) p weaken = weaken a p
Returns-mono P Q fault p weaken = p
Returns-mono P Q aborted p weaken = p

pub Returns-both {ℓ} :
    {A : Type ℓ} (P Q : A → Type 0) (m : Outcome A)
    → Returns P m
    → Returns Q m
    → Returns (λ a. P a × Q a) m
Returns-both P Q (ok a) p q = (p, q)
Returns-both P Q fault p q = p
Returns-both P Q aborted p q = p

-- A call under a test returns if each branch does where it is taken.
pub Returns-if {ℓ} :
    {A : Type ℓ} (P : A → Type 0) (b : Bool) (m n : Outcome A)
    → (b ≡ true → Returns P m)
    → (b ≡ false → Returns P n)
    → Returns P (if b then m else n)
Returns-if P true m n holds fails = holds refl
Returns-if P false m n holds fails = fails refl

-- If the call ends with a value, the value has the property.
abbrev pub Yields {ℓ} : {A : Type ℓ} → (A → Type 0) → Outcome A → Type 0
Yields P (ok a) = P a
Yields P fault = Unit
Yields P aborted = Unit

pub Yields-bind {ℓ κ} :
    {A : Type ℓ} {B : Type κ} (P : A → Type 0) (Q : B → Type 0) (m : Outcome A) (f : A → Outcome B)
    → Yields P m
    → ((a : A) → P a → Yields Q (f a))
    → Yields Q (m >>= f)
Yields-bind P Q (ok a) f p next = next a p
Yields-bind P Q fault f p next = tt
Yields-bind P Q aborted f p next = tt

pub Yields-any {ℓ} : {A : Type ℓ} (m : Outcome A) → Yields (λ a. Unit {0}) m
Yields-any (ok a) = tt
Yields-any fault = tt
Yields-any aborted = tt

pub Yields-if {ℓ} :
    {A : Type ℓ} (P : A → Type 0) (b : Bool) (m n : Outcome A)
    → (b ≡ true → Yields P m)
    → (b ≡ false → Yields P n)
    → Yields P (if b then m else n)
Yields-if P true m n holds fails = holds refl
Yields-if P false m n holds fails = fails refl

-- What a call yields holds where it returns.
pub Returns-Yields {ℓ} :
    {A : Type ℓ} (P Q : A → Type 0) (m : Outcome A)
    → Returns P m
    → Yields Q m
    → Returns (λ a. P a × Q a) m
Returns-Yields P Q (ok a) p q = (p, q)
Returns-Yields P Q fault p q = p
Returns-Yields P Q aborted p q = p

-- The value that a call returns is the one it ends with.
pub Returns-eq :
    {A : Type 0} (P : A → Type 0) (m : Outcome A) → Returns P m → Returns (λ a. (m ≡ ok a) × P a) m
Returns-eq P (ok a) p = (refl, p)
Returns-eq P fault p = p
Returns-eq P aborted p = p
