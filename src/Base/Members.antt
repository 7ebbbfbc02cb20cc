-- ===== src/Base/Members.antt =====
-- Membership of numbers in a list as a Boolean, and lists without repetition.
use gnome_usage.Base.Tests.{◌==◌}
use Prim.Native.Nat.{ℕ}
use mathlib.Core.Path.{◌≡◌, refl}
use mathlib.Core.Bool.{Bool, true, false, ◌||◌}
use mathlib.Core.List.{List, [], ◌∷◌, ◌++◌}
use native.Mathlib.Omega.{arith}

abbrev pub has : ℕ → List ℕ → Bool
has a [] = false
has a (b ∷ bs) = a == b || has a bs

abbrev pub IsNodup : List ℕ → Type 0
IsNodup [] = Unit {0}
IsNodup (b ∷ bs) = (has b bs ≡ false) × IsNodup bs

pub has-append : (a : ℕ) (bs cs : List ℕ) → has a (bs ++ cs) ≡ (has a bs || has a cs)
has-append a [] cs = refl
has-append a (b ∷ bs) cs = ground (arith, has-append a bs cs)

-- What keeps the members of two lists apart keeps their concatenation free of repetition.
pub IsNodup-append :
    (bs cs : List ℕ)
    → IsNodup bs
    → IsNodup cs
    → ((a : ℕ) → has a bs ≡ true → has a cs ≡ false)
    → IsNodup (bs ++ cs)
IsNodup-append [] cs h k apart = k
IsNodup-append (b ∷ bs) cs h k apart = (
  ground (arith, has-append b bs cs, apart b),
  IsNodup-append bs cs h.1 k (λ a m. ground (arith, apart a)),
)

pub IsNodup-append_left : (bs cs : List ℕ) → IsNodup (bs ++ cs) → IsNodup bs
IsNodup-append_left [] cs h = tt
IsNodup-append_left (b ∷ bs) cs h =
    (ground (arith, has-append b bs cs), IsNodup-append_left bs cs h.1)

pub IsNodup-append_right : (bs cs : List ℕ) → IsNodup (bs ++ cs) → IsNodup cs
IsNodup-append_right [] cs h = h
IsNodup-append_right (b ∷ bs) cs h = IsNodup-append_right bs cs h.1

pub IsNodup-append_apart :
    (bs cs : List ℕ) (a : ℕ) → IsNodup (bs ++ cs) → has a bs ≡ true → has a cs ≡ false
IsNodup-append_apart [] cs a h m = cc
IsNodup-append_apart (b ∷ bs) cs a h m =
    ground (arith, has-append b bs cs, IsNodup-append_apart bs cs a h.1)

pub has-cons_self : (a : ℕ) (bs : List ℕ) → has a (a ∷ bs) ≡ true
has-cons_self a bs = ground arith
