-- ===== src/Base/Decimal.antt =====
-- `%d` and `%u` of a number, and splitting a text at a separator.
use gnome_usage.Base.Tests.{ltb, if◌then◌else◌}
use gnome_usage.Base.Lists.{All, All-append}
use gnome_usage.Base.Text.{Text}
use Prim.Native.Nat.{ℕ, zero, suc, ◌+◌, ◌-◌, ◌*◌, ◌/◌, ◌%◌, ◌^◌, ◌≤◌, ◌<◌}
use mathlib.Core.Path.{◌≡◌, refl}
use mathlib.Core.Logic.{◌≢◌}
use mathlib.Core.List.{[], ◌∷◌, ◌++◌}
use native.Mathlib.Omega.{arith}

-- On fuel; more fuel than the number is enough.
unfoldable pub digits : ℕ → ℕ → Text
digits zero n = []
digits (suc f) n =
    let front = digits f (n / 10) in if ltb n 10 then (48 + n) ∷ [] else front ++ (48 + n % 10) ∷ []

unfoldable pub print_nat : ℕ → Text
unfolding digits
print_nat n = digits (suc n) n

-- `%d` of the `int` whose bit pattern is `w`.
unfoldable pub print_int : ℕ → Text
unfolding print_nat
print_int w = if ltb w (2 ^ 31) then print_nat w else b'-' ∷ print_nat (2 ^ 32 - w)

-- The number that a row of decimal digits stands for, behind the digits read so far.
unfoldable pub value_from : ℕ → Text → ℕ
value_from acc [] = acc
value_from acc (c ∷ s) = value_from (acc * 10 + (c - 48)) s

value_from-append :
    (acc : ℕ) (s : Text) (c : ℕ) → value_from acc (s ++ c ∷ []) ≡ value_from acc s * 10 + (c - 48)
unfolding value_from
value_from-append acc [] c = refl
value_from-append acc (d ∷ s) c = value_from-append (acc * 10 + (d - 48)) s c

value_from-digits : (f n : ℕ) → n < f → value_from 0 (digits f n) ≡ n
unfolding digits value_from
value_from-digits zero n h = elim h [ ]
value_from-digits (suc f) n h =
    ground
      (arith, value_from-append 0 (digits f (n / 10)) (48 + n % 10), value_from-digits f (n / 10))

pub value_from-print_nat : (n : ℕ) → value_from 0 (print_nat n) ≡ n
unfolding print_nat
value_from-print_nat n = value_from-digits (suc n) n (omega arith)

abbrev pub IsDigit : ℕ → Type 0
IsDigit c = (48 ≤ c) × (c ≤ 57)

digits-IsDigit : (f n : ℕ) → All IsDigit (digits f n)
unfolding digits
digits-IsDigit zero n = tt
digits-IsDigit (suc f) n = ground (
  arith,
  All-append IsDigit (digits f (n / 10)) ((48 + n % 10) ∷ []) (digits-IsDigit f (n / 10))
      (omega arith),
)

pub print_nat-IsDigit : (n : ℕ) → All IsDigit (print_nat n)
unfolding print_nat
print_nat-IsDigit n = digits-IsDigit (suc n) n

-- A text without the byte `c`.
abbrev pub Without : ℕ → Text → Type 0
Without c s = All (λ d. d ≢ c) s

-- Two texts that agree, split at the first separator, agree before it and behind it.
pub split_first :
    (c : ℕ) (s s' t t' : Text)
    → Without c s
    → Without c s'
    → s ++ c ∷ t ≡ s' ++ c ∷ t'
    → (s ≡ s') × (t ≡ t')
split_first c [] [] t t' h h' e = (refl, cc)
split_first c [] (d ∷ s') t t' h h' e = absurd (h'.0 (cc))
split_first c (d ∷ s) [] t t' h h' e = absurd (h.0 (cc))
split_first c (d ∷ s) (d' ∷ s') t t' h h' e =
    let (same, rest) = split_first c s s' t t' h.1 h'.1 (cc) in (cc, rest)

-- The same, split at the last one.
not-Without-append : (c : ℕ) (s t : Text) → ¬ Without c (s ++ c ∷ t)
not-Without-append c [] t h = h.0 refl
not-Without-append c (d ∷ s) t h = not-Without-append c s t h.1

pub split_last :
    (c : ℕ) (s s' t t' : Text)
    → Without c t
    → Without c t'
    → s ++ c ∷ t ≡ s' ++ c ∷ t'
    → (s ≡ s') × (t ≡ t')
split_last c [] [] t t' h h' e = (refl, cc)
split_last c [] (d ∷ s') t t' h h' e =
    let e' : t ≡ s' ++ c ∷ t' = cc in absurd (not-Without-append c s' t' (rw e' at h))
split_last c (d ∷ s) [] t t' h h' e =
    let e' : t' ≡ s ++ c ∷ t = cc in absurd (not-Without-append c s t (rw e' at h'))
split_last c (d ∷ s) (d' ∷ s') t t' h h' e =
    let (same, rest) = split_last c s s' t t' h h' (cc) in (cc, rest)

pub print_int-print_nat : (w : ℕ) → w < 2 ^ 31 → print_int w ≡ print_nat w
unfolding print_int
print_int-print_nat w h = ground arith
