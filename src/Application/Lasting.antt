-- ===== src/Application/Lasting.antt =====
-- When the quit timer of na-application.c comes due, from the events of each second.
use gnome_usage.Base.{
  ℕ, zero, suc, ◌-◌, ◌≡◌, ◌≤◌, ◌⊎◌, ◌++◌, refl, Bool, true, false, not, ◌||◌, ◌<◌, List, [], ◌∷◌,
  arith, inl, inr, length, All,
}
use gnome_usage.Application.Timers.{Event}
use gnome_usage.Application.Waiting.{left_after, is_silent, lasts}
use gnome_usage.Application.System.{Second}

-- If the one, then the other.
abbrev pub implies : Bool → Bool → Bool
implies b c = not b || c

pub late_or_early : (k : ℕ) → (k ≤ 1) ⊎ ((m : ℕ) × (k ≡ suc (suc m)))
late_or_early zero = inl (omega arith)
late_or_early (suc zero) = inl (omega arith)
late_or_early (suc (suc m)) = inr (m, refl)

-- Where a timer that comes no sooner is due, this one is.
pub lasts-late :
    (k n : ℕ) (second : Second) (rest : List Second)
    → left_after k second.events n ≤ 1
    → lasts k n (second ∷ rest) ≡ false
unfolding lasts
lasts-late k n second rest late = ground arith

-- A timer that lasts was not due in the first second.
pub lasts-then :
    (k n : ℕ) (second : Second) (rest : List Second) (running : Bool)
    → implies (lasts k (left_after k second.events n - 1) rest) running ≡ true
    → implies (lasts k n (second ∷ rest)) running ≡ true
unfolding lasts
lasts-then k n second rest running h = ground arith

-- A timer that is not due in the first second lasts as long as it then does.
pub lasts-early :
    (k n : ℕ) (second : Second) (rest : List Second) (running : Bool)
    → 1 < left_after k second.events n
    → implies running (lasts k (left_after k second.events n - 1) rest) ≡ true
    → implies running (lasts k n (second ∷ rest)) ≡ true
unfolding lasts
lasts-early k n second rest running early h = ground arith

silent-left_after : (k : ℕ) (es : List Event) (n : ℕ) → is_silent es ≡ true → left_after k es n ≡ n
unfolding left_after is_silent
silent-left_after k [] n quiet = refl
silent-left_after k (e ∷ es) n quiet = ground (arith, silent-left_after k es n)

left_after-bound : (k : ℕ) (es : List Event) (n : ℕ) → n ≤ k → left_after k es n ≤ k
unfolding left_after
left_after-bound k [] n small = small
left_after-bound k (e ∷ es) n small = left_after-bound k es _ (ground arith)

lasts-silent :
    (k n : ℕ) (silent : List Second)
    → All (λ second. is_silent second.events ≡ true) silent
    → n ≤ length silent
    → 1 ≤ length silent
    → lasts k n silent ≡ false
unfolding lasts
lasts-silent k n [] quiet long some_second = ground arith
lasts-silent k n (second ∷ []) quiet long some_second =
    ground (arith, silent-left_after k second.events n quiet.0)
lasts-silent k n (second ∷ next ∷ rest) quiet long some_second =
    rw (silent-left_after k second.events n quiet.0) (
      ground
        (arith, lasts-silent k (n - 1) (next ∷ rest) quiet.1 (omega (arith, long)) (omega arith)))

-- As many seconds of silence as the timer has bring it to its end, whatever came before.
pub lasts-silence :
    (k n : ℕ) (before silent : List Second)
    → 1 ≤ k
    → n ≤ k
    → All (λ second. is_silent second.events ≡ true) silent
    → k ≤ length silent
    → lasts k n (before ++ silent) ≡ false
unfolding lasts
lasts-silence k n [] silent some_second small quiet long =
    lasts-silent k n silent quiet (omega (arith, small, long)) (omega (arith, long))
lasts-silence k n (second ∷ rest) silent some_second small quiet long =
    let m = left_after k second.events n in
    let bound : m ≤ k = left_after-bound k second.events n small in
    rw (lasts-silence k (m - 1) rest silent some_second (omega (arith, bound)) quiet long)
      (ground arith)
