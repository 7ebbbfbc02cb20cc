-- ===== src/Tests/Context.antt =====
-- A main context that meets what Application asks of GLib's: slots in the order of their ids, the
-- first id being 1.
use gnome_usage.Base.{
  ℕ, zero, suc, ◌≡◌, ◌≢◌, refl, Option, none, some, List, [], ◌∷◌, ◌++◌, ◌==◌, arith, if◌then◌else◌,
  length,
}
use gnome_usage.Application.{Source, MainContext}

module _ {A : Type 0} where
  abbrev pub slot : List (Option A) → ℕ → Option A
  slot [] i = none
  slot (x ∷ xs) zero = x
  slot (x ∷ xs) (suc i) = slot xs i

  abbrev pub clear : List (Option A) → ℕ → List (Option A)
  clear [] i = []
  clear (x ∷ xs) zero = none ∷ xs
  clear (x ∷ xs) (suc i) = x ∷ clear xs i

  slot-append :
      (xs : List (Option A)) (s : Option A) (j : ℕ)
      → slot (xs ++ s ∷ []) j ≡ (if j == length xs then s else slot xs j)
  slot-append [] s zero = refl
  slot-append [] s (suc j) = ground arith
  slot-append (x ∷ xs) s zero = ground arith
  slot-append (x ∷ xs) s (suc j) = ground (arith, slot-append xs s j)

  pub slot-length : (xs : List (Option A)) → slot xs (length xs) ≡ none
  slot-length [] = refl
  slot-length (x ∷ xs) = slot-length xs

  slot-clear :
      (xs : List (Option A)) (i j : ℕ) → slot (clear xs i) j ≡ (if j == i then none else slot xs j)
  slot-clear [] i j = ground arith
  slot-clear (x ∷ xs) zero zero = refl
  slot-clear (x ∷ xs) zero (suc j) = ground arith
  slot-clear (x ∷ xs) (suc i) zero = ground arith
  slot-clear (x ∷ xs) (suc i) (suc j) = ground (arith, slot-clear xs i j)

  abbrev pub by_id : List (Option A) → ℕ → Option A
  by_id xs zero = none
  by_id xs (suc i) = slot xs i

  abbrev pub without_id : List (Option A) → ℕ → List (Option A)
  without_id xs zero = xs
  without_id xs (suc i) = clear xs i

  pub by_id-append :
      (xs : List (Option A)) (s : A) (j : ℕ)
      → by_id (xs ++ some s ∷ []) j ≡ (if j == suc (length xs) then some s else by_id xs j)
  by_id-append xs s zero = ground arith
  by_id-append xs s (suc j) = ground (arith, slot-append xs (some s) j)

  pub by_id-without :
      (xs : List (Option A)) (i j : ℕ)
      → by_id (without_id xs i) j ≡ (if j == i then none else by_id xs j)
  by_id-without xs zero zero = refl
  by_id-without xs zero (suc j) = ground arith
  by_id-without xs (suc i) zero = ground arith
  by_id-without xs (suc i) (suc j) = ground (arith, slot-clear xs i j)

pub slots_nonzero : (n : ℕ) → suc n ≢ 0
slots_nonzero n = omega arith

abbrev pub slots : MainContext
slots = record {
  Context = List (Option Source);
  source = by_id;
  add_seconds = λ xs s. (xs ++ some s ∷ [], suc (length xs));
  remove = without_id;
  add_nonzero = λ xs s. slots_nonzero (length xs);
  add_unused = λ xs s. slot-length xs;
  source-add = by_id-append;
  source-remove = by_id-without;
}
