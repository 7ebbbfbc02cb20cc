-- ===== src/Tests/Clock.antt =====
-- A clock that meets what Application.System asks of GLib's: each slot with the seconds that are left.
use gnome_usage.Base.{
  ℕ, zero, suc, ◌+◌, ◌<◌, ◌≡◌, refl, sym, ◌∙◌, ap, Bool, true, false, Option, none, some, List, [],
  ◌∷◌, ◌++◌, leb, arith, ==_refl, ◌==◌, if◌then◌else◌, length, map,
}
use gnome_usage.Base.Members.{has}
use gnome_usage.Application.{Source, MainContext}
use gnome_usage.Application.System.{Clock}
use gnome_usage.Tests.Context.{
  slot, slot-length, by_id, without_id, by_id-append, by_id-without, slots_nonzero,
}

abbrev source_of : Option (Source × ℕ) → Option Source
source_of none = none
source_of (some (s, n)) = some s

abbrev left_of : Option (Source × ℕ) → Option ℕ
left_of none = none
left_of (some (s, n)) = some n

-- A source that is due starts again.
abbrev tick : Option (Source × ℕ) → Option (Source × ℕ)
tick none = none
tick (some (s, zero)) = some (s, s.seconds)
tick (some (s, suc zero)) = some (s, s.seconds)
tick (some (s, suc (suc n))) = some (s, suc n)

abbrev is_due : Option (Source × ℕ) → Bool
is_due none = false
is_due (some (s, n)) = leb n 1

abbrev due_from : ℕ → List (Option (Source × ℕ)) → List ℕ
due_from i [] = []
due_from i (x ∷ xs) = if is_due x then i ∷ due_from (suc i) xs else due_from (suc i) xs

due_from-before :
    (i j : ℕ) (xs : List (Option (Source × ℕ))) → j < i → has j (due_from i xs) ≡ false
due_from-before i j [] h = refl
due_from-before i j (x ∷ xs) h = ground (arith, due_from-before (suc i) j xs (omega (arith, h)))

has-due_from :
    (i j : ℕ) (xs : List (Option (Source × ℕ))) → has (i + j) (due_from i xs) ≡ is_due (slot xs j)
has-due_from i j [] = refl
has-due_from i zero (x ∷ xs) = ground (arith, due_from-before (suc i) (i + 0) xs (omega arith))
has-due_from i (suc j) (x ∷ xs) =
    let moved : suc i + j ≡ i + suc j = omega arith in
    ground (arith, ap (λ k. has k (due_from (suc i) xs)) moved, has-due_from (suc i) j xs)

pub due_from-by_id :
    (j : ℕ) (xs : List (Option (Source × ℕ))) → has j (due_from 1 xs) ≡ is_due (by_id xs j)
due_from-by_id zero xs = due_from-before 1 0 xs (omega arith)
due_from-by_id (suc j) xs =
    let moved : 1 + j ≡ suc j = omega arith in
    ap (λ k. has k (due_from 1 xs)) (sym moved) ∙ has-due_from 1 j xs

slot-tick : (xs : List (Option (Source × ℕ))) (j : ℕ) → slot (map tick xs) j ≡ tick (slot xs j)
slot-tick [] j = refl
slot-tick (x ∷ xs) zero = refl
slot-tick (x ∷ xs) (suc j) = slot-tick xs j

pub by_id-tick :
    (xs : List (Option (Source × ℕ))) (j : ℕ) → by_id (map tick xs) j ≡ tick (by_id xs j)
by_id-tick xs zero = refl
by_id-tick xs (suc j) = slot-tick xs j

pub source_of-tick : (x : Option (Source × ℕ)) → source_of (tick x) ≡ source_of x
source_of-tick none = refl
source_of-tick (some (s, zero)) = refl
source_of-tick (some (s, suc zero)) = refl
source_of-tick (some (s, suc (suc n))) = refl

pub left_of-tick :
    (x : Option (Source × ℕ)) (n : ℕ)
    → left_of x ≡ some (suc (suc n))
    → left_of (tick x) ≡ some (suc n)
left_of-tick none n h = cc
left_of-tick (some (s, zero)) n h = ground arith
left_of-tick (some (s, suc zero)) n h = ground arith
left_of-tick (some (s, suc (suc m))) n h = ground arith

pub left_of-due : (x : Option (Source × ℕ)) (n : ℕ) → left_of x ≡ some n → is_due x ≡ leb n 1
left_of-due none n h = cc
left_of-due (some (s, m)) n h = ground arith

pub source_of-if :
    (b : Bool) (x y : Option (Source × ℕ))
    → source_of (if b then x else y) ≡ (if b then source_of x else source_of y)
source_of-if true x y = refl
source_of-if false x y = refl

pub left_of-if :
    (b : Bool) (x y : Option (Source × ℕ))
    → left_of (if b then x else y) ≡ (if b then left_of x else left_of y)
left_of-if true x y = refl
left_of-if false x y = refl

pub new_left :
    (xs : List (Option (Source × ℕ))) (s : Source)
    → left_of (by_id (xs ++ some (s, s.seconds) ∷ []) (suc (length xs))) ≡ some s.seconds
new_left xs s =
    ap left_of (by_id-append xs (s, s.seconds) (suc (length xs)))
    ∙ ground (arith, ==_refl (suc (length xs)))

pub other_left :
    (xs : List (Option (Source × ℕ))) (s : Source) (j : ℕ)
    → (j == suc (length xs)) ≡ false
    → left_of (by_id (xs ++ some (s, s.seconds) ∷ []) j) ≡ left_of (by_id xs j)
other_left xs s j other = ap left_of (by_id-append xs (s, s.seconds) j) ∙ ground arith

abbrev ticking : MainContext
ticking = record {
  Context = List (Option (Source × ℕ));
  source = λ xs j. source_of (by_id xs j);
  add_seconds = λ xs s. (xs ++ some (s, s.seconds) ∷ [], suc (length xs));
  remove = without_id;
  add_nonzero = λ xs s. slots_nonzero (length xs);
  add_unused = λ xs s. ap source_of (slot-length xs);
  source-add = λ xs s j. ap source_of (by_id-append xs (s, s.seconds) j) ∙ source_of-if _ _ _;
  source-remove = λ xs i j. ap source_of (by_id-without xs i j) ∙ source_of-if _ _ _;
}

abbrev pub clock : Clock
clock = record {
  main = ticking;
  left = λ xs j. left_of (by_id xs j);
  due = due_from 1;
  turn = map tick;
  left-add = λ xs s. (s.seconds, new_left xs s, omega arith, omega arith);
  left-add_other = λ xs s j other. other_left xs s j other;
  left-remove = λ xs i j. ap left_of (by_id-without xs i j) ∙ left_of-if _ _ _;
  source-turn = λ xs j. ap source_of (by_id-tick xs j) ∙ source_of-tick (by_id xs j);
  left-turn = λ xs j n h. ap left_of (by_id-tick xs j) ∙ left_of-tick (by_id xs j) n h;
  due-left = λ xs j n h small. ground (arith, due_from-by_id j xs, left_of-due (by_id xs j) n h);
  not_due-left =
      λ xs j n h. ground (arith, due_from-by_id j xs, left_of-due (by_id xs j) (suc (suc n)) h);
}
