-- ===== src/Attribution/Held.antt =====
-- What the processes of na-process.c hold, when a process is added and a connection attached.
use mathlib.Core.List.{append-nil, append_assoc}
use gnome_usage.Base.{
  ℕ, zero, suc, ◌<◌, ◌≡◌, refl, false, ◌||◌, some, List, [], ◌∷◌, ◌++◌, ◌==◌, arith, inl, inr,
  Option-cases, length, nat_eq,
}
use gnome_usage.Base.Text.{text_eq}
use gnome_usage.Base.Members.{
  has, IsNodup, has-append, IsNodup-append, IsNodup-append_left, IsNodup-append_right,
  IsNodup-append_apart,
}
use gnome_usage.Inodeproc.{Program}
use gnome_usage.Process.{Process, find_process_from_program}
use gnome_usage.Process.Ownership.{owned}
use gnome_usage.Attribution.{attach}

pub owned-append : (ps qs : List Process) → owned (ps ++ qs) ≡ owned ps ++ owned qs
owned-append [] qs = refl
owned-append (p ∷ ps) qs = simp (owned-append ps qs, append_assoc)

-- A process that holds nothing yet changes nothing.
pub owned-new :
    (ps : List Process) (p : Process) → p.connections ≡ [] → owned (ps ++ p ∷ []) ≡ owned ps
owned-new ps p e = rw (owned-append, e) (append-nil (owned ps))

pub has-attach :
    (place a b : ℕ) (ps : List Process)
    → place < length ps
    → has b (owned (attach place a ps)) ≡ (b == a || has b (owned ps))
unfolding attach
has-attach place a b [] h = elim h [ ]
has-attach zero a b (p ∷ ps) h = ground (
  arith,
  has-append b (p.connections ++ a ∷ []) (owned ps),
  has-append b p.connections (a ∷ []),
  has-append b p.connections (owned ps),
)
has-attach (suc place) a b (p ∷ ps) h = ground (
  arith,
  has-append b p.connections (owned (attach place a ps)),
  has-append b p.connections (owned ps),
  has-attach place a b ps,
)

pub attach-IsNodup :
    (place a : ℕ) (ps : List Process)
    → place < length ps
    → IsNodup (owned ps)
    → has a (owned ps) ≡ false
    → IsNodup (owned (attach place a ps))
unfolding attach
attach-IsNodup place a [] h d out = tt
attach-IsNodup zero a (p ∷ ps) h d out =
    IsNodup-append (p.connections ++ a ∷ []) (owned ps)
      (IsNodup-append p.connections (a ∷ []) (IsNodup-append_left p.connections (owned ps) d)
        (refl, tt) (λ b m. ground (arith, has-append a p.connections (owned ps))))
      (IsNodup-append_right p.connections (owned ps) d)
      (λ b m. ground (
        arith,
        has-append b p.connections (a ∷ []),
        has-append a p.connections (owned ps),
        IsNodup-append_apart p.connections (owned ps) b d,
      ))
attach-IsNodup (suc place) a (p ∷ ps) h d out =
    IsNodup-append p.connections (owned (attach place a ps))
      (IsNodup-append_left p.connections (owned ps) d)
      (attach-IsNodup place a ps (omega arith) (IsNodup-append_right p.connections (owned ps) d)
        (ground (arith, has-append a p.connections (owned ps))))
      (λ b m. ground (
        arith,
        has-attach place a b ps (omega arith),
        has-append a p.connections (owned ps),
        IsNodup-append_apart p.connections (owned ps) b d,
      ))

pub find_process-lt :
    (ps : List Process) (node : Program) (i : ℕ)
    → find_process_from_program ps node ≡ some i
    → i < length ps
unfolding find_process_from_program
find_process-lt [] node i e = cc
find_process-lt (p ∷ ps) node i e = elim (Option-cases (find_process_from_program ps node)) [
  | inl no_place ↦ ground arith
  | inr (j, at) ↦ ground (arith, find_process-lt ps node j at)
]
