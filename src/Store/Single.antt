-- ===== src/Store/Single.antt =====
-- The list of na-connection.c has one connection for each flow at most.
use gnome_usage.Base.{
  if◌then◌else◌, ℕ, ◌≡◌, sym, ◌∙◌, ap, true, false, Option, none, some, ◌==◌, arith, inl, inr,
  Bool-cases,
}
use gnome_usage.Packet.Flow.{Ends, ends, same_flow, same_flow_sym}
use gnome_usage.Connection.{Connection}
use gnome_usage.Store.{Store, write, assign}

-- The two ends of the connection at an address, as its reference packet has them.
abbrev pub ends_of : Option Connection → Option Ends
ends_of none = none
ends_of (some c) = some (ends c.refpacket)

abbrev pub ends_at : Store → ℕ → Option Ends
ends_at s b = ends_of (s.cells b)

-- No connection is of the flow.
abbrev pub IsUnknown : Store → Ends → Type 0
IsUnknown s e = (b : ℕ) (f : Ends) → ends_at s b ≡ some f → same_flow e f ≡ false

-- Two connections of one flow are one.
abbrev pub IsSingle : Store → Type 0
IsSingle s =
    (a b : ℕ) (e f : Ends)
    → ends_at s a ≡ some e
    → ends_at s b ≡ some f
    → same_flow e f ≡ true
    → a ≡ b

-- Every connection is an old one, with the ends that it had.
abbrev pub IsNoNewer : Store → Store → Type 0
IsNoNewer s s' = (b : ℕ) (e : Ends) → ends_at s' b ≡ some e → ends_at s b ≡ some e

pub IsSingle-mono : (s s' : Store) → IsSingle s → IsNoNewer s s' → IsSingle s'
IsSingle-mono s s' h old a b e f p q same = h a b e f (old a e p) (old b f q) same

pub assign-IsNoNewer :
    (s : Store) (a : ℕ) (c c' : Connection)
    → s.cells a ≡ some c
    → ends c'.refpacket ≡ ends c.refpacket
    → IsNoNewer s (assign s a c')
unfolding assign write
assign-IsNoNewer s a c c' here kept b e p = elim (Bool-cases (b == a)) [
  | inl same ↦
      let path : b ≡ a = ground arith in
      ap ends_of (ap s.cells path ∙ here) ∙ ap some (sym kept) ∙ (rw same at p)
  | inr other ↦ (rw other at p)
]

-- Where one connection is new, and no other is of its flow, the flows stay apart.
pub new-IsSingle :
    (s s' : Store) (n : ℕ) (g : Ends)
    → ends_at s' n ≡ some g
    → ((b : ℕ) → (b == n) ≡ false → s'.cells b ≡ s.cells b)
    → ((b : ℕ) (f : Ends) → ends_at s b ≡ some f → same_flow g f ≡ false)
    → IsSingle s
    → IsSingle s'
new-IsSingle s s' n g here others new h a b e f p q same = elim (Bool-cases (a == n)) [
  | inl a_new ↦ elim (Bool-cases (b == n)) [
    | inl b_new ↦ ground arith
    | inr b_old ↦ absurd (differ a e p a_new b f q b_old same)
  ]
  | inr a_old ↦ elim (Bool-cases (b == n)) [
    | inl b_new ↦ absurd (differ b f q b_new a e p a_old (same_flow_sym f e ∙ same))
    | inr b_old ↦ h a b e f (old a a_old ∙ p) (old b b_old ∙ q) same
  ]
]
  where
    old : (b : ℕ) → (b == n) ≡ false → ends_at s b ≡ ends_at s' b
    old b out = sym (ap ends_of (others b out))

    differ :
        (a : ℕ) (e : Ends)
        → ends_at s' a ≡ some e
        → (a == n) ≡ true
        → (b : ℕ) (f : Ends) → ends_at s' b ≡ some f
        → (b == n) ≡ false
        → same_flow e f ≡ true
        → ⊥
    differ a e p was b f q out same =
        let at : a ≡ n = ground arith in
        let path : g ≡ e = cc (sym here ∙ sym (ap (ends_at s') at) ∙ p) in
        ground (arith, path, new b f (old b out ∙ q), same)

pub IsNoNewer-trans : (s s' s'' : Store) → IsNoNewer s s' → IsNoNewer s' s'' → IsNoNewer s s''
IsNoNewer-trans s s' s'' h k b e p = h b e (k b e p)

-- Memory where one connection is freed has no newer one.
pub freed-IsNoNewer :
    (s s' : Store) (a : ℕ)
    → ((b : ℕ) → s'.cells b ≡ (if b == a then none else s.cells b))
    → IsNoNewer s s'
freed-IsNoNewer s s' a h b e p = elim (Bool-cases (b == a)) [
  | inl same ↦
      let gone : s'.cells b ≡ none = ground (arith, h b) in absurd (cc (sym (ap ends_of gone) ∙ p))
  | inr other ↦ let kept : s'.cells b ≡ s.cells b = ground (arith, h b) in sym (ap ends_of kept) ∙ p
]
