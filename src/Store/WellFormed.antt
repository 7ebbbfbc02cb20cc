-- ===== src/Store/WellFormed.antt =====
-- The memory of na-connection.c stays well formed: what is listed is what is allocated.
use gnome_usage.Base.{
  if◌then◌else◌, ℕ, ◌≤◌, ◌≡◌, refl, Bool, true, false, ◌&&◌, not, Option, none, some, List, [], ◌∷◌,
  ◌==◌, arith, inl, inr, Bool-cases, Option-cases,
}
use gnome_usage.Base.Members.{has, IsNodup, has-append, IsNodup-append}
use gnome_usage.Outcome.{ok, Returns, Returns-bind, Returns-mono}
use gnome_usage.Packet.{Packet, packet_match, packet_new_inverted}
use gnome_usage.Connection.{Connection}
use gnome_usage.Store.{
  Store, write, deref, assign, remove_first, add_connection, connection_free, find_loop,
  connection_find_from_packet,
}

abbrev pub is_allocated : Store → ℕ → Bool
is_allocated s a = elim (s.cells a) [ none ↦ false | some c ↦ true ]

pub record IsStore (s : Store) : Type 0 where
  pub listed : (a : ℕ) → is_allocated s a ≡ has a s.connections
  pub fresh : (a : ℕ) → s.next ≤ a → has a s.connections ≡ false
  pub distinct : IsNodup s.connections

has-remove_first :
    (a b : ℕ) (l : List ℕ) → IsNodup l → has b (remove_first a l) ≡ (not (b == a) && has b l)
unfolding remove_first
has-remove_first a b [] h = ground arith
has-remove_first a b (c ∷ l) h = ground (arith, has-remove_first a b l h.1)

remove_first-IsNodup : (a : ℕ) (l : List ℕ) → IsNodup l → IsNodup (remove_first a l)
unfolding remove_first
remove_first-IsNodup a [] h = tt
remove_first-IsNodup a (c ∷ l) h =
    ground (arith, has-remove_first a c l h.1, remove_first-IsNodup a l h.1)

-- A search that found something found a member of the list.
abbrev pub FoundIn : List ℕ → Option ℕ → Type 0
FoundIn l none = Unit {0}
FoundIn l (some a) = has a l ≡ true

FoundIn-cons : (b : ℕ) (l : List ℕ) (r : Option ℕ) → FoundIn l r → FoundIn (b ∷ l) r
FoundIn-cons b l none h = tt
FoundIn-cons b l (some a) h = ground arith

pub connections-assign :
    (s : Store) (a : ℕ) (c : Connection) → (assign s a c).connections ≡ s.connections
unfolding assign
connections-assign s a c = refl

module _ {s : Store} (w : IsStore s) where
  pub cells-some : (a : ℕ) → has a s.connections ≡ true → (c : Connection) × (s.cells a ≡ some c)
  cells-some a m = elim (Option-cases (s.cells a)) [
    | inl e ↦ absurd (ground (arith, w.listed a))
    | inr found ↦ found
  ]

  -- Nothing is allocated where the next connection will be.
  pub next-none : s.cells s.next ≡ none
  next-none = elim (Option-cases (s.cells s.next)) [
    | inl e ↦ e
    | inr (c, e) ↦ absurd (ground (arith, w.listed s.next, w.fresh s.next, e))
  ]

  -- A listed connection can be read.
  pub deref-ok : (a : ℕ) → has a s.connections ≡ true → (c : Connection) × (deref s a ≡ ok c)
  unfolding deref
  deref-ok a m = let (c, e) = cells-some a m in (c, rw (e, deref) refl)

  pub assign-IsStore :
      (a : ℕ) (c : Connection) → has a s.connections ≡ true → IsStore (assign s a c)
  unfolding assign write
  assign-IsStore a c m = record {
    listed = λ b. ground (arith, w.listed b);
    fresh = w.fresh;
    distinct = w.distinct;
  }

  pub add-IsStore : (c : Connection) → IsStore (add_connection s c).0
  unfolding add_connection write
  add-IsStore c = record {
    listed = λ b. ground (arith, w.listed b, has-append b s.connections (s.next ∷ []));
    fresh = λ b h. ground (arith, w.fresh b, has-append b s.connections (s.next ∷ []));
    distinct =
        IsNodup-append s.connections (s.next ∷ []) w.distinct (refl, tt)
          (λ b h. ground (arith, w.fresh b));
  }

  -- `na_connection_free` of a listed connection takes it off the list, and no other.
  pub free-IsStore :
      (a : ℕ)
      → has a s.connections ≡ true
      → Returns
          (λ s'.
            IsStore s'
            × ((b : ℕ) → has b s'.connections ≡ (not (b == a) && has b s.connections))
            × ((b : ℕ) → s'.cells b ≡ (if b == a then none else s.cells b)))
          (connection_free s a)
  unfolding connection_free write
  free-IsStore a m =
      let (c, e) = deref-ok a m in
      rw e (
        record {
          listed = λ b. ground (arith, w.listed b, has-remove_first a b s.connections w.distinct);
          fresh = λ b h. ground (arith, w.fresh b, has-remove_first a b s.connections w.distinct);
          distinct = remove_first-IsNodup a s.connections w.distinct;
        },
        λ b. has-remove_first a b s.connections w.distinct,
        λ b. refl,
      )

  -- The search reads listed connections only, and finds one of them or none.
  find_loop-FoundIn :
      (p : Packet) (l : List ℕ)
      → ((a : ℕ) → has a l ≡ true → has a s.connections ≡ true)
      → Returns (FoundIn l) (find_loop s p l)
  unfolding find_loop
  find_loop-FoundIn p [] sub = tt
  find_loop-FoundIn p (b ∷ l) sub =
      let (c, e) = deref-ok b (sub b (ground arith)) in
      rw e (elim (Bool-cases (packet_match p c.refpacket)) [
        | inl hit ↦ rw hit (ground arith)
        | inr miss ↦ rw miss (
            Returns-mono (FoundIn l) (FoundIn (b ∷ l)) (find_loop s p l)
              (find_loop-FoundIn p l (λ a m. sub a (ground arith))) (FoundIn-cons b l))
      ])

  pub find_from_packet-FoundIn :
      (p : Packet) → Returns (FoundIn s.connections) (connection_find_from_packet s p)
  unfolding connection_find_from_packet
  find_from_packet-FoundIn p =
      Returns-bind (FoundIn s.connections) (FoundIn s.connections) (find_loop s p s.connections) _
        (find_loop-FoundIn p s.connections (λ a m. m))
        λ r f.
          elim r
              as (λ r.
                FoundIn s.connections r
                → Returns (FoundIn s.connections) (elim r [
                  | some a ↦ ok (some a)
                  | none ↦ find_loop s (packet_new_inverted p) s.connections
                ])) [
                  | some a ↦ λ m. m
                  | none ↦ λ u. find_loop-FoundIn (packet_new_inverted p) s.connections (λ a m. m)
                ]
            f
