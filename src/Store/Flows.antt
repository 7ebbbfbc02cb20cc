-- ===== src/Store/Flows.antt =====
-- What the search of na-connection.c for the connection of a packet finds.
use gnome_usage.Base.{
  ℕ, ◌≡◌, Bool, true, false, ◌||◌, Option, none, some, List, [], ◌∷◌, ◌==◌, arith, inl, inr,
  Bool-cases,
}
use gnome_usage.Base.Members.{has, has-cons_self}
use gnome_usage.Outcome.{ok, Returns, Returns-bind, Returns-mono}
use gnome_usage.Packet.{Packet, packet_match, packet_new_inverted}
use gnome_usage.Connection.{Connection}
use gnome_usage.Store.{Store, deref, find_loop, connection_find_from_packet}
use gnome_usage.Store.WellFormed.{IsStore, cells-some}

-- The connection at an address of the list, with a test that it passes.
pub record IsHit (s : Store) (test : Connection → Bool) (l : List ℕ) (a : ℕ) : Type 0 where
  pub listed : has a l ≡ true
  pub connection : Connection
  pub here : s.cells a ≡ some connection
  pub passes : test connection ≡ true

-- No connection of the list passes the test.
abbrev pub IsMissed : Store → (Connection → Bool) → List ℕ → Type 0
IsMissed s test l = (b : ℕ) (c : Connection) → has b l ≡ true → s.cells b ≡ some c → test c ≡ false

abbrev pub Answers : Store → (Connection → Bool) → List ℕ → Option ℕ → Type 0
Answers s test l none = IsMissed s test l
Answers s test l (some a) = IsHit s test l a

-- The connection's reference packet matches the packet.
abbrev pub matches : Packet → Connection → Bool
matches p c = packet_match p c.refpacket

-- A packet belongs to a connection by itself or turned round.
abbrev pub belongs : Packet → Connection → Bool
belongs p c = matches p c || matches (packet_new_inverted p) c

Answers-cons :
    (s : Store) (test : Connection → Bool) (a : ℕ) (c : Connection) (l : List ℕ)
    → s.cells a ≡ some c
    → test c ≡ false
    → (r : Option ℕ) → Answers s test l r
    → Answers s test (a ∷ l) r
Answers-cons s test a c l e miss none h = λ b k m f. elim (Bool-cases (b == a)) [
  | inl same ↦ let path : b ≡ a = ground arith in cc
  | inr other ↦ h b k (ground arith) f
]
Answers-cons s test a c l e miss (some b) h = record {
  listed = ground (arith, h.listed);
  connection = h.connection;
  here = h.here;
  passes = h.passes;
}

-- A connection that is missed by both tests is missed by their disjunction.
Answers-or :
    (s : Store) (test test' : Connection → Bool) (l : List ℕ)
    → IsMissed s test l
    → (r : Option ℕ) → Answers s test' l r
    → Answers s (λ c. test c || test' c) l r
Answers-or s test test' l first none h = λ b c m e. ground (arith, first b c m e, h b c m e)
Answers-or s test test' l first (some a) h = record {
  listed = h.listed;
  connection = h.connection;
  here = h.here;
  passes = ground (arith, h.passes);
}

module _ {s : Store} (w : IsStore s) where
  find_loop-Answers :
      (p : Packet) (l : List ℕ)
      → ((a : ℕ) → has a l ≡ true → has a s.connections ≡ true)
      → Returns (Answers s (matches p) l) (find_loop s p l)
  unfolding find_loop deref
  find_loop-Answers p [] sub = λ b c m e. cc
  find_loop-Answers p (a ∷ l) sub =
      let (c, e) = cells-some w a (sub a (has-cons_self a l)) in
      rw (deref, e)
        (elim (Bool-cases (packet_match p c.refpacket)) [
          | inl hit ↦
              rw hit (record { listed = has-cons_self a l; connection = c; here = e; passes = hit })
          | inr miss ↦ rw miss (
              Returns-mono _ _ (find_loop s p l)
                (find_loop-Answers p l (λ b m. sub b (ground arith)))
                (Answers-cons s (matches p) a c l e miss))
        ])

  -- The second loop, which runs where the first has found nothing.
  second-Answers :
      (p : Packet) (r : Option ℕ)
      → Answers s (matches p) s.connections r
      → Returns (Answers s (belongs p) s.connections) (elim r [
        | some a ↦ ok (some a)
        | none ↦ find_loop s (packet_new_inverted p) s.connections
      ])
  second-Answers p none h =
      Returns-mono _ _ (find_loop s (packet_new_inverted p) s.connections)
        (find_loop-Answers (packet_new_inverted p) s.connections (λ a m. m))
        (Answers-or s (matches p) (matches (packet_new_inverted p)) s.connections h)
  second-Answers p (some a) h = record {
    listed = h.listed;
    connection = h.connection;
    here = h.here;
    passes = ground (arith, h.passes);
  }

  -- Where the listed connections are those that are allocated, the search always answers, and reads
  -- no freed connection. It answers with a listed connection whose reference packet matches the
  -- packet or its inversion, and with none only if there is no such connection.
  pub find_from_packet-Answers :
      (p : Packet) → Returns (Answers s (belongs p) s.connections) (connection_find_from_packet s p)
  unfolding connection_find_from_packet
  find_from_packet-Answers p =
      Returns-bind (Answers s (matches p) s.connections) (Answers s (belongs p) s.connections)
        (find_loop s p s.connections) _ (find_loop-Answers p s.connections (λ a m. m))
        (second-Answers p)
