-- ===== src/Store/Every.antt =====
-- Properties that every connection in memory has, through the operations of na-connection.c on them.
use gnome_usage.Base.{ℕ, ◌≡◌, some, List, ◌==◌, subst, inl, inr, Bool-cases, Option-cases}
use gnome_usage.Base.Text.{Text}
use gnome_usage.Outcome.{Yields}
use gnome_usage.Packet.{Packet, Timeval, InetNtop, packet_get_hashstring}
use gnome_usage.Connection.{
  Connection, connection_new, connection_add_packet, connection_sum_packets,
}
use gnome_usage.Store.{Store, write, deref, assign, add_connection, connection_free}

abbrev pub Every : (Connection → Type 0) → Store → Type 0
Every Q s = (b : ℕ) (c : Connection) → s.cells b ≡ some c → Q c

-- A property that whatever the program does to a connection keeps, for packets of one kind.
pub record IsKept (ntop : InetNtop) (R : Packet → Type 0) (Q : Connection → Type 0) : Type 0 where
  pub made : (locals : List Text) (p : Packet) → R p → Q (connection_new ntop locals p).1
  pub grown :
      (locals : List Text) (c : Connection) (p : Packet)
      → R p
      → Q c
      → Q (connection_add_packet ntop locals c p).1
  pub keyed :
      (locals : List Text) (c : Connection)
      → Q c
      → Q (record c { refpacket = (packet_get_hashstring ntop locals c.refpacket).0 })
  pub summed : (t : Timeval) (c : Connection) → Q c → Q (connection_sum_packets c t).0

module _ (Q : Connection → Type 0) (s : Store) (every : Every Q s) where
  pub deref-Every : (a : ℕ) → Yields Q (deref s a)
  unfolding deref
  deref-Every a = elim (Option-cases (s.cells a)) [
    | inl e ↦ rw (e, Yields) tt
    | inr (c, e) ↦ rw (e, Yields) (every a c e)
  ]

  pub assign-Every : (a : ℕ) (c : Connection) → Q c → Every Q (assign s a c)
  unfolding assign write
  assign-Every a c q b d e = elim (Bool-cases (b == a)) [
    | inl same ↦ subst Q (cc (rw same at e)) q
    | inr other ↦ every b d (rw other at e)
  ]

  pub add_connection-Every : (c : Connection) → Q c → Every Q (add_connection s c).0
  unfolding add_connection write
  add_connection-Every c q b d e = elim (Bool-cases (b == s.next)) [
    | inl same ↦ subst Q (cc (rw same at e)) q
    | inr other ↦ every b d (rw other at e)
  ]

  pub connection_free-Every : (a : ℕ) → Yields (Every Q) (connection_free s a)
  unfolding connection_free deref write
  connection_free-Every a = elim (Option-cases (s.cells a)) [
    | inl e ↦ rw (e, Yields) tt
    | inr (c, e) ↦
        rw (e, Yields)
          (λ b d f. elim (Bool-cases (b == a)) [
            | inl same ↦ absurd (cc (rw same at f))
            | inr other ↦ every b d (rw other at f)
          ])
  ]
