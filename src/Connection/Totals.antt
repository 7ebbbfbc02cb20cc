-- ===== src/Connection/Totals.antt =====
-- The totals of a connection of na-connection.c, by the direction of its packets.
use gnome_usage.Base.{
  ℕ, ◌+◌, ◌%◌, ◌^◌, ◌≡◌, refl, ◌∙◌, ap, Bool, not, List, [], ◌∷◌, arith, if◌then◌else◌, inl, inr,
  Bool-cases,
}
use gnome_usage.Base.Text.{Text}
use gnome_usage.Packet.{Packet, InetNtop, packet_is_outgoing}
use gnome_usage.Connection.{Connection, connection_new, connection_add_packet}

module _ (ntop : InetNtop) (local_addresses : List Text) where
  -- The connection after the packets, each added in its turn.
  unfoldable pub add_all : Connection → List Packet → Connection
  add_all c [] = c
  add_all c (p ∷ ps) = add_all (connection_add_packet ntop local_addresses c p).1 ps

  abbrev pub is_outgoing : Packet → Bool
  is_outgoing p = (packet_is_outgoing ntop local_addresses p).1

  -- The bytes of the packets that pass a test.
  unfoldable pub bytes : (Packet → Bool) → List Packet → ℕ
  bytes test [] = 0
  bytes test (p ∷ ps) = (if test p then p.len else 0) + bytes test ps

  add_packet-totals :
      (c : Connection) (p : Packet)
      → ((connection_add_packet ntop local_addresses c p).1.total_sent % 2 ^ 32
          ≡ (c.total_sent + (if is_outgoing p then p.len else 0)) % 2 ^ 32)
        × ((connection_add_packet ntop local_addresses c p).1.total_received % 2 ^ 32
            ≡ (c.total_received + (if not (is_outgoing p) then p.len else 0)) % 2 ^ 32)
  unfolding connection_add_packet packet_is_outgoing
  add_packet-totals c p = elim (Bool-cases (is_outgoing p)) [
    | inl out ↦ rw out (omega arith, omega arith)
    | inr into ↦ rw into (omega arith, omega arith)
  ]

  add_all-totals :
      (c : Connection) (ps : List Packet)
      → ((add_all c ps).total_sent % 2 ^ 32 ≡ (c.total_sent + bytes is_outgoing ps) % 2 ^ 32)
        × ((add_all c ps).total_received % 2 ^ 32
            ≡ (c.total_received + bytes (λ p. not (is_outgoing p)) ps) % 2 ^ 32)
  unfolding add_all bytes
  add_all-totals c [] = (omega arith, omega arith)
  add_all-totals c (p ∷ ps) =
      let (sent, received) = add_all-totals (connection_add_packet ntop local_addresses c p).1 ps in
      let (sent_one, received_one) = add_packet-totals c p in (omega arith, omega arith)

  new-first :
      (p : Packet)
      → ((connection_new ntop local_addresses p).1.total_sent
          ≡ (if is_outgoing p then p.len else 0))
        × ((connection_new ntop local_addresses p).1.total_received
            ≡ (if not (is_outgoing p) then p.len else 0))
  unfolding connection_new packet_is_outgoing
  new-first p = elim (Bool-cases (is_outgoing p)) [
    | inl out ↦ rw out (refl, refl)
    | inr into ↦ rw into (refl, refl)
  ]

  -- The totals of a connection that is made from a packet, and gets other packets after it, are the
  -- bytes of its outgoing packets and those of its other packets, the first packet included, modulo
  -- 2 ^ 32: every packet is counted once, in one direction.
  pub new-totals :
      (p : Packet) (ps : List Packet)
      → let c = add_all (connection_new ntop local_addresses p).1 ps in
        (c.total_sent % 2 ^ 32 ≡ bytes is_outgoing (p ∷ ps) % 2 ^ 32)
        × (c.total_received % 2 ^ 32 ≡ bytes (λ q. not (is_outgoing q)) (p ∷ ps) % 2 ^ 32)
  unfolding bytes
  new-totals p ps =
      let (sent, received) = add_all-totals (connection_new ntop local_addresses p).1 ps in
      let (sent_first, received_first) = new-first p in
      (
        sent ∙ ap (λ n. (n + bytes is_outgoing ps) % 2 ^ 32) sent_first,
        received ∙ ap (λ n. (n + bytes (λ q. not (is_outgoing q)) ps) % 2 ^ 32) received_first,
      )
