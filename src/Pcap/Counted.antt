-- ===== src/Pcap/Counted.antt =====
-- What it means that na-pcap.c has counted a packet, for a connection that is new and for an old one.
use gnome_usage.Base.{
  ℕ, ◌+◌, ◌%◌, ◌^◌, ◌≡◌, refl, sym, ap, ◌∙◌, subst, true, false, Option, none, some, List, ◌==◌,
  arith, ◌⊎◌, inl, inr, ==_refl, Bool-cases, Option-cases,
}
use gnome_usage.Base.Text.{Text}
use gnome_usage.Packet.{Packet, PacketDirection, InetNtop, packet_is_outgoing, packet_copy}
use gnome_usage.Packet.Direction.{IsMade}
use gnome_usage.Packet.Flow.{ends, same_flow, same_flow_both, ends-inverted, match-same_flow}
use gnome_usage.Connection.Packets.{PacketList, packet_list_new, packet_list_add_packet}
use gnome_usage.Connection.{Connection, connection_new, connection_add_packet}
use gnome_usage.Store.{Store, assign, write, add_connection}
use gnome_usage.Store.WellFormed.{IsStore, next-none}
use gnome_usage.Store.Flows.{IsMissed, belongs}
use gnome_usage.Store.Single.{ends_at, ends_of, IsUnknown}
use gnome_usage.Attribution.Keeps.{Keyed}

-- All bytes that a connection has counted, both ways.
abbrev pub counted : Option Connection → ℕ
counted none = 0
counted (some c) = c.total_sent + c.total_received

abbrev pub sent_list : Option Connection → PacketList
sent_list none = packet_list_new
sent_list (some c) = c.sent_packets

abbrev pub recv_list : Option Connection → PacketList
recv_list none = packet_list_new
recv_list (some c) = c.recv_packets

-- The packet, with its direction settled, is added to the packets of one direction, and its time is
-- kept.
abbrev pub Content : Option Connection → Packet → Connection → Type 0
Content before p after =
    (d : PacketDirection) × (after.last_packet_time ≡ p.time.tv_sec % 2 ^ 32)
    × (((after.sent_packets ≡ packet_list_add_packet (sent_list before) (record p { dir = d }))
          × (after.recv_packets ≡ recv_list before))
        ⊎ ((after.sent_packets ≡ sent_list before)
            × (after.recv_packets
                ≡ packet_list_add_packet (recv_list before) (record p { dir = d }))))

-- The packet is counted in one connection, which is of its flow and was there before, or is new
-- where none of the flow was; all others are as they were.
pub record Counted (s : Store) (p : Packet) (s' : Store) : Type 0 where
  pub place : ℕ
  pub after : Connection
  pub here : s'.cells place ≡ some after
  pub ours : same_flow (ends p) (ends after.refpacket) ≡ true
  pub grown : counted (some after) % 2 ^ 32 ≡ (counted (s.cells place) + p.len) % 2 ^ 32
  pub content : Content (s.cells place) p after
  pub others : (b : ℕ) → (b == place) ≡ false → s'.cells b ≡ s.cells b
  pub known :
      (ends_at s place ≡ some (ends after.refpacket))
      ⊎ ((s.cells place ≡ none) × IsUnknown s (ends p))

module _ (ntop : InetNtop) (locals : List Text) where
  pub add_packet-counted :
      (c : Connection) (p : Packet)
      → (counted (some (connection_add_packet ntop locals c p).1) % 2 ^ 32
          ≡ (counted (some c) + p.len) % 2 ^ 32)
        × ((connection_add_packet ntop locals c p).1.refpacket ≡ c.refpacket)
  unfolding connection_add_packet packet_is_outgoing
  add_packet-counted c p = elim (Bool-cases (packet_is_outgoing ntop locals p).1) [
    | inl out ↦ rw out (omega arith, refl)
    | inr into ↦ rw into (omega arith, refl)
  ]

  pub add_packet-Content :
      (c : Connection) (p : Packet) → Content (some c) p (connection_add_packet ntop locals c p).1
  unfolding connection_add_packet packet_is_outgoing
  add_packet-Content c p = elim (Bool-cases (packet_is_outgoing ntop locals p).1) [
    | inl out ↦ rw out ((packet_is_outgoing ntop locals p).0.dir, refl, inl (refl, refl))
    | inr into ↦ rw into ((packet_is_outgoing ntop locals p).0.dir, refl, inr (refl, refl))
  ]

  new-Content : (p : Packet) → Content none p (connection_new ntop locals p).1
  unfolding connection_new packet_is_outgoing
  new-Content p = elim (Bool-cases (packet_is_outgoing ntop locals p).1) [
    | inl out ↦ rw out ((packet_is_outgoing ntop locals p).0.dir, refl, inl (refl, refl))
    | inr into ↦ rw into ((packet_is_outgoing ntop locals p).0.dir, refl, inr (refl, refl))
  ]

  pub new-counted :
      (p : Packet)
      → IsMade p
      → (counted (some (connection_new ntop locals p).1) ≡ p.len)
        × (same_flow (ends p) (ends (connection_new ntop locals p).1.refpacket) ≡ true)
  unfolding connection_new packet_is_outgoing packet_copy
  new-counted p m = elim (Bool-cases (packet_is_outgoing ntop locals p).1) [
    | inl out ↦ rw out (omega arith, (same_flow_both (ends p)).0)
    | inr into ↦
        rw into
          (omega arith, ap (same_flow (ends p)) (ends-inverted _ m) ∙ (same_flow_both (ends p)).1)
  ]

missed-IsUnknown :
    (s : Store) (p : Packet)
    → IsStore s
    → IsMade p
    → IsMissed s (belongs p) s.connections
    → IsUnknown s (ends p)
missed-IsUnknown s p w m missed b f q = elim (Option-cases (s.cells b)) [
  | inl e ↦ absurd (cc (sym (ap ends_of e) ∙ q))
  | inr (d, e) ↦
      let same : ends d.refpacket ≡ f = cc (sym (ap ends_of e) ∙ q) in
      ap (same_flow (ends p)) (sym same)
      ∙ sym (match-same_flow p d.refpacket m)
      ∙ missed b d (ground (arith, w.listed b, e)) e
]

-- A connection that is put in memory, and then keeps its key, counts its first packet.
pub anew-Counted :
    (ntop : InetNtop) (locals : List Text) (s s' : Store) (p : Packet)
    → IsStore s
    → IsMade p
    → IsMissed s (belongs p) s.connections
    → let c = (connection_new ntop locals p).1 in
      Keyed (add_connection s c).0 s' (add_connection s c).1 → Counted s p s'
unfolding add_connection assign write
anew-Counted ntop locals s s' p w m missed k =
    let c = (connection_new ntop locals p).1 in
    let (bytes, flow) = new-counted ntop locals p m in
    let same : c ≡ k.before = cc (rw (==_refl s.next) at k.here) in
    record {
      place = s.next;
      after = record (k.before) { refpacket = k.reference };
      here = ap (λ (t : Store). t.cells s.next) k.keyed ∙ ground arith;
      ours =
          ap (same_flow (ends p))
            (ap ends k.rest_kept ∙ ap (λ (d : Connection). ends d.refpacket) (sym same))
          ∙ flow;
      grown =
          ap (λ (d : Connection). (d.total_sent + d.total_received) % 2 ^ 32) (sym same)
          ∙ rw (bytes, next-none w) (omega arith);
      content =
          subst
            (λ (d : Connection). Content (s.cells s.next) p (record d { refpacket = k.reference }))
            same (subst (λ old. Content old p c) (sym (next-none w)) (new-Content ntop locals p));
      others = λ b h. ap (λ (t : Store). t.cells b) k.keyed ∙ ground arith;
      known = inr (next-none w, missed-IsUnknown s p w m missed);
    }
