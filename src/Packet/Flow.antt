-- ===== src/Packet/Flow.antt =====
-- Which packets na-packet.c takes for packets of one flow.
use gnome_usage.Base.{ℕ, ◌≡◌, refl, Bool, true, ◌&&◌, ◌||◌, ◌==◌, arith}
use gnome_usage.Base.{List}
use gnome_usage.Base.Text.{Text}
use gnome_usage.Packet.{
  Packet, PacketDirection, In6Addr, Timeval, packet_match, packet_new_from_ip6, packet_new_inverted,
  InetNtop, packet_get_hashstring, packet_is_outgoing,
}
use gnome_usage.Packet.Direction.{IsMade}

-- The four fields that `na_packet_match` compares.
pub record Ends : Type 0 where
  pub s_ip : ℕ
  pub s_port : ℕ
  pub d_ip : ℕ
  pub d_port : ℕ

abbrev pub ends : Packet → Ends
ends p = record { s_ip = p.s_ip; s_port = p.s_port; d_ip = p.d_ip; d_port = p.d_port }

abbrev pub turned : Ends → Ends
turned e = record { s_ip = e.d_ip; s_port = e.d_port; d_ip = e.s_ip; d_port = e.s_port }

abbrev pub same_ends : Ends → Ends → Bool
same_ends e f = e.s_port == f.s_port && e.d_port == f.d_port && e.s_ip == f.s_ip && e.d_ip == f.d_ip

-- One flow has two directions.
abbrev pub same_flow : Ends → Ends → Bool
same_flow e f = same_ends e f || same_ends (turned e) f

pub same_flow_sym : (e f : Ends) → same_flow e f ≡ same_flow f e
same_flow_sym e f = ground arith

pub same_flow_both : (e : Ends) → (same_flow e e ≡ true) × (same_flow e (turned e) ≡ true)
same_flow_both e = (ground arith, ground arith)

pub same_flow-turned : (e f : Ends) → same_flow (turned e) f ≡ same_flow e f
same_flow-turned e f = ground arith

pub same_flow_trans :
    (e f g : Ends) → same_flow e f ≡ true → same_flow f g ≡ true → same_flow e g ≡ true
same_flow_trans e f g h k = ground arith

pub ends-inverted : (p : Packet) → IsMade p → ends (packet_new_inverted p) ≡ turned (ends p)
unfolding packet_new_inverted
ends-inverted p m = ground arith

-- What a packet keeps to itself does not concern its ends.
pub ends-get_hashstring :
    (ntop : InetNtop) (locals : List Text) (p : Packet)
    → ends (packet_get_hashstring ntop locals p).0 ≡ ends p
unfolding packet_get_hashstring
ends-get_hashstring ntop locals p = ground arith

-- Its direction and its key are all that it keeps.
pub get_hashstring-rest :
    (ntop : InetNtop) (locals : List Text) (p : Packet)
    → let q = (packet_get_hashstring ntop locals p).0 in
      q ≡ record p { dir = q.dir; hashstring = q.hashstring }
unfolding packet_get_hashstring
get_hashstring-rest ntop locals p = ground arith

pub ends-is_outgoing :
    (ntop : InetNtop) (locals : List Text) (p : Packet)
    → ends (packet_is_outgoing ntop locals p).0 ≡ ends p
unfolding packet_is_outgoing
ends-is_outgoing ntop locals p = refl

-- A packet or its inversion matches another exactly if the two are of one flow.
pub match-same_flow :
    (p q : Packet)
    → IsMade p
    → (packet_match p q || packet_match (packet_new_inverted p) q) ≡ same_flow (ends p) (ends q)
unfolding packet_match packet_new_inverted
match-same_flow p q m = ground arith

-- Two IPv6 packets with the same ports match, whatever their addresses are.
pub match-from_ip6 :
    (s d s' d' : In6Addr) (s_port d_port len len' : ℕ) (time time' : Timeval)
    (dir dir' : PacketDirection)
    → packet_match
        (packet_new_from_ip6 s s_port d d_port len time dir)
        (packet_new_from_ip6 s' s_port d' d_port len' time' dir')
      ≡ true
unfolding packet_match packet_new_from_ip6
match-from_ip6 s d s' d' s_port d_port len len' time time' dir dir' = ground arith
