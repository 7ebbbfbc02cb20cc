-- ===== src/Packet.antt =====
-- network-analyzer/na-packet.h and na-packet.c. A function that writes through its packet pointer
-- returns the new packet. `inet_ntop` is the C library's, and a parameter.
pub mod Key
pub mod Direction
pub mod Flow
use gnome_usage.Base.{
  ℕ, Bool, true, false, Option, none, some, List, ◌∷◌, ◌++◌, ◌&&◌, ◌==◌, if◌then◌else◌,
}
use gnome_usage.Base.Text.{Text}
use gnome_usage.Base.Decimal.{print_int}
use gnome_usage.LocalAddresses.{is_local_address}

pub data PacketDirection : Type 0 where
  unknown incoming outgoing : PacketDirection

-- `AF_INET` and `AF_INET6`; no other family reaches a packet.
pub data SaFamily : Type 0 where
  inet inet6 : SaFamily

-- `struct in6_addr` by its `s6_addr32`.
pub record In6Addr : Type 0 where
  pub w0 : ℕ
  pub w1 : ℕ
  pub w2 : ℕ
  pub w3 : ℕ

abbrev pub in6addr_zero : In6Addr
in6addr_zero = record { w0 = 0; w1 = 0; w2 = 0; w3 = 0 }

-- Seconds since the epoch are not negative.
pub record Timeval : Type 0 where
  pub tv_sec : ℕ
  pub tv_usec : ℕ

pub record Packet : Type 0 where
  pub s_ip6 : In6Addr
  pub d_ip6 : In6Addr
  pub s_ip : ℕ
  pub d_ip : ℕ
  pub s_port : ℕ
  pub d_port : ℕ
  pub len : ℕ
  pub time : Timeval
  pub dir : PacketDirection
  pub sa_family : SaFamily
  pub hashstring : Option Text

-- `inet_ntop` at the two families.
pub record InetNtop : Type 0 where
  pub ntop4 : ℕ → Text
  pub ntop6 : In6Addr → Text

-- The copy owns a copy of the cached string.
unfoldable pub packet_copy : Packet → Packet
packet_copy packet = record packet { hashstring = packet.hashstring }

unfoldable pub packet_match : Packet → Packet → Bool
packet_match packet other =
    packet.s_port == other.s_port
    && packet.d_port == other.d_port
    && packet.s_ip == other.s_ip
    && packet.d_ip == other.d_ip

unfoldable pub packet_new_from_ip4 :
    (s_ip s_port d_ip d_port len : ℕ) (time : Timeval) (dir : PacketDirection) → Packet
packet_new_from_ip4 s_ip s_port d_ip d_port len time dir = record {
  s_ip6 = in6addr_zero;
  d_ip6 = in6addr_zero;
  s_ip = s_ip;
  d_ip = d_ip;
  s_port = s_port;
  d_port = d_port;
  len = len;
  time = time;
  dir = dir;
  sa_family = inet;
  hashstring = none;
}

unfoldable pub packet_new_from_ip6 :
    (s_ip : In6Addr) (s_port : ℕ) (d_ip : In6Addr) (d_port len : ℕ) (time : Timeval)
    (dir : PacketDirection)
    → Packet
packet_new_from_ip6 s_ip s_port d_ip d_port len time dir = record {
  s_ip6 = s_ip;
  d_ip6 = d_ip;
  s_ip = 0;
  d_ip = 0;
  s_port = s_port;
  d_port = d_port;
  len = len;
  time = time;
  dir = dir;
  sa_family = inet6;
  hashstring = none;
}

inverted : SaFamily → Packet → Packet
unfolding packet_new_from_ip4 packet_new_from_ip6
inverted inet p = packet_new_from_ip4 p.d_ip p.d_port p.s_ip p.s_port p.len p.time unknown
inverted inet6 p = packet_new_from_ip6 p.d_ip6 p.d_port p.s_ip6 p.s_port p.len p.time unknown

unfoldable pub packet_new_inverted : Packet → Packet
unfolding inverted
packet_new_inverted packet = inverted packet.sa_family packet

-- `"%s:%d-%s:%d"`
unfoldable pub hash_key : Text → ℕ → Text → ℕ → Text
hash_key s s_port d d_port =
    (s ++ b':' ∷ print_int s_port) ++ (b'-' ∷ (d ++ b':' ∷ print_int d_port))

module _ (ntop : InetNtop) where
  -- `inet_ntop` of the source and of the destination.
  unfoldable pub source_string : Packet → Text
  source_string p = elim p.sa_family [ inet ↦ ntop.ntop4 p.s_ip | inet6 ↦ ntop.ntop6 p.s_ip6 ]

  unfoldable pub destination_string : Packet → Text
  destination_string p = elim p.sa_family [ inet ↦ ntop.ntop4 p.d_ip | inet6 ↦ ntop.ntop6 p.d_ip6 ]

  module _ (local_addresses : List Text) where
    -- The direction that is settled when it is first asked for.
    settle : PacketDirection → Packet → PacketDirection
    unfolding source_string
    settle unknown p =
        if is_local_address local_addresses (source_string p) then outgoing else incoming
    settle incoming p = incoming
    settle outgoing p = outgoing

    unfoldable pub packet_is_outgoing : Packet → Packet × Bool
    unfolding settle
    packet_is_outgoing packet =
        let dir = settle packet.dir packet in
        (record packet { dir = dir }, elim dir [ outgoing ↦ true | _ ↦ false ])

    key_by : Bool → Packet → Text
    unfolding source_string destination_string
    key_by true p = hash_key (source_string p) p.s_port (destination_string p) p.d_port
    key_by false p = hash_key (destination_string p) p.d_port (source_string p) p.s_port

    unfoldable pub packet_get_hashstring : Packet → Packet × Text
    unfolding packet_is_outgoing key_by
    packet_get_hashstring packet = elim packet.hashstring [
      | some key ↦ (packet, key)
      | none ↦
          let (p, out) = packet_is_outgoing packet in
          let key = key_by out packet in (record p { hashstring = some key }, key)
    ]
