-- ===== src/Packet/Direction.antt =====
-- The direction and the key of a packet of na-packet.c, and its inversion.
use gnome_usage.Base.{◌≡◌, none, List, arith, not, if◌then◌else◌}
use gnome_usage.Base.Text.{Text}
use gnome_usage.LocalAddresses.{is_local_address}
use gnome_usage.Packet.{
  unknown, inet, inet6, in6addr_zero, Packet, InetNtop, packet_match, packet_new_inverted,
  source_string, destination_string, packet_is_outgoing, packet_get_hashstring, hash_key,
}

-- The address fields of the other family are zero, as `g_new0` leaves them.
abbrev pub IsMade : Packet → Type 0
IsMade p = elim p.sa_family [
  | inet ↦ (p.s_ip6 ≡ in6addr_zero) × (p.d_ip6 ≡ in6addr_zero)
  | inet6 ↦ (p.s_ip ≡ 0) × (p.d_ip ≡ 0)
]

module _ (ntop : InetNtop) where
  -- Once asked, a packet keeps its direction: whatever addresses become local later, the answer and
  -- the packet stay as they are.
  pub is_outgoing_settled :
      (locals later : List Text) (p : Packet)
      → packet_is_outgoing ntop later (packet_is_outgoing ntop locals p).0
        ≡ packet_is_outgoing ntop locals p
  unfolding packet_is_outgoing
  is_outgoing_settled locals later p = ground arith

  -- Once asked, a packet keeps its key too, also when the local addresses change.
  pub get_hashstring_cached :
      (locals later : List Text) (p : Packet)
      → packet_get_hashstring ntop later (packet_get_hashstring ntop locals p).0
        ≡ packet_get_hashstring ntop locals p
  unfolding packet_get_hashstring
  get_hashstring_cached locals later p = ground arith

  -- A packet of unknown direction with no key yet, one of whose two addresses is local and the
  -- other is not, has the key of its inversion, which begins with the local end: the two directions
  -- of a flow meet in one entry of the table.
  pub get_hashstring-inverted :
      (locals : List Text) (p : Packet)
      → p.dir ≡ unknown
      → p.hashstring ≡ none
      → is_local_address locals (source_string ntop p)
        ≡ not (is_local_address locals (destination_string ntop p))
      → ((packet_get_hashstring ntop locals (packet_new_inverted p)).1
          ≡ (packet_get_hashstring ntop locals p).1)
        × ((packet_get_hashstring ntop locals p).1 ≡ (
            if is_local_address locals (source_string ntop p)
            then hash_key (source_string ntop p) p.s_port (destination_string ntop p) p.d_port
            else hash_key (destination_string ntop p) p.d_port (source_string ntop p) p.s_port))
  unfolding packet_get_hashstring packet_new_inverted
  get_hashstring-inverted locals p d k one = ground arith

-- On a packet whose addresses of the other family are zero, one inversion swaps the two ends and
-- keeps the size and the time; two give the packet back, but for its direction and its key, which
-- are asked for anew.
pub inverted-inverted :
    (p : Packet)
    → IsMade p
    → (packet_new_inverted (packet_new_inverted p) ≡ record p { dir = unknown; hashstring = none })
      × ((packet_new_inverted p).s_port ≡ p.d_port)
      × ((packet_new_inverted p).d_port ≡ p.s_port)
      × ((packet_new_inverted p).s_ip ≡ p.d_ip)
      × ((packet_new_inverted p).s_ip6 ≡ p.d_ip6)
      × ((packet_new_inverted p).len ≡ p.len)
      × ((packet_new_inverted p).time ≡ p.time)
unfolding packet_new_inverted
inverted-inverted p m = ground arith

-- Of two packets whose addresses of the other family are zero, the one matches the other exactly when
-- its inversion matches the other's inversion.
pub match-inverted :
    (p q : Packet)
    → IsMade p
    → IsMade q
    → packet_match (packet_new_inverted p) (packet_new_inverted q) ≡ packet_match p q
unfolding packet_new_inverted packet_match
match-inverted p q m n = ground arith
