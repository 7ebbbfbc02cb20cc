-- ===== src/Pcap.antt =====
-- network-analyzer/na-pcap.h and na-pcap.c: capture handles, and what a captured packet does to the
-- state. libpcap is a parameter: what it answers, and the packets that it delivers.
pub mod Push
pub mod Counted
pub mod Account
pub mod Flows
pub mod First
pub mod Joined
pub mod Every
pub mod History
pub mod Captured
use gnome_usage.Base.{
  ℕ, Bool, Option, none, some, List, [], ◌∷◌, ◌==◌, if◌then◌else◌, ◌⊎◌, inl, inr,
}
use gnome_usage.Base.Text.{Text}
use gnome_usage.Outcome.{Outcome, ok, fault, aborted, ◌>>=◌}
use gnome_usage.Packet.{Packet, unknown, packet_new_from_ip4, packet_new_from_ip6}
use gnome_usage.Connection.{connection_new, connection_add_packet}
use gnome_usage.Store.{deref, assign, add_connection, connection_find_from_packet}
use gnome_usage.Process.{World, State}
use gnome_usage.Attribution.{process_find_from_connection}
use gnome_usage.Frame.{IpAddress, ip4, ip6, PktHdr, Memory, pcap_dispatch_cb}

pub record PcapHandle : Type 0 where
  pub linktype : ℕ
  pub iface : Text

-- The two failures of `na_pcap_open`, both reported as NA_PCAP_ERROR_OPEN.
pub data OpenError : Type 0 where
  create_failed activate_failed : OpenError

-- What libpcap answers for an interface: whether `pcap_create` succeeds, `pcap_activate` (0 for
-- success), `pcap_datalink`.
pub record PcapLib : Type 0 where
  pub pcap_create : Text → Bool
  pub pcap_activate : Text → ℕ
  pub pcap_datalink : Text → ℕ

unfoldable pub pcap_open : PcapLib → Text → PcapHandle ⊎ OpenError
pcap_open lib iface =
    if lib.pcap_create iface
    then if lib.pcap_activate iface == 0
      then inl (record { linktype = lib.pcap_datalink iface; iface = iface })
      else inr activate_failed
    else inr create_failed

unfoldable pub pcap_handle_get_iface : PcapHandle → Text
pcap_handle_get_iface handle = handle.iface

-- The switch on the family in `push_packet`.
unfoldable pub make_packet : PktHdr → IpAddress → ℕ → ℕ → Packet
make_packet header (ip4 src dst) s_port d_port =
    packet_new_from_ip4 src s_port dst d_port header.len header.ts unknown
make_packet header (ip6 src dst) s_port d_port =
    packet_new_from_ip6 src s_port dst d_port header.len header.ts unknown

module _ (world : World) where
  -- `push_packet` behind the construction of the packet.
  unfoldable pub account : State → Packet → Outcome State
  account state na_packet = do
    found ← connection_find_from_packet state.store na_packet
    elim found [
      | some a ↦ (do
        connection ← deref state.store a
        let (packet', connection') =
            connection_add_packet world.ntop state.local_addresses connection na_packet
        ok (record state { store = assign state.store a connection' }))
      | none ↦
          let (packet', connection) = connection_new world.ntop state.local_addresses na_packet in
          let (store, a) = add_connection state.store connection in
          (do
            (state', place) ← process_find_from_connection world (record state { store = store }) a
            ok state')
    ]

  unfoldable pub push_packet : State → PktHdr → IpAddress → ℕ → ℕ → Outcome State
  push_packet state header address s_port d_port =
      account state (make_packet header address s_port d_port)

  -- `na_pcap_dispatch`: the callback for each packet that libpcap delivers.
  unfoldable pub pcap_dispatch : PcapHandle → State → List (PktHdr × Memory) → Outcome State
  pcap_dispatch handle state [] = ok state
  pcap_dispatch handle state ((header, packet) ∷ rest) = do
    state' ← pcap_dispatch_cb (push_packet state) (ok state) handle.linktype header packet
    pcap_dispatch handle state' rest
