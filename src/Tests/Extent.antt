-- ===== src/Tests/Extent.antt =====
-- The theorems about searches, devices and IPv6 at concrete inputs.
use gnome_usage.Base.{
  inr, ℕ, ◌≡◌, refl, true, false, ◌||◌, Option, none, some, List, [], ◌∷◌, ◌++◌, arith,
}
use gnome_usage.Base.Text.{text}
use gnome_usage.LocalAddresses.{is_local_address}
use gnome_usage.Outcome.{Returns}
use gnome_usage.Packet.{In6Addr, unknown, packet_match, packet_new_from_ip6, packet_new_inverted}
use gnome_usage.Packet.Flow.{match-from_ip6}
use gnome_usage.Store.{connection_find_from_packet}
use gnome_usage.Store.Flows.{Answers, belongs, find_from_packet-Answers}
use gnome_usage.Frame.{PktHdr, IpAddress, ip6, pcap_dispatch_cb}
use gnome_usage.Frame.Bytes6.{linux_cooked6, frame6, dispatch-frame6}
use gnome_usage.Pcap.{PcapLib}
use gnome_usage.Application.Network.{Device, Gathered, get_devices}
use gnome_usage.Application.Devices.{is_address, handles, get_devices_lem}
use gnome_usage.Tests.Samples.{ntop, here, at_second, packet_at, store, state-Owns}

find_from_packet-Answers_example :
    Returns
      (Answers store (belongs (packet_new_inverted (packet_at 101 40))) store.connections)
      (connection_find_from_packet store (packet_new_inverted (packet_at 101 40)))
find_from_packet-Answers_example =
    find_from_packet-Answers state-Owns.store (packet_new_inverted (packet_at 101 40))

-- fe80::1 and fe80::2, as `s6_addr32` holds them.
abbrev local6 : In6Addr
local6 = record { w0 = 0x80FE; w1 = 0; w2 = 0; w3 = 0x01000000 }

abbrev remote6 : In6Addr
remote6 = record { w0 = 0x80FE; w1 = 0; w2 = 0; w3 = 0x02000000 }

match-from_ip6_example :
    packet_match
      (packet_new_from_ip6 local6 8080 remote6 80 60 (at_second 100) unknown)
      (packet_new_from_ip6 remote6 8080 local6 80 40 (at_second 101) unknown)
    ≡ true
match-from_ip6_example =
    match-from_ip6 local6 remote6 remote6 local6 8080 80 60 40 (at_second 100) (at_second 101)
      unknown unknown

abbrev header : PktHdr
header = record { ts = at_second 101; caplen = 74; len = 74 }

abbrev shown : PktHdr → IpAddress → ℕ → ℕ → Option (IpAddress × ℕ × ℕ)
shown h a s d = some (a, s, d)

dispatch-frame6_example :
    pcap_dispatch_cb shown none 113 header
      (frame6 linux_cooked6 17 local6 remote6 5353 53 (λ i. 1) (λ i. 2) (λ i. 3))
    ≡ some (ip6 local6 remote6, 5353, 53)
dispatch-frame6_example =
    dispatch-frame6 shown none linux_cooked6 17 local6 remote6 5353 53 header (λ i. 1) (λ i. 2)
      (λ i. 3) (inr refl) (omega arith) (omega arith) (omega arith) (omega arith)

-- A wireless device with one address, and an Ethernet device that is down.
abbrev devices : List Device
devices =
    record {
      is_activated = true;
      iface = text "wlan0";
      ip4_addresses = some (here ∷ []);
      ip6_addresses = none;
    }
    ∷ record {
      is_activated = false;
      iface = text "eth0";
      ip4_addresses = none;
      ip6_addresses = none;
    }
    ∷ []

abbrev lib : PcapLib
lib = record { pcap_create = λ i. true; pcap_activate = λ i. 0; pcap_datalink = λ i. 1 }

abbrev nothing : Gathered
nothing = record { local_addresses = []; iface_handles = [] }

get_devices_lem_example :
    (is_local_address (get_devices ntop lib nothing devices).local_addresses (text "10.0.0.1")
      ≡ (is_address ntop lib devices (text "10.0.0.1") || is_local_address [] (text "10.0.0.1")))
    × ((get_devices ntop lib nothing devices).iface_handles ≡ [] ++ handles ntop lib devices)
get_devices_lem_example = get_devices_lem ntop lib nothing devices (text "10.0.0.1")
