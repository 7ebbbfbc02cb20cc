-- ===== src/Application/Network.antt =====
-- `get_devices` of network-analyzer/na-application.c: from the devices of NetworkManager, which are an
-- argument, to the local addresses and the capture handles.
use gnome_usage.Base.{ℕ, Bool, Option, none, some, List, [], ◌∷◌, ◌++◌, if◌then◌else◌, inl, inr}
use gnome_usage.Base.Text.{Text}
use gnome_usage.LocalAddresses.{add_local_address}
use gnome_usage.Packet.{In6Addr, InetNtop}
use gnome_usage.Pcap.{PcapHandle, PcapLib, pcap_open}

-- What NetworkManager says of a device.
pub record Device : Type 0 where
  pub is_activated : Bool
  pub iface : Text
  pub ip4_addresses : Option (List ℕ)
  pub ip6_addresses : Option (List In6Addr)

-- The loop over the addresses of a configuration.
unfoldable pub add_addresses : {A : Type 0} → (A → Text) → List A → List Text → List Text
add_addresses show [] local_addresses = local_addresses
add_addresses show (a ∷ rest) local_addresses =
    add_addresses show rest (add_local_address (show a) local_addresses)

-- What `get_devices` has gathered: the local addresses and the handles.
pub record Gathered : Type 0 where
  pub local_addresses : List Text
  pub iface_handles : List PcapHandle

module _ (ntop : InetNtop) (lib : PcapLib) where
  -- The body of the loop over the devices.
  unfoldable pub add_device : Gathered → Device → Gathered
  add_device g device =
      let with_ip4 : List Text = elim device.ip4_addresses [
        | none ↦ g.local_addresses
        | some addresses ↦ add_addresses ntop.ntop4 addresses g.local_addresses
      ] in
      let with_ip6 : List Text = elim device.ip6_addresses [
        | none ↦ with_ip4
        | some addresses ↦ add_addresses ntop.ntop6 addresses with_ip4
      ] in
      let handles : List PcapHandle = elim (pcap_open lib device.iface) [
        | inl handle ↦ g.iface_handles ++ handle ∷ []
        | inr error ↦ g.iface_handles
      ] in
      if device.is_activated
      then record { local_addresses = with_ip6; iface_handles = handles }
      else g

  unfoldable pub get_devices : Gathered → List Device → Gathered
  get_devices g [] = g
  get_devices g (device ∷ rest) = get_devices (add_device g device) rest
