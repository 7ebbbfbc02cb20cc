-- ===== src/Application/Devices.antt =====
-- What na-application.c makes of NetworkManager's devices: the capture handles and the local
-- addresses.
use gnome_usage.Base.{
  ◌≡◌, refl, sym, ◌∙◌, Bool, false, ◌&&◌, ◌||◌, Option, none, some, List, [], ◌∷◌, ◌++◌, arith,
  if◌then◌else◌, ◌⊎◌, inl, inr, Bool-cases,
}
use mathlib.Core.List.{append-nil, append_assoc}
use gnome_usage.Base.Text.{Text, text_beq}
use gnome_usage.LocalAddresses.{is_local_address, add_local_address}
use gnome_usage.Packet.{InetNtop}
use gnome_usage.Pcap.{PcapHandle, OpenError, PcapLib, pcap_open}
use gnome_usage.Application.Network.{Device, Gathered, add_addresses, add_device, get_devices}

-- Whether one of the addresses is shown as the text.
pub is_shown : {A : Type 0} → (A → Text) → List A → Text → Bool
is_shown show [] x = false
is_shown show (a ∷ rest) x = text_beq (show a) x || is_shown show rest x

abbrev pub is_shown_in : {A : Type 0} → (A → Text) → Option (List A) → Text → Bool
is_shown_in show none x = false
is_shown_in show (some addresses) x = is_shown show addresses x

local-add_addresses :
    {A : Type 0} (show : A → Text) (addresses : List A) (l : List Text) (x : Text)
    → is_local_address (add_addresses show addresses l) x
      ≡ (is_shown show addresses x || is_local_address l x)
unfolding add_addresses is_shown is_local_address add_local_address
local-add_addresses show [] l x = refl
local-add_addresses show (a ∷ rest) l x =
    ground (arith, local-add_addresses show rest (add_local_address (show a) l) x)

local-with_addresses :
    {A : Type 0} (show : A → Text) (o : Option (List A)) (l : List Text) (x : Text)
    → is_local_address (elim o [ none ↦ l | some addresses ↦ add_addresses show addresses l ]) x
      ≡ (is_shown_in show o x || is_local_address l x)
local-with_addresses show none l x = refl
local-with_addresses show (some addresses) l x = local-add_addresses show addresses l x

handles-opened :
    (r : PcapHandle ⊎ OpenError) (hs : List PcapHandle)
    → elim r [ inl handle ↦ hs ++ handle ∷ [] | inr error ↦ hs ]
      ≡ hs ++ elim r [ inl handle ↦ handle ∷ [] | inr error ↦ [] ]
handles-opened (inl handle) hs = refl
handles-opened (inr error) hs = sym (append-nil hs)

module _ (ntop : InetNtop) (lib : PcapLib) where
  -- An activated device that has the address.
  abbrev pub is_address_of : Device → Text → Bool
  is_address_of d x =
      d.is_activated
      && (is_shown_in ntop.ntop4 d.ip4_addresses x || is_shown_in ntop.ntop6 d.ip6_addresses x)

  pub is_address : List Device → Text → Bool
  is_address [] x = false
  is_address (d ∷ ds) x = is_address_of d x || is_address ds x

  -- The handle of an activated device that can be opened.
  abbrev pub handle_of : Device → List PcapHandle
  handle_of d =
      if d.is_activated
      then elim (pcap_open lib d.iface) [ inl handle ↦ handle ∷ [] | inr error ↦ [] ]
      else []

  pub handles : List Device → List PcapHandle
  handles [] = []
  handles (d ∷ ds) = handle_of d ++ handles ds

  local-add_device :
      (g : Gathered) (d : Device) (x : Text)
      → is_local_address (add_device ntop lib g d).local_addresses x
        ≡ (is_address_of d x || is_local_address g.local_addresses x)
  unfolding add_device
  local-add_device g d x = elim (Bool-cases d.is_activated) [
    | inl on ↦ rw on (
        local-with_addresses ntop.ntop6 d.ip6_addresses _ x
        ∙ ground (arith, local-with_addresses ntop.ntop4 d.ip4_addresses g.local_addresses x))
    | inr off ↦ rw off refl
  ]

  handles-add_device :
      (g : Gathered) (d : Device)
      → (add_device ntop lib g d).iface_handles ≡ g.iface_handles ++ handle_of d
  unfolding add_device
  handles-add_device g d = elim (Bool-cases d.is_activated) [
    | inl on ↦ rw on (handles-opened (pcap_open lib d.iface) g.iface_handles)
    | inr off ↦ rw off (sym (append-nil _))
  ]

  -- After a walk over the devices, an address is local exactly if it was before or is an address
  -- of an activated device, and there is one more handle for each activated device that can be
  -- opened, in their order, whatever addresses it has.
  pub get_devices_lem :
      (g : Gathered) (devices : List Device) (x : Text)
      → (is_local_address (get_devices ntop lib g devices).local_addresses x
          ≡ (is_address devices x || is_local_address g.local_addresses x))
        × ((get_devices ntop lib g devices).iface_handles ≡ g.iface_handles ++ handles devices)
  unfolding get_devices is_address handles
  get_devices_lem g [] x = (refl, sym (append-nil g.iface_handles))
  get_devices_lem g (d ∷ ds) x =
      let (local, all) = get_devices_lem (add_device ntop lib g d) ds x in
      (
        ground (arith, local, local-add_device g d x),
        rw (all, handles-add_device g d, append_assoc) refl,
      )
