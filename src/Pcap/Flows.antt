-- ===== src/Pcap/Flows.antt =====
-- The list of connections has one for each flow at most, through packets and reports.
use gnome_usage.Base.{
  ℕ, ◌≡◌, refl, sym, ap, ◌∙◌, false, ◌==◌, none, some, List, [], ◌∷◌, arith, inl, inr, Bool-cases,
  ◌⊎◌,
}
use gnome_usage.Outcome.{ok, Returns, Returns-bind, Returns-mono, Returns-both}
use gnome_usage.Packet.{Timeval, packet_new_from_ip4, packet_new_from_ip6}
use gnome_usage.Packet.Direction.{IsMade}
use gnome_usage.Packet.{Packet}
use gnome_usage.Packet.Flow.{Ends, ends, same_flow, same_flow_trans}
use gnome_usage.Store.{Store}
use gnome_usage.Store.Single.{
  ends_at, ends_of, IsUnknown, IsSingle, IsNoNewer, IsSingle-mono, new-IsSingle,
}
use gnome_usage.Process.{State, World, process_info_get_all, info_loop}
use gnome_usage.Process.Ownership.{Owns, info_loop-Reported}
use gnome_usage.Attribution.Keeps.{IsReadable}
use gnome_usage.Frame.{PktHdr, IpAddress, ip4, ip6, Memory}
use gnome_usage.Frame.Cases.{dispatch-cases}
use gnome_usage.Pcap.{PcapHandle, make_packet, account, push_packet, pcap_dispatch}
use gnome_usage.Pcap.Push.{account-Keeps}
use gnome_usage.Pcap.Counted.{Counted}
use gnome_usage.Pcap.Account.{account-Counted}

pub make_packet-IsMade :
    (header : PktHdr) (address : IpAddress) (s_port d_port : ℕ)
    → IsMade (make_packet header address s_port d_port)
unfolding make_packet packet_new_from_ip4 packet_new_from_ip6
make_packet-IsMade header (ip4 src dst) s_port d_port = (refl, refl)
make_packet-IsMade header (ip6 src dst) s_port d_port = (refl, refl)

pub Counted-IsSingle : (s s' : Store) (p : Packet) → Counted s p s' → IsSingle s → IsSingle s'
Counted-IsSingle s s' p k h = from k.known
  where
    now : ends_at s' k.place ≡ some (ends k.after.refpacket)
    now = ap ends_of k.here

    older : ends_at s k.place ≡ some (ends k.after.refpacket) → IsNoNewer s s'
    older before b e q = elim (Bool-cases (b == k.place)) [
      | inl same ↦
          let at : b ≡ k.place = ground arith in
          ap (ends_at s) at ∙ before ∙ sym now ∙ sym (ap (ends_at s') at) ∙ q
      | inr other ↦ sym (ap ends_of (k.others b other)) ∙ q
    ]

    apart :
        ((b : ℕ) (f : Ends) → ends_at s b ≡ some f → same_flow (ends p) f ≡ false)
        → (b : ℕ) (f : Ends) → ends_at s b ≡ some f
        → same_flow (ends k.after.refpacket) f ≡ false
    apart new b f q = elim (Bool-cases (same_flow (ends k.after.refpacket) f)) [
      | inl same ↦
          absurd (cc (new b f q, same_flow_trans (ends p) (ends k.after.refpacket) f k.ours same))
      | inr other ↦ other
    ]

    from :
        (ends_at s k.place ≡ some (ends k.after.refpacket))
          ⊎ ((s.cells k.place ≡ none) × IsUnknown s (ends p))
        → IsSingle s'
    from (inl before) = IsSingle-mono s s' h (older before)
    from (inr (empty, new)) =
        new-IsSingle s s' k.place (ends k.after.refpacket) now k.others (apart new) h

-- What holds of the connections between two events.
pub record IsSound (s : State) : Type 0 where
  pub owns : Owns s.store s.processes
  pub single : IsSingle s.store

module _ (world : World) (readable : IsReadable world) where
  push_packet-IsSound :
      (s : State)
      → IsSound s
      → (header : PktHdr) (address : IpAddress) (s_port d_port : ℕ)
      → Returns IsSound (push_packet world s header address s_port d_port)
  unfolding push_packet
  push_packet-IsSound s h header address s_port d_port =
      let p = make_packet header address s_port d_port in
      Returns-mono _ IsSound (account world s p)
        (Returns-both _ _ (account world s p) (account-Keeps world readable s p h.owns) (
          account-Counted world readable s p h.owns
            (make_packet-IsMade header address s_port d_port)))
        λ s' (kept, counted). record {
          owns = kept.0;
          single = Counted-IsSingle s.store s'.store p counted h.single;
        }

  -- Packets that arrive on a handle leave a sound state.
  pub pcap_dispatch-IsSound :
      (handle : PcapHandle) (s : State) (packets : List (PktHdr × Memory))
      → IsSound s
      → Returns IsSound (pcap_dispatch world handle s packets)
  unfolding pcap_dispatch
  pcap_dispatch-IsSound handle s [] h = h
  pcap_dispatch-IsSound handle s ((header, packet) ∷ rest) h =
      Returns-bind IsSound IsSound _ _
        (dispatch-cases (push_packet world s) (ok s) (Returns IsSound) header
          (push_packet-IsSound s h header) h handle.linktype packet)
        λ s' h'. pcap_dispatch-IsSound handle s' rest h'

-- A report leaves a sound state.
pub info_get_all-IsSound :
    (world : World) (t : Timeval) (s : State)
    → IsSound s
    → Returns (λ (s', infos). IsSound s') (process_info_get_all world t s)
unfolding process_info_get_all
info_get_all-IsSound world t s h =
    Returns-bind _ (λ (s', infos). IsSound s') (info_loop t s.store s.processes) _
      (info_loop-Reported t s.store s.processes h.owns)
      λ (store, ps, infos) r. record {
        owns = r.owns;
        single = IsSingle-mono s.store store h.single r.older;
      }
