-- ===== src/Pcap/Every.antt =====
-- Properties of every connection in memory, through the packets of na-pcap.c.
use gnome_usage.Base.{ℕ, ◌^◌, ◌<◌, List, [], ◌∷◌, All, inl, inr, Option-cases}
use gnome_usage.Outcome.{ok, Yields, Yields-bind, Yields-any}
use gnome_usage.Packet.{Packet}
use gnome_usage.Connection.{Connection}
use gnome_usage.Store.{deref, connection_find_from_packet}
use gnome_usage.Store.Every.{Every, IsKept, deref-Every, assign-Every, add_connection-Every}
use gnome_usage.Process.{World, State}
use gnome_usage.Attribution.{process_find_from_connection}
use gnome_usage.Attribution.Every.{find_from_connection-Every}
use gnome_usage.Frame.{IpAddress, PktHdr, Memory}
use gnome_usage.Frame.Cases.{IsBytes, Fits, IsBytes-Reads, dispatch-Good}
use gnome_usage.Pcap.{PcapHandle, make_packet, account, push_packet, pcap_dispatch}

-- A captured packet: its memory holds bytes, and its header has the property.
abbrev pub IsCaptured : (PktHdr → Type 0) → PktHdr × Memory → Type 0
IsCaptured H (header, packet) = H header × IsBytes packet

-- Every packet that is made of such a header, with ports and addresses of their types, is of a kind.
abbrev pub Makes : (PktHdr → Type 0) → (Packet → Type 0) → Type 0
Makes H R =
    (header : PktHdr) (address : IpAddress) (s_port d_port : ℕ)
    → H header
    → Fits address
    → s_port < 2 ^ 16
    → d_port < 2 ^ 16
    → R (make_packet header address s_port d_port)

module _ (world : World) (R : Packet → Type 0) (Q : Connection → Type 0)
    (kept : IsKept world.ntop R Q) where
  account-Every :
      (s : State) (p : Packet)
      → R p
      → Every Q s.store
      → Yields (λ s'. Every Q s'.store) (account world s p)
  unfolding account
  account-Every s p r every =
      Yields-bind _ (λ s'. Every Q s'.store) (connection_find_from_packet s.store p) _
        (Yields-any _)
        λ found u. elim (Option-cases found) [
          | inl e ↦
              rw (e, Yields)
                (Yields-bind (λ (s', place). Every Q s'.store) (λ s'. Every Q s'.store)
                  (process_find_from_connection world _ _) _
                  (find_from_connection-Every world R Q kept _ _
                    (add_connection-Every Q s.store every _ (kept.made s.local_addresses p r)))
                  λ (s', place) e'. e')
          | inr (a, e) ↦
              rw (e, Yields)
                (Yields-bind Q (λ s'. Every Q s'.store) (deref s.store a) _
                  (deref-Every Q s.store every a)
                  λ c q. assign-Every Q s.store every a _ (kept.grown s.local_addresses c p r q))
        ]

  module _ (H : PktHdr → Type 0) (makes : Makes H R) where
    pub pcap_dispatch-Every :
        (handle : PcapHandle) (s : State) (packets : List (PktHdr × Memory))
        → All (IsCaptured H) packets
        → Every Q s.store
        → Yields (λ s'. Every Q s'.store) (pcap_dispatch world handle s packets)
    unfolding pcap_dispatch push_packet
    pcap_dispatch-Every handle s [] captured every = every
    pcap_dispatch-Every handle s ((header, packet) ∷ rest) ((h, bytes), captured) every =
        Yields-bind (λ s'. Every Q s'.store) (λ s'. Every Q s'.store) _ _
          (dispatch-Good (push_packet world s) (ok s) (Yields (λ s'. Every Q s'.store)) IsBytes _
            IsBytes-Reads header
            (λ a sp dp (fit, small, small').
              account-Every s _ (makes header a sp dp h fit small small') every)
            every handle.linktype packet bytes)
          λ s' e. pcap_dispatch-Every handle s' rest captured e
