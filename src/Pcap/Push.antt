-- ===== src/Pcap/Push.antt =====
-- The invariant of Process.Ownership under the packets of na-pcap.c.
use gnome_usage.Base.{
  ℕ, ◌≡◌, refl, ap, true, false, List, [], ◌∷◌, ◌++◌, arith, inl, inr, Bool-cases, Option-cases,
}
use gnome_usage.Base.Members.{has, has-append}
use gnome_usage.Outcome.{ok, Returns, Returns-bind, Returns-mono, ◌>>=◌}
use gnome_usage.Packet.{Packet}
use gnome_usage.Connection.{Connection, connection_new, connection_add_packet}
use gnome_usage.Store.{Store, deref, assign, add_connection, connection_find_from_packet}
use gnome_usage.Store.WellFormed.{
  FoundIn, deref-ok, assign-IsStore, add-IsStore, connections-assign, find_from_packet-FoundIn,
}
use gnome_usage.Process.{State, World}
use gnome_usage.Process.Ownership.{owned, Owns}
use gnome_usage.Attribution.{process_find_from_connection}
use gnome_usage.Attribution.Keeps.{IsReadable, Attached, find_from_connection-Attached}
use gnome_usage.Frame.{IpAddress, PktHdr, Memory}
use gnome_usage.Frame.Cases.{dispatch-cases}
use gnome_usage.Pcap.{PcapHandle, account, push_packet, pcap_dispatch}

-- Every listed connection is held by a process, and so will be reported.
abbrev pub IsHeld : State → Type 0
IsHeld s = (b : ℕ) → has b s.store.connections ≡ true → has b (owned s.processes) ≡ true

-- The invariant holds, and no listed connection is without a process if none was.
abbrev pub Keeps : State → State → Type 0
Keeps s s' = Owns s'.store s'.processes × (IsHeld s → IsHeld s')

connections-add :
    (s : Store) (c : Connection)
    → ((add_connection s c).0.connections ≡ s.connections ++ s.next ∷ [])
      × ((add_connection s c).1 ≡ s.next)
unfolding add_connection
connections-add s c = (refl, refl)

module _ (s : State) (o : Owns s.store s.processes) where
  Owns-assign :
      (a : ℕ) (c : Connection)
      → has a s.store.connections ≡ true
      → Keeps s (record s { store = assign s.store a c })
  Owns-assign a c m = (
    record {
      store = assign-IsStore o.store a c m;
      distinct = o.distinct;
      backed = λ b h. rw (connections-assign s.store a c) (o.backed b h);
    },
    λ held b h. held b (rw (connections-assign s.store a c) at h),
  )

  -- A connection that is new in memory is held by nobody.
  new_unheld : has s.store.next (owned s.processes) ≡ false
  new_unheld = elim (Bool-cases (has s.store.next (owned s.processes))) [
    | inl h ↦ ground (arith, o.backed s.store.next h, o.store.fresh s.store.next)
    | inr h ↦ h
  ]

  pub Owns-add :
      (c : Connection)
      → Owns (add_connection s.store c).0 s.processes
        × (has (add_connection s.store c).1 (add_connection s.store c).0.connections ≡ true)
        × (has (add_connection s.store c).1 (owned s.processes) ≡ false)
  Owns-add c =
      let (list, address) = connections-add s.store c in
      (
        record {
          store = add-IsStore o.store c;
          distinct = o.distinct;
          backed = λ b h.
              rw list (
                ground (arith, has-append b s.store.connections (s.store.next ∷ []), o.backed b h));
        },
        rw (list, address)
            (ground (arith, has-append s.store.next s.store.connections (s.store.next ∷ []))),
        rw address new_unheld,
      )

  Attached-Keeps :
      (c : Connection) (s' : State)
      → Attached (record s { store = (add_connection s.store c).0 }) (add_connection s.store c).1 s'
      → Keeps s s'
  Attached-Keeps c s' (owns, list, held', keyed) =
      let (added, address) = connections-add s.store c in
      (
        owns,
        λ held b h. ground (
          arith,
          held' b,
          held b,
          ap (has b) list,
          ap (has b) added,
          address,
          has-append b s.store.connections (s.store.next ∷ []),
        ),
      )

module _ (world : World) (readable : IsReadable world) where
  created :
      (s : State) (p : Packet)
      → Owns s.store s.processes
      → Returns (Keeps s) (do
        (s', place) ←
            process_find_from_connection world
              (record s {
                store =
                    (add_connection s.store (connection_new world.ntop s.local_addresses p).1).0;
              })
              (add_connection s.store (connection_new world.ntop s.local_addresses p).1).1
        ok s')
  created s p o =
      let c = (connection_new world.ntop s.local_addresses p).1 in
      let (owns, listed, out) = Owns-add s o c in
      Returns-bind _ (Keeps s) _ _
        (find_from_connection-Attached world readable
          (record s { store = (add_connection s.store c).0 }) (add_connection s.store c).1 owns
          listed out)
        λ (s', place) h. Attached-Keeps s o c s' h

  added :
      (s : State) (p : Packet)
      → Owns s.store s.processes
      → (a : ℕ) → has a s.store.connections ≡ true
      → Returns (Keeps s) (do
        connection ← deref s.store a
        ok (record s {
          store =
              assign s.store a (connection_add_packet world.ntop s.local_addresses connection p).1;
        }))
  added s p o a m = let (c, e) = deref-ok o.store a m in rw e (Owns-assign s o a _ m)

  pub account-Keeps :
      (s : State) (p : Packet) → Owns s.store s.processes → Returns (Keeps s) (account world s p)
  unfolding account
  account-Keeps s p o =
      Returns-bind _ (Keeps s) (connection_find_from_packet s.store p) _
        (find_from_packet-FoundIn o.store p)
        λ found h. elim (Option-cases found) [
          | inl e ↦ rw (e, Returns) (created s p o)
          | inr (a, e) ↦ rw (e, Returns) (added s p o a (ground (arith, FoundIn)))
        ]

  push_packet-Keeps :
      (s : State)
      → Owns s.store s.processes
      → (header : PktHdr) (address : IpAddress) (s_port d_port : ℕ)
      → Returns (Keeps s) (push_packet world s header address s_port d_port)
  unfolding push_packet
  push_packet-Keeps s o header address s_port d_port = account-Keeps s _ o

  pcap_dispatch-Keeps :
      (handle : PcapHandle) (s : State) (packets : List (PktHdr × Memory))
      → Owns s.store s.processes
      → Returns (Keeps s) (pcap_dispatch world handle s packets)
  unfolding pcap_dispatch
  pcap_dispatch-Keeps handle s [] o = (o, λ held. held)
  pcap_dispatch-Keeps handle s ((header, packet) ∷ rest) o =
      Returns-bind (Keeps s) (Keeps s) _ _
        (dispatch-cases (push_packet world s) (ok s) (Returns (Keeps s)) header
          (push_packet-Keeps s o header) (o, λ held. held) handle.linktype packet)
        λ s' (o', kept).
          Returns-mono (Keeps s') (Keeps s) (pcap_dispatch world handle s' rest)
            (pcap_dispatch-Keeps handle s' rest o')
            λ s'' (o'', kept'). (o'', λ held. kept' (kept held))

  -- Whatever libpcap delivers on a handle of any link type, all of it is dealt with, as long as
  -- /proc can be listed and the processes hold distinct connections, all listed and allocated: no
  -- packet leads to a read of a freed connection, and afterwards the processes again hold such ones.
  pub pcap_dispatch-Owns :
      (handle : PcapHandle) (s : State) (packets : List (PktHdr × Memory))
      → Owns s.store s.processes
      → Returns (λ s'. Owns s'.store s'.processes) (pcap_dispatch world handle s packets)
  pcap_dispatch-Owns handle s packets o =
      Returns-mono _ _ (pcap_dispatch world handle s packets)
        (pcap_dispatch-Keeps handle s packets o) λ s' k. k.0

  -- If every listed connection is held by a process, that is so after any packets too, as long as
  -- /proc can be listed and the processes hold distinct connections, all listed and allocated: a new
  -- flow's connection is not left without a process.
  pub pcap_dispatch-IsHeld :
      (handle : PcapHandle) (s : State) (packets : List (PktHdr × Memory))
      → Owns s.store s.processes
      → IsHeld s
      → Returns IsHeld (pcap_dispatch world handle s packets)
  pcap_dispatch-IsHeld handle s packets o held =
      Returns-mono _ _ (pcap_dispatch world handle s packets)
        (pcap_dispatch-Keeps handle s packets o) λ s' k. k.1 held
