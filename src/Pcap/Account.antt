-- ===== src/Pcap/Account.antt =====
-- Where na-pcap.c counts a packet: in one connection of the packet's flow, and nowhere else.
use gnome_usage.Base.{ℕ, ◌≡◌, sym, ap, ◌∙◌, subst, true, some, arith, inl, inr, Option-cases}
use gnome_usage.Outcome.{ok, Returns, Returns-bind, ◌>>=◌}
use gnome_usage.Packet.{Packet}
use gnome_usage.Packet.Direction.{IsMade}
use gnome_usage.Packet.Flow.{ends, match-same_flow}
use gnome_usage.Connection.{Connection, connection_new, connection_add_packet}
use gnome_usage.Store.{deref, assign, write, add_connection, connection_find_from_packet}
use gnome_usage.Store.Flows.{IsMissed, IsHit, belongs, find_from_packet-Answers}
use gnome_usage.Process.{State, World}
use gnome_usage.Process.Ownership.{Owns}
use gnome_usage.Attribution.{process_find_from_connection}
use gnome_usage.Attribution.Keeps.{Attached, IsReadable, find_from_connection-Attached}
use gnome_usage.Pcap.{account}
use gnome_usage.Pcap.Push.{Owns-add}
use gnome_usage.Pcap.Counted.{
  Content, Counted, add_packet-counted, add_packet-Content, anew-Counted,
}

module _ (world : World) (readable : IsReadable world) where
  found-Counted :
      (s : State) (p : Packet)
      → Owns s.store s.processes
      → IsMade p
      → (a : ℕ) (c : Connection) → s.store.cells a ≡ some c
      → belongs p c ≡ true
      → Returns
          (λ s'. Counted s.store p s'.store)
          (do
            connection ← deref s.store a
            ok (record s {
              store =
                  assign s.store a
                    (connection_add_packet world.ntop s.local_addresses connection p).1;
            }))
  unfolding deref assign write
  found-Counted s p o m a c e ours =
      let (grown, kept) = add_packet-counted world.ntop s.local_addresses c p in
      rw (deref, e)
        (record {
          place = a;
          after = (connection_add_packet world.ntop s.local_addresses c p).1;
          here = ground arith;
          ours = rw kept (sym (match-same_flow p c.refpacket m) ∙ ours);
          grown = rw e grown;
          content =
              subst
                (λ old. Content old p (connection_add_packet world.ntop s.local_addresses c p).1)
                (sym e) (add_packet-Content world.ntop s.local_addresses c p);
          others = λ b h. ground arith;
          known = inl (rw e (ap some (sym (ap ends kept))));
        })

  made-Counted :
      (s : State) (p : Packet)
      → Owns s.store s.processes
      → IsMade p
      → IsMissed s.store (belongs p) s.store.connections
      → Returns
          (λ s'. Counted s.store p s'.store)
          (do
            (s', place) ←
                process_find_from_connection world
                  (record s {
                    store =
                        (add_connection s.store
                          (connection_new world.ntop s.local_addresses p).1).0;
                  })
                  (add_connection s.store (connection_new world.ntop s.local_addresses p).1).1
            ok s')
  made-Counted s p o m missed =
      let c = (connection_new world.ntop s.local_addresses p).1 in
      let (owns, listed, out) = Owns-add s o c in
      Returns-bind
        (λ (s', place).
          Attached (record s { store = (add_connection s.store c).0 }) (add_connection s.store c).1
            s')
        (λ (s' : State). Counted s.store p s'.store) _ _
        (find_from_connection-Attached world readable
          (record s { store = (add_connection s.store c).0 }) (add_connection s.store c).1 owns
          listed out)
        λ (s', place) (o', l', h', keyed).
          anew-Counted world.ntop s.local_addresses s.store s'.store p o.store m missed keyed

  -- Where /proc can be listed and the processes hold distinct connections, all listed and allocated,
  -- a packet that has zero addresses of the other family is counted in one connection, and no other
  -- connection changes: that one is of the packet's flow (the ports and the IPv4 addresses, either
  -- way round), it was there before with the same two ends or is new where no connection was of that
  -- flow, the bytes that it has counted both ways grow by the packet's length, modulo 2^32, its last
  -- time is the packet's, modulo 2^32, and the packet is added to its packets of one direction.
  pub account-Counted :
      (s : State) (p : Packet)
      → Owns s.store s.processes
      → IsMade p
      → Returns (λ s'. Counted s.store p s'.store) (account world s p)
  unfolding account
  account-Counted s p o m =
      Returns-bind _ (λ s'. Counted s.store p s'.store) (connection_find_from_packet s.store p) _
        (find_from_packet-Answers o.store p)
        λ found h. elim (Option-cases found) [
          | inl e ↦ rw (e, Returns) (made-Counted s p o m (rw e at h))
          | inr (a, e) ↦
              let hit : IsHit s.store (belongs p) s.store.connections a = rw e at h in
              rw (e, Returns) (found-Counted s p o m a hit.connection hit.here hit.passes)
        ]
