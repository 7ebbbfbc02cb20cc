-- ===== src/Process/History.antt =====
-- The report of na-process.c forgets no packet of the last PERIOD seconds.
use gnome_usage.Base.{
  ℕ, ◌+◌, ◌^◌, ◌≤◌, ◌<◌, ◌≡◌, refl, true, some, List, [], ◌∷◌, arith, inl, inr, Option-cases,
}
use gnome_usage.Outcome.{Yields, Yields-bind, Yields-any, Yields-if}
use gnome_usage.Packet.{Packet, Timeval}
use gnome_usage.Connection.{Connection, connection_get_last_packet_time}
use gnome_usage.Connection.Packets.{period}
use gnome_usage.Store.{Store, write, deref, connection_free}
use gnome_usage.Store.History.{Tracks, sum-Tracks, free-Tracks}
use gnome_usage.Process.{
  Process, World, State, is_stalled, sum_connections_loop, process_sum_connections, info_loop,
  is_timed_out, process_get_last_packet_time, process_info_get_all,
}

deref-here : (s : Store) (a : ℕ) → Yields (λ c. s.cells a ≡ some c) (deref s a)
unfolding deref
deref-here s a = elim (Option-cases (s.cells a)) [
  | inl e ↦ rw (e, Yields) tt
  | inr (c, e) ↦ rw (e, Yields) e
]

-- A connection that is stalled had no packet in the last PERIOD seconds.
pub is_stalled-period :
    (c : Connection) (t : Timeval)
    → c.last_packet_time ≤ t.tv_sec
    → t.tv_sec < 2 ^ 31
    → is_stalled c t ≡ true
    → c.last_packet_time + period ≤ t.tv_sec
unfolding is_stalled connection_get_last_packet_time
is_stalled-period c t l small h = ground arith

module _ (t : Timeval) (small : t.tv_sec < 2 ^ 31) (history : List Packet) where
  free-history :
      (s : Store) (a : ℕ) (c : Connection)
      → Tracks t.tv_sec s history
      → s.cells a ≡ some c
      → is_stalled c t ≡ true
      → Yields (λ s'. Tracks t.tv_sec s' history) (connection_free s a)
  unfolding connection_free deref write
  free-history s a c k here stalled =
      let (last, out, into) = k.timely a c here in
      rw (here, Yields)
        (free-Tracks t s history k a c here _ (λ b. refl)
          (is_stalled-period c t last small stalled))

  sum_loop-history :
      (s : Store) (recv sent : ℕ) (l : List ℕ)
      → Tracks t.tv_sec s history
      → Yields
          (λ (s', rest, r, n). Tracks t.tv_sec s' history)
          (sum_connections_loop t s recv sent l)
  unfolding sum_connections_loop
  sum_loop-history s recv sent [] k = k
  sum_loop-history s recv sent (a ∷ rest) k =
      Yields-bind _ (λ (s', l, r, n). Tracks t.tv_sec s' history) (deref s a) _ (deref-here s a)
        λ c here.
          Yields-if (λ (s', l, r, n). Tracks t.tv_sec s' history) (is_stalled c t) _ _
            (λ stalled.
              Yields-bind _ (λ (s', l, r, n). Tracks t.tv_sec s' history) (connection_free s a) _
                (free-history s a c k here stalled) λ s' k'. sum_loop-history s' recv sent rest k')
            (λ fresh.
              Yields-bind _ (λ (s', l, r, n). Tracks t.tv_sec s' history)
                (sum_connections_loop t _ _ _ rest) _
                (sum_loop-history _ _ _ rest (sum-Tracks t s history k a c here))
                λ (s', l, r, n) k'. k')

  info_loop-history :
      (s : Store) (ps : List Process)
      → Tracks t.tv_sec s history
      → Yields (λ (s', ps', infos). Tracks t.tv_sec s' history) (info_loop t s ps)
  unfolding info_loop process_sum_connections
  info_loop-history s [] k = k
  info_loop-history s (p ∷ ps) k =
      Yields-bind _ (λ (s', ps', infos). Tracks t.tv_sec s' history)
        (process_get_last_packet_time s p) _ (Yields-any (process_get_last_packet_time s p))
        λ last u.
          Yields-if (λ (s', ps', infos). Tracks t.tv_sec s' history) (is_timed_out last t) _ _
            (λ dead. info_loop-history s ps k)
            (λ alive.
              Yields-bind (λ (s', p', r, n). Tracks t.tv_sec s' history)
                (λ (s', ps', infos). Tracks t.tv_sec s' history) (process_sum_connections t s p) _
                (Yields-bind _ (λ (s', p', r, n). Tracks t.tv_sec s' history)
                  (sum_connections_loop t s 0 0 p.connections) _
                  (sum_loop-history s 0 0 p.connections k) λ (s', l, r, n) k'. k')
                λ (s₁, p', r, n) k'.
                  Yields-bind _ (λ (s', ps', infos). Tracks t.tv_sec s' history) (info_loop t s₁ ps)
                    _ (info_loop-history s₁ ps k') λ (s', ps', infos) k''. k'')

  pub info_get_all-history :
      (world : World) (s : State)
      → Tracks t.tv_sec s.store history
      → Yields (λ (s', infos). Tracks t.tv_sec s'.store history) (process_info_get_all world t s)
  unfolding process_info_get_all
  info_get_all-history world s k =
      Yields-bind _ (λ (s', infos). Tracks t.tv_sec s'.store history)
        (info_loop t s.store s.processes) _ (info_loop-history s.store s.processes k)
        λ (s', ps', infos) k'. k'
