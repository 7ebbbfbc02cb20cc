-- ===== src/Process/Every.antt =====
-- Properties of every connection in memory, through the report of na-process.c.
use gnome_usage.Base.{ℕ, List, [], ◌∷◌}
use gnome_usage.Outcome.{Yields, Yields-bind, Yields-any, Yields-if}
use gnome_usage.Packet.{Packet, Timeval}
use gnome_usage.Connection.{Connection}
use gnome_usage.Store.{Store, deref, connection_free}
use gnome_usage.Store.Every.{Every, IsKept, deref-Every, assign-Every, connection_free-Every}
use gnome_usage.Process.{
  Process, World, State, is_stalled, sum_connections_loop, process_sum_connections, info_loop,
  is_timed_out, process_get_last_packet_time, process_info_get_all,
}

module _ (world : World) (R : Packet → Type 0) (Q : Connection → Type 0)
    (kept : IsKept world.ntop R Q) (t : Timeval) where
  sum_loop-Every :
      (s : Store) (recv sent : ℕ) (l : List ℕ)
      → Every Q s
      → Yields (λ (s', rest, r, n). Every Q s') (sum_connections_loop t s recv sent l)
  unfolding sum_connections_loop
  sum_loop-Every s recv sent [] every = every
  sum_loop-Every s recv sent (a ∷ rest) every =
      Yields-bind Q (λ (s', l, r, n). Every Q s') (deref s a) _ (deref-Every Q s every a)
        λ c q.
          Yields-if (λ (s', l, r, n). Every Q s') (is_stalled c t) _ _
            (λ stalled.
              Yields-bind (Every Q) (λ (s', l, r, n). Every Q s') (connection_free s a) _
                (connection_free-Every Q s every a) λ s' e. sum_loop-Every s' recv sent rest e)
            (λ fresh.
              Yields-bind (λ (s', l, r, n). Every Q s') (λ (s', l, r, n). Every Q s')
                (sum_connections_loop t _ _ _ rest) _
                (sum_loop-Every _ _ _ rest (assign-Every Q s every a _ (kept.summed t c q)))
                λ (s', l, r, n) e. e)

  info_loop-Every :
      (s : Store) (ps : List Process)
      → Every Q s
      → Yields (λ (s', ps', infos). Every Q s') (info_loop t s ps)
  unfolding info_loop process_sum_connections
  info_loop-Every s [] every = every
  info_loop-Every s (p ∷ ps) every =
      Yields-bind _ (λ (s', ps', infos). Every Q s') (process_get_last_packet_time s p) _
        (Yields-any (process_get_last_packet_time s p))
        λ last u.
          Yields-if (λ (s', ps', infos). Every Q s') (is_timed_out last t) _ _
            (λ dead. info_loop-Every s ps every)
            (λ alive.
              Yields-bind (λ (s', p', r, n). Every Q s') (λ (s', ps', infos). Every Q s')
                (process_sum_connections t s p) _
                (Yields-bind _ (λ (s', p', r, n). Every Q s')
                  (sum_connections_loop t s 0 0 p.connections) _
                  (sum_loop-Every s 0 0 p.connections every) λ (s', l, r, n) e. e)
                λ (s₁, p', r, n) e.
                  Yields-bind _ (λ (s', ps', infos). Every Q s') (info_loop t s₁ ps) _
                    (info_loop-Every s₁ ps e) λ (s', ps', infos) e'. e')

  pub info_get_all-Every :
      (s : State)
      → Every Q s.store
      → Yields (λ (s', infos). Every Q s'.store) (process_info_get_all world t s)
  unfolding process_info_get_all
  info_get_all-Every s every =
      Yields-bind _ (λ (s', infos). Every Q s'.store) (info_loop t s.store s.processes) _
        (info_loop-Every s.store s.processes every) λ (s', ps', infos) e. e
