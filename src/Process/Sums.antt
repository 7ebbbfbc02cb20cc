-- ===== src/Process/Sums.antt =====
-- The loops over one process's connections in na-process.c: the sums and the last packet time.
use gnome_usage.Base.{
  none, if◌then◌else◌, ℕ, ◌+◌, ◌%◌, ◌^◌, ◌<◌, ◌≡◌, refl, ◌∙◌, true, false, ◌&&◌, not, some, List,
  [], ◌∷◌, ◌==◌, arith, ltb, inl, inr, Bool-cases,
}
use gnome_usage.Base.Int.{signed32, ltb_ℤ}
use gnome_usage.Base.Members.{has, has-cons_self, IsNodup, IsNodup-append_left}
use gnome_usage.Outcome.{Returns, Returns-bind, Returns-mono, Returns-both}
use gnome_usage.Packet.{Timeval}
use gnome_usage.Connection.{Connection, connection_sum_packets, connection_get_last_packet_time}
use gnome_usage.Store.{Store, write, deref, assign, connection_free}
use gnome_usage.Store.WellFormed.{
  IsStore, cells-some, assign-IsStore, free-IsStore, connections-assign,
}
use gnome_usage.Process.{
  Process, process_timeout, is_stalled, is_timed_out, sum_connections_loop, process_sum_connections,
  last_packet_time_loop,
}
use gnome_usage.Process.Safety.{Summed}
use gnome_usage.Process.Ownership.{owned, Owns, Owns-head, sum_connections-Summed}
use gnome_usage.Process.Figures.{Cells, Agree, recv_of, sent_of, total, is_live, total-Agree}

module _ (t : Timeval) where
  -- What the summing loop returns and leaves: the two sums, and memory as it was elsewhere.
  pub record Totalled (s s' : Store) (l : List ℕ) (recv₀ sent₀ r n : ℕ) : Type 0 where
    pub received : r ≡ (recv₀ + total t (recv_of t) s.cells l) % 2 ^ 32
    pub sent : n ≡ (sent₀ + total t (sent_of t) s.cells l) % 2 ^ 32
    pub elsewhere : Agree (λ b. not (has b l)) s.cells s'.cells

  -- Memory that differs at one address at most has the same total over a list without it.
  total-elsewhere :
      (f : Connection → ℕ) (cells cells₀ : Cells) (a : ℕ) (l : List ℕ)
      → has a l ≡ false
      → Agree (λ b. not (b == a)) cells cells₀
      → total t f cells₀ l ≡ total t f cells l
  total-elsewhere f cells cells₀ a l out other =
      total-Agree t f cells cells₀ l (λ b m. other b (ground arith))

  freed-Agree :
      (s s' : Store) (a : ℕ)
      → ((b : ℕ) → s'.cells b ≡ (if b == a then none else s.cells b))
      → Agree (λ b. not (b == a)) s.cells s'.cells
  freed-Agree s s' a freed b h = ground (arith, freed b)

  Totalled-stalled :
      {s s₀ s' : Store} {recv sent r n : ℕ} (a : ℕ) (c : Connection) (l : List ℕ)
      → s.cells a ≡ some c
      → is_stalled c t ≡ true
      → has a l ≡ false
      → Agree (λ b. not (b == a)) s.cells s₀.cells
      → Totalled s₀ s' l recv sent r n
      → Totalled s s' (a ∷ l) recv sent r n
  unfolding total
  Totalled-stalled {s} {s₀} {recv = recv} {sent} a c l e stalled out other m = record {
    received =
        m.received
        ∙ rw (e, stalled, total-elsewhere (recv_of t) s.cells s₀.cells a l out other) (omega arith);
    sent =
        m.sent
        ∙ rw (e, stalled, total-elsewhere (sent_of t) s.cells s₀.cells a l out other) (omega arith);
    elsewhere = λ b h. m.elsewhere b (ground arith) ∙ other b (ground arith);
  }

  Totalled-summed :
      {s s₁ s' : Store} {recv sent r n : ℕ} (a : ℕ) (c : Connection) (l : List ℕ)
      → s.cells a ≡ some c
      → is_stalled c t ≡ false
      → has a l ≡ false
      → Agree (λ b. not (b == a)) s.cells s₁.cells
      → Totalled s₁ s' l ((recv + recv_of t c) % 2 ^ 32) ((sent + sent_of t c) % 2 ^ 32) r n
      → Totalled s s' (a ∷ l) recv sent r n
  unfolding total
  Totalled-summed {s} {s₁} {recv = recv} {sent} a c l e fresh out other m = record {
    received =
        m.received
        ∙ rw (e, fresh, total-elsewhere (recv_of t) s.cells s₁.cells a l out other) (omega arith);
    sent =
        m.sent
        ∙ rw (e, fresh, total-elsewhere (sent_of t) s.cells s₁.cells a l out other) (omega arith);
    elsewhere = λ b h. m.elsewhere b (ground arith) ∙ other b (ground arith);
  }

  assign-elsewhere :
      (s : Store) (a : ℕ) (c : Connection) → Agree (λ b. not (b == a)) s.cells (assign s a c).cells
  unfolding assign write
  assign-elsewhere s a c b h = ground arith

  sum_loop-Totalled :
      (s : Store) (recv sent : ℕ) (l : List ℕ)
      → recv < 2 ^ 32
      → sent < 2 ^ 32
      → IsStore s
      → IsNodup l
      → ((b : ℕ) → has b l ≡ true → has b s.connections ≡ true)
      → Returns
          (λ (s', kept, r, n). Totalled s s' l recv sent r n)
          (sum_connections_loop t s recv sent l)
  unfolding sum_connections_loop total deref connection_sum_packets
  sum_loop-Totalled s recv sent [] hr hs w d sub = record {
    received = omega arith;
    sent = omega arith;
    elsewhere = λ b m. refl;
  }
  sum_loop-Totalled s recv sent (a ∷ l) hr hs w d sub =
      let listed = sub a (has-cons_self a l) in
      let (c, e) = cells-some w a listed in
      rw (deref, e)
        (elim (Bool-cases (is_stalled c t)) [
          | inl stalled ↦ rw stalled (
              Returns-bind _ (λ (s', kept, r, n). Totalled s s' (a ∷ l) recv sent r n)
                (connection_free s a) _ (free-IsStore w a listed)
                λ s₀ (w₀, freed, other).
                  Returns-mono _ _ (sum_connections_loop t s₀ recv sent l)
                    (sum_loop-Totalled s₀ recv sent l hr hs w₀ d.1
                      (λ b m. ground (arith, freed b, sub b)))
                    λ (s', kept, r, n) m.
                      Totalled-stalled a c l e stalled d.0 (freed-Agree s s₀ a other) m)
          | inr fresh ↦ rw fresh (
              let s₁ = assign s a (connection_sum_packets c t).0 in
              Returns-bind _ (λ (s', kept, r, n). Totalled s s' (a ∷ l) recv sent r n)
                (sum_connections_loop t s₁ _ _ l) _
                (sum_loop-Totalled s₁ _ _ l (omega arith) (omega arith)
                  (assign-IsStore w a _ listed) d.1
                  (λ b m. rw (connections-assign s a _) (sub b (ground arith))))
                λ (s', kept, r, n) m. Totalled-summed a c l e fresh d.0 (assign-elsewhere s a _) m)
        ])

  pub last_loop-is_live :
      (s : Store) (last : ℕ) (l : List ℕ)
      → last + process_timeout < 2 ^ 31
      → IsStore s
      → ((b : ℕ) → has b l ≡ true → has b s.connections ≡ true)
      → ((b : ℕ) (c : Connection)
          → has b l ≡ true
          → s.cells b ≡ some c
          → c.last_packet_time + process_timeout < 2 ^ 31)
      → Returns
          (λ n.
            is_timed_out n t
            ≡ (not (ltb t.tv_sec (last + process_timeout)) && not (is_live t s.cells l)))
          (last_packet_time_loop s last l)
  unfolding last_packet_time_loop is_live is_timed_out deref connection_get_last_packet_time
  last_loop-is_live s last [] h w sub int = ground arith
  last_loop-is_live s last (a ∷ l) h w sub int =
      let listed = sub a (has-cons_self a l) in
      let (c, e) = cells-some w a listed in
      let soon = int a c (has-cons_self a l) e in
      let tail = λ (b : ℕ) (m : has b l ≡ true). sub b (ground arith) in
      let tail_int = λ (b : ℕ) (k : Connection) (m : has b l ≡ true) (f : s.cells b ≡ some k).
        int b k (ground arith) f in
      rw (deref, e)
        (elim (Bool-cases (ltb_ℤ (signed32 last) (signed32 c.last_packet_time))) [
          | inl later ↦ rw later (
              Returns-mono _ _ (last_packet_time_loop s c.last_packet_time l)
                (last_loop-is_live s c.last_packet_time l soon w tail tail_int)
                λ n k. ground (arith, k))
          | inr sooner ↦ rw sooner (
              Returns-mono _ _ (last_packet_time_loop s last l)
                (last_loop-is_live s last l h w tail tail_int) λ n k. ground (arith, k))
        ])

  -- The same for a process, whose sums start from 0.
  pub record Counted (s s' : Store) (l : List ℕ) (r n : ℕ) : Type 0 where
    pub received : r ≡ total t (recv_of t) s.cells l % 2 ^ 32
    pub sent : n ≡ total t (sent_of t) s.cells l % 2 ^ 32
    pub elsewhere : Agree (λ b. not (has b l)) s.cells s'.cells

  Totalled-Counted :
      {s s' : Store} {l : List ℕ} {r n : ℕ} → Totalled s s' l 0 0 r n → Counted s s' l r n
  Totalled-Counted m = record {
    received = m.received ∙ omega arith;
    sent = m.sent ∙ omega arith;
    elsewhere = m.elsewhere;
  }

  pub sum_connections-Counted :
      (s : Store) (p : Process) (ps : List Process)
      → Owns s (p ∷ ps)
      → Returns
          (λ (s', p', r, n).
            Summed s s' p.connections p'.connections × Counted s s' p.connections r n)
          (process_sum_connections t s p)
  unfolding process_sum_connections
  sum_connections-Counted s p ps o =
      Returns-both _ _ (process_sum_connections t s p) (sum_connections-Summed t s p ps o) (
        Returns-bind _ (λ (s', p', r, n). Counted s s' p.connections r n)
          (sum_connections_loop t s 0 0 p.connections) _
          (sum_loop-Totalled s 0 0 p.connections (omega arith) (omega arith) o.store
            (IsNodup-append_left p.connections (owned ps) o.distinct) (Owns-head p ps o))
          λ (s', kept, r, n) h. Totalled-Counted h)
