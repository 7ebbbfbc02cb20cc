-- ===== src/Process/Safety.antt =====
-- The loops of na-process.c use no connection that has been freed, and leave none behind in a
-- process: what the processes hold stays listed, each connection in one process.
use gnome_usage.Base.{
  ℕ, ◌≡◌, refl, ap, true, false, ◌&&◌, not, List, [], ◌∷◌, ◌==◌, arith, if◌then◌else◌, inl, inr,
  Bool-cases,
}
use gnome_usage.Base.Members.{has, has-cons_self, IsNodup}
use gnome_usage.Outcome.{Returns, Returns-bind, Returns-mono}
use gnome_usage.Packet.{Timeval}
use gnome_usage.Connection.{connection_sum_packets}
use gnome_usage.Store.{Store, deref, assign, connection_free}
use gnome_usage.Store.WellFormed.{
  IsStore, cells-some, connections-assign, assign-IsStore, free-IsStore,
}
use gnome_usage.Store.Single.{IsNoNewer, IsNoNewer-trans, freed-IsNoNewer, assign-IsNoNewer}
use gnome_usage.Process.{is_stalled, sum_connections_loop}

-- What the summing loop makes of a process's connections `l`: it keeps some of them and frees the
-- others, which leave the list of all connections.
pub record Summed (s s' : Store) (l kept : List ℕ) : Type 0 where
  pub store : IsStore s'
  pub listed :
      (b : ℕ) → has b s'.connections ≡ (if has b l then has b kept else has b s.connections)
  pub sub : (b : ℕ) → has b kept ≡ true → has b l ≡ true
  pub distinct : IsNodup kept
  pub older : IsNoNewer s s'

module _ (t : Timeval) where
  Summed-freed :
      {s s₀ s' : Store} (a : ℕ) (l kept : List ℕ)
      → has a l ≡ false
      → ((b : ℕ) → has b s₀.connections ≡ (not (b == a) && has b s.connections))
      → IsNoNewer s s₀
      → Summed s₀ s' l kept
      → Summed s s' (a ∷ l) kept
  Summed-freed {s} {s₀} {s'} a l kept out freed old r = record {
    store = r.store;
    listed = λ b. ground (arith, r.listed b, freed b, r.sub b);
    sub = λ b m. ground (arith, r.sub b);
    distinct = r.distinct;
    older = IsNoNewer-trans s s₀ s' old r.older;
  }

  Summed-kept :
      {s s₁ s' : Store} (a : ℕ) (l kept : List ℕ)
      → has a l ≡ false
      → has a s.connections ≡ true
      → s₁.connections ≡ s.connections
      → IsNoNewer s s₁
      → Summed s₁ s' l kept
      → Summed s s' (a ∷ l) (a ∷ kept)
  Summed-kept {s} {s₁} {s'} a l kept out m same old r = record {
    store = r.store;
    listed = λ b. ground (arith, r.listed b, r.sub b, ap (has b) same);
    sub = λ b k. ground (arith, r.sub b);
    distinct = (ground (arith, r.sub a), r.distinct);
    older = IsNoNewer-trans s s₁ s' old r.older;
  }

  pub sum_loop-Summed :
      (s : Store) (recv sent : ℕ) (l : List ℕ)
      → IsStore s
      → IsNodup l
      → ((b : ℕ) → has b l ≡ true → has b s.connections ≡ true)
      → Returns (λ (s', kept, r, n). Summed s s' l kept) (sum_connections_loop t s recv sent l)
  unfolding sum_connections_loop deref connection_sum_packets
  sum_loop-Summed s recv sent [] w d sub = record {
    store = w;
    listed = λ b. refl;
    sub = λ b h. h;
    distinct = tt;
    older = λ b e p. p;
  }
  sum_loop-Summed s recv sent (a ∷ l) w d sub =
      let listed = sub a (has-cons_self a l) in
      let (c, e) = cells-some w a listed in
      rw (deref, e)
        (elim (Bool-cases (is_stalled c t)) [
          | inl stalled ↦ rw stalled (
              Returns-bind _ (λ (s', kept, r, n). Summed s s' (a ∷ l) kept) (connection_free s a) _
                (free-IsStore w a listed)
                λ s₀ (w₀, freed, elsewhere).
                  Returns-mono _ _ (sum_connections_loop t s₀ recv sent l)
                    (sum_loop-Summed s₀ recv sent l w₀ d.1 (λ b m. ground (arith, freed b, sub b)))
                    λ (s', kept, r, n) h.
                      Summed-freed a l kept d.0 freed (freed-IsNoNewer s s₀ a elsewhere) h)
          | inr fresh ↦
              let s₁ = assign s a (connection_sum_packets c t).0 in
              rw fresh (
                Returns-bind _ (λ (s', kept, r, n). Summed s s' (a ∷ l) kept)
                  (sum_connections_loop t s₁ _ _ l) _
                  (sum_loop-Summed s₁ _ _ l (assign-IsStore w a _ listed) d.1
                    (λ b m. rw (connections-assign s a _) (sub b (ground arith))))
                  λ (s', kept, r, n) h.
                    Summed-kept a l kept d.0 listed (connections-assign s a _)
                      (assign-IsNoNewer s a c _ e refl) h)
        ])
