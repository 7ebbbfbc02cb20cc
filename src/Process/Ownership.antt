-- ===== src/Process/Ownership.antt =====
-- The invariant between the processes of na-process.c and the connections of na-connection.c, and
-- that the report keeps it.
use gnome_usage.Base.{ℕ, ◌≡◌, refl, true, false, List, [], ◌∷◌, ◌++◌, arith, inl, inr, Bool-cases}
use gnome_usage.Base.Members.{
  has, IsNodup, has-append, has-cons_self, IsNodup-append, IsNodup-append_left,
  IsNodup-append_right, IsNodup-append_apart,
}
use gnome_usage.Outcome.{Returns, Returns-bind, Returns-mono}
use gnome_usage.Packet.{Timeval}
use gnome_usage.Store.{Store}
use gnome_usage.Store.WellFormed.{IsStore, deref-ok}
use gnome_usage.Process.{
  Process, State, World, process_sum_connections, info_loop, sum_connections_loop,
  last_packet_time_loop, process_get_last_packet_time, is_timed_out, process_info_get_all,
}
use gnome_usage.Store.Single.{IsNoNewer, IsNoNewer-trans}
use gnome_usage.Process.Safety.{Summed, sum_loop-Summed}

-- The connections of all processes.
abbrev pub owned : List Process → List ℕ
owned [] = []
owned (p ∷ ps) = p.connections ++ owned ps

-- No connection is in two processes, or twice in one, and each is listed and allocated.
pub record Owns (s : Store) (ps : List Process) : Type 0 where
  pub store : IsStore s
  pub distinct : IsNodup (owned ps)
  pub backed : (b : ℕ) → has b (owned ps) ≡ true → has b s.connections ≡ true

pub last_loop-Returns :
    (s : Store) (l : List ℕ) (last : ℕ)
    → IsStore s
    → ((b : ℕ) → has b l ≡ true → has b s.connections ≡ true)
    → Returns (λ n. Unit {0}) (last_packet_time_loop s last l)
unfolding last_packet_time_loop
last_loop-Returns s [] last w sub = tt
last_loop-Returns s (a ∷ l) last w sub =
    let (c, e) = deref-ok w a (sub a (has-cons_self a l)) in
    rw e (last_loop-Returns s l _ w (λ b m. sub b (ground arith)))

-- What the reporting loop makes of the processes: it owns what is left, and touches no connection
-- of any other process.
pub record Reported (s s' : Store) (ps ps' : List Process) : Type 0 where
  pub owns : Owns s' ps'
  pub sub : (b : ℕ) → has b (owned ps') ≡ true → has b (owned ps) ≡ true
  pub others : (b : ℕ) → has b (owned ps) ≡ false → has b s'.connections ≡ has b s.connections
  pub older : IsNoNewer s s'

module _ {s : Store} (p : Process) (ps : List Process) (o : Owns s (p ∷ ps)) where
  pub Owns-tail : Owns s ps
  Owns-tail = record {
    store = o.store;
    distinct = IsNodup-append_right p.connections (owned ps) o.distinct;
    backed = λ b m. o.backed b (ground (arith, has-append b p.connections (owned ps)));
  }

  pub Owns-head : (b : ℕ) → has b p.connections ≡ true → has b s.connections ≡ true
  Owns-head b m = o.backed b (ground (arith, has-append b p.connections (owned ps)))

  pub apart : (b : ℕ) → has b p.connections ≡ true → has b (owned ps) ≡ false
  apart b m = IsNodup-append_apart p.connections (owned ps) b o.distinct m

  Reported-deleted :
      {s' : Store} (ps' : List Process) → Reported s s' ps ps' → Reported s s' (p ∷ ps) ps'
  Reported-deleted ps' r = record {
    owns = r.owns;
    sub = λ b m. ground (arith, r.sub b, has-append b p.connections (owned ps));
    others = λ b m. ground (arith, r.others b, has-append b p.connections (owned ps));
    older = r.older;
  }

  pub Owns-Summed : {s' : Store} (kept : List ℕ) → Summed s s' p.connections kept → Owns s' ps
  Owns-Summed kept m = record {
    store = m.store;
    distinct = IsNodup-append_right p.connections (owned ps) o.distinct;
    backed = λ b h. ground (arith, m.listed b, apart b, Owns-tail.backed b);
  }

  Reported-Summed :
      {s₁ s' : Store} (p' : Process) (ps' : List Process)
      → Summed s s₁ p.connections p'.connections
      → Reported s₁ s' ps ps'
      → Reported s s' (p ∷ ps) (p' ∷ ps')
  Reported-Summed {s₁} {s'} p' ps' m r = record {
    owns = record {
      store = r.owns.store;
      distinct =
          IsNodup-append p'.connections (owned ps') m.distinct r.owns.distinct
            (λ b h. ground (arith, m.sub b, r.sub b, apart b));
      backed = λ b h. ground (
        arith,
        has-append b p'.connections (owned ps'),
        r.owns.backed b,
        r.others b,
        m.sub b,
        m.listed b,
        apart b,
      );
    };
    sub = λ b h. ground (
      arith,
      has-append b p'.connections (owned ps'),
      has-append b p.connections (owned ps),
      r.sub b,
      m.sub b,
    );
    others = λ b h. ground (arith, has-append b p.connections (owned ps), r.others b, m.listed b);
    older = IsNoNewer-trans s s₁ s' m.older r.older;
  }

module _ (t : Timeval) where
  pub sum_connections-Summed :
      (s : Store) (p : Process) (ps : List Process)
      → Owns s (p ∷ ps)
      → Returns
          (λ (s', p', recv, sent). Summed s s' p.connections p'.connections)
          (process_sum_connections t s p)
  unfolding process_sum_connections
  sum_connections-Summed s p ps o =
      Returns-bind _ _ (sum_connections_loop t s 0 0 p.connections) _
        (sum_loop-Summed t s 0 0 p.connections o.store
          (IsNodup-append_left p.connections (owned ps) o.distinct) (Owns-head p ps o))
        λ (s', kept, r, n) h. h

  last_packet_time-Returns :
      (s : Store) (p : Process) (ps : List Process)
      → Owns s (p ∷ ps)
      → Returns (λ n. Unit {0}) (process_get_last_packet_time s p)
  unfolding process_get_last_packet_time
  last_packet_time-Returns s p ps o = last_loop-Returns s p.connections 0 o.store (Owns-head p ps o)

  pub info_loop-Reported :
      (s : Store) (ps : List Process)
      → Owns s ps
      → Returns (λ (s', ps', infos). Reported s s' ps ps') (info_loop t s ps)
  unfolding info_loop
  info_loop-Reported s [] o = record {
    owns = o;
    sub = λ b m. m;
    others = λ b m. refl;
    older = λ b e p. p;
  }
  info_loop-Reported s (p ∷ ps) o =
      Returns-bind _ (λ (s', ps', infos). Reported s s' (p ∷ ps) ps')
        (process_get_last_packet_time s p) _ (last_packet_time-Returns s p ps o)
        λ last u. elim (Bool-cases (is_timed_out last t)) [
          | inl dead ↦ rw dead (
              Returns-mono _ _ (info_loop t s ps) (info_loop-Reported s ps (Owns-tail p ps o))
                λ (s', ps', infos) r. Reported-deleted p ps o ps' r)
          | inr alive ↦ rw alive (
              Returns-bind _ (λ (s', ps', infos). Reported s s' (p ∷ ps) ps')
                (process_sum_connections t s p) _ (sum_connections-Summed s p ps o)
                λ (s₁, p', recv, sent) m.
                  Returns-bind _ (λ (s', ps', infos). Reported s s' (p ∷ ps) ps')
                    (info_loop t s₁ ps) _
                    (info_loop-Reported s₁ ps (Owns-Summed p ps o p'.connections m))
                    λ (s', ps', infos) r. Reported-Summed p ps o p' ps' m r)
        ]

-- From processes that hold distinct connections, all listed and allocated, the report reads no
-- connection that has been freed, and ends; afterwards the processes hold such connections again.
pub info_get_all-Owns :
    (world : World) (t : Timeval) (state : State)
    → Owns state.store state.processes
    → Returns
        (λ (state', infos). Owns state'.store state'.processes)
        (process_info_get_all world t state)
unfolding process_info_get_all
info_get_all-Owns world t state o =
    Returns-bind _ (λ (state', infos). Owns state'.store state'.processes)
      (info_loop t state.store state.processes) _
      (info_loop-Reported t state.store state.processes o) λ (s', ps', infos) r. r.owns
