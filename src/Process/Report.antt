-- ===== src/Process/Report.antt =====
-- The loops of the report in na-process.c give the figures.
use gnome_usage.Base.{
  ℕ, ◌+◌, ◌^◌, ◌<◌, ◌≡◌, refl, sym, ◌∙◌, true, false, ◌||◌, some, List, [], ◌∷◌, arith, ltb, inl,
  inr, Bool-cases,
}
use gnome_usage.Base.Members.{has, has-append}
use gnome_usage.Outcome.{Returns, Returns-bind, Returns-mono}
use gnome_usage.Packet.{Timeval}
use gnome_usage.Connection.{Connection}
use gnome_usage.Store.{Store}
use gnome_usage.Process.{
  Process, ProcInfo, World, State, process_timeout, is_timed_out, process_sum_connections,
  last_packet_time_loop, process_get_last_packet_time, info_loop, process_info_get_all,
}
use gnome_usage.Process.Ownership.{owned, Owns, Owns-tail, Owns-head, Owns-Summed, apart}
use gnome_usage.Process.Sums.{Counted, last_loop-is_live, sum_connections-Counted}
use gnome_usage.Process.Figures.{Agree, is_live, figures, figures-Agree}

-- The `int`s that the report computes with do not overflow.
abbrev pub IsInRange : Store → List Process → Type 0
IsInRange s ps =
    (b : ℕ) (c : Connection)
    → has b (owned ps) ≡ true
    → s.cells b ≡ some c
    → c.last_packet_time + process_timeout < 2 ^ 31

module _ (t : Timeval) where
  figures-dead :
      (s : Store) (p : Process) (ps : List Process) (infos : List ProcInfo)
      → (ltb t.tv_sec process_timeout || is_live t s.cells p.connections) ≡ false
      → infos ≡ figures t s.cells ps
      → infos ≡ figures t s.cells (p ∷ ps)
  unfolding figures
  figures-dead s p ps infos dead e = rw dead e

  figures-alive :
      (s s₁ : Store) (p : Process) (ps : List Process) (r n : ℕ) (infos : List ProcInfo)
      → (ltb t.tv_sec process_timeout || is_live t s.cells p.connections) ≡ true
      → Counted t s s₁ p.connections r n
      → Agree (λ b. has b (owned ps)) s.cells s₁.cells
      → infos ≡ figures t s₁.cells ps
      → record { name = p.name; pid = p.pid; sent = n; recv = r } ∷ infos
        ≡ figures t s.cells (p ∷ ps)
  unfolding figures
  figures-alive s s₁ p ps r n infos alive c same e =
      rw (alive, c.received, c.sent, e, figures-Agree t s.cells s₁.cells ps same) refl

  info_loop-figures :
      (s : Store) (ps : List Process)
      → Owns s ps
      → IsInRange s ps
      → Returns (λ (s', ps', infos). infos ≡ figures t s.cells ps) (info_loop t s ps)
  unfolding info_loop figures process_get_last_packet_time
  info_loop-figures s [] o int = refl
  info_loop-figures s (p ∷ ps) o int =
      Returns-bind _ (λ (s', ps', infos). infos ≡ figures t s.cells (p ∷ ps))
        (last_packet_time_loop s 0 p.connections) _
        (last_loop-is_live t s 0 p.connections (omega arith) o.store (Owns-head p ps o)
          (λ b c m e. int b c (ground (arith, has-append b p.connections (owned ps))) e))
        λ last k. elim (Bool-cases (is_timed_out last t)) [
          | inl dead ↦ rw dead (
              Returns-mono _ _ (info_loop t s ps) (info_loop-figures s ps (Owns-tail p ps o) tail)
                λ (s', ps', infos). figures-dead s p ps infos (ground (arith, k, dead)))
          | inr alive ↦ rw alive (
              Returns-bind _ (λ (s', ps', infos). infos ≡ figures t s.cells (p ∷ ps))
                (process_sum_connections t s p) _ (sum_connections-Counted t s p ps o)
                λ (s₁, p', r, n) (m, c).
                  Returns-bind _ (λ (s', ps', infos). infos ≡ figures t s.cells (p ∷ ps))
                    (info_loop t s₁ ps) _
                    (info_loop-figures s₁ ps (Owns-Summed p ps o p'.connections m)
                      (λ b k h e. tail b k h (sym (same s₁ r n c b h) ∙ e)))
                    λ (s', ps', infos) e.
                      figures-alive s s₁ p ps r n infos (ground (arith, k, alive)) c (same s₁ r n c)
                        e)
        ]
    where
      tail : IsInRange s ps
      tail b c m e = int b c (ground (arith, has-append b p.connections (owned ps))) e

      same :
          (s₁ : Store) (r n : ℕ)
          → Counted t s s₁ p.connections r n
          → Agree (λ b. has b (owned ps)) s.cells s₁.cells
      same s₁ r n c b m = c.elsewhere b (ground (arith, apart p ps o b))

-- The report in figures, where the processes hold distinct connections, all listed and allocated,
-- whose last packet times plus PROCESSTIMEOUT are below 2 ^ 31: one entry for each process with a
-- connection that had a packet in the last PROCESSTIMEOUT seconds (for each process while the clock
-- is below PROCESSTIMEOUT), in their order, with the sums modulo 2 ^ 32 of what its connections
-- still have in their packet lists, where a connection without a packet for CONNTIMEOUT seconds
-- counts for nothing.
pub info_get_all-figures :
    (world : World) (t : Timeval) (state : State)
    → Owns state.store state.processes
    → IsInRange state.store state.processes
    → Returns
        (λ (state', infos). infos ≡ figures t state.store.cells state.processes)
        (process_info_get_all world t state)
unfolding process_info_get_all
info_get_all-figures world t state o int =
    Returns-bind _ (λ (state', infos). infos ≡ figures t state.store.cells state.processes)
      (info_loop t state.store state.processes) _
      (info_loop-figures t state.store state.processes o int) λ (s', ps', infos) e. e
