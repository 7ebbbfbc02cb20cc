-- ===== src/Process/Accounts.antt =====
-- The figures of the report of na-process.c in terms of what was captured.
use gnome_usage.Base.{
  ℕ, ◌+◌, ◌%◌, ◌^◌, ◌<◌, ◌≡◌, refl, ap, ◌||◌, Option, none, some, List, [], ◌∷◌, map, ltb,
  if◌then◌else◌, arith, inl, inr, Bool-cases, Option-cases,
}
use gnome_usage.Packet.{Packet, Timeval}
use gnome_usage.Packet.Flow.{ends}
use gnome_usage.Connection.{Connection}
use gnome_usage.Connection.Window.{window_stale, sum-window}
use gnome_usage.Store.{Store}
use gnome_usage.Store.History.{Tracks, captured}
use gnome_usage.Process.{Process, ProcInfo, process_timeout, is_stalled}
use gnome_usage.Process.Figures.{Cells, figure, figures, total, sent_of, recv_of, is_live}
use gnome_usage.Process.History.{is_stalled-period}

-- The bytes of an entry, both ways.
abbrev pub bytes_of : ProcInfo → ℕ
bytes_of info = (info.sent + info.recv) % 2 ^ 32

module _ (t : Timeval) (history : List Packet) where
  -- The bytes that were captured of the flow of a connection, if there is one.
  abbrev captured_of : Option Connection → ℕ
  captured_of none = 0
  captured_of (some c) = captured t (ends c.refpacket) history

  unfoldable pub flows : Cells → List ℕ → ℕ
  flows cells [] = 0
  flows cells (a ∷ l) = captured_of (cells a) + flows cells l

  -- What was captured of each reported process, in the order of the processes.
  unfoldable pub accounts : Cells → List Process → List ℕ
  unfolding flows
  accounts cells [] = []
  accounts cells (p ∷ ps) =
      if ltb t.tv_sec process_timeout || is_live t cells p.connections
      then flows cells p.connections % 2 ^ 32 ∷ accounts cells ps
      else accounts cells ps

  module _ (s : Store) (k : Tracks t.tv_sec s history) (small : t.tv_sec < 2 ^ 31) where
    -- A connection that is stalled holds nothing, and any other holds what was captured.
    figure-captured :
        (a : ℕ)
        → (figure t (sent_of t) (s.cells a) + figure t (recv_of t) (s.cells a)) % 2 ^ 32
          ≡ captured_of (s.cells a)
    figure-captured a = elim (Option-cases (s.cells a)) [
      | inl e ↦ rw e (omega arith)
      | inr (c, e) ↦
          let (last, out, into) = k.timely a c e in
          rw e (elim (Bool-cases (is_stalled c t)) [
            | inl stalled ↦
                let old = is_stalled-period c t last small stalled in
                rw stalled (
                  omega (
                    arith,
                    k.same a c e t (omega arith),
                    window_stale t c.last_packet_time c.sent_packets out old,
                    window_stale t c.last_packet_time c.recv_packets into old,
                  ))
            | inr fresh ↦ rw fresh (
                omega (
                  arith,
                  k.same a c e t (omega arith),
                  sum-window t c.last_packet_time c.sent_packets out,
                  sum-window t c.last_packet_time c.recv_packets into,
                ))
          ])
    ]

    total-flows :
        (l : List ℕ)
        → (total t (sent_of t) s.cells l + total t (recv_of t) s.cells l) % 2 ^ 32
          ≡ flows s.cells l % 2 ^ 32
    unfolding total flows
    total-flows [] = refl
    total-flows (a ∷ l) = omega (arith, figure-captured a, total-flows l)

    pub figures-accounts :
        (ps : List Process) → map bytes_of (figures t s.cells ps) ≡ accounts s.cells ps
    unfolding figures accounts
    figures-accounts [] = refl
    figures-accounts (p ∷ ps) =
        elim (Bool-cases (ltb t.tv_sec process_timeout || is_live t s.cells p.connections)) [
          | inl live ↦
              rw (live, figures-accounts ps)
                (ap (λ n. n ∷ accounts s.cells ps) (omega (arith, total-flows p.connections)))
          | inr dead ↦ rw (dead) (figures-accounts ps)
        ]
