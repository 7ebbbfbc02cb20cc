-- ===== src/Process/Figures.antt =====
-- The figures of the report of na-process.c, described without the loops: which processes are
-- reported, and with what sums.
use gnome_usage.Base.{
  ℕ, ◌+◌, ◌%◌, ◌^◌, ◌≡◌, refl, Bool, true, false, ◌||◌, Option, none, some, List, [], ◌∷◌, arith,
  ltb, if◌then◌else◌,
}
use gnome_usage.Base.Members.{has, has-append, has-cons_self}
use gnome_usage.Packet.{Timeval}
use gnome_usage.Connection.Packets.{packet_list_sum_packets}
use gnome_usage.Connection.{Connection}
use gnome_usage.Process.{Process, ProcInfo, process_timeout, is_stalled}
use gnome_usage.Process.Ownership.{owned}

abbrev pub Cells : Type 0
Cells = ℕ → Option Connection

-- Two memories agree on some addresses.
abbrev pub Agree : (ℕ → Bool) → Cells → Cells → Type 0
Agree at cells cells' = (b : ℕ) → at b ≡ true → cells' b ≡ cells b

module _ (t : Timeval) where
  -- The bytes that the packet lists of a connection still count, by direction.
  abbrev pub recv_of : Connection → ℕ
  recv_of c = (packet_list_sum_packets c.recv_packets t).0

  abbrev pub sent_of : Connection → ℕ
  sent_of c = (packet_list_sum_packets c.sent_packets t).0

  -- A stalled connection counts for nothing.
  abbrev pub figure : (Connection → ℕ) → Option Connection → ℕ
  figure f none = 0
  figure f (some c) = if is_stalled c t then 0 else f c

  unfoldable pub total : (Connection → ℕ) → Cells → List ℕ → ℕ
  total f cells [] = 0
  total f cells (a ∷ l) = figure f (cells a) + total f cells l

  -- Whether a connection has had a packet in the last PROCESSTIMEOUT seconds.
  abbrev pub is_recent : Option Connection → Bool
  is_recent none = false
  is_recent (some c) = ltb t.tv_sec (c.last_packet_time + process_timeout)

  -- A process lives by a recent connection.
  unfoldable pub is_live : Cells → List ℕ → Bool
  is_live cells [] = false
  is_live cells (a ∷ l) = is_recent (cells a) || is_live cells l

  -- One entry for each process that lives, and for all while the clock is below PROCESSTIMEOUT.
  unfoldable pub figures : Cells → List Process → List ProcInfo
  figures cells [] = []
  figures cells (p ∷ ps) =
      if ltb t.tv_sec process_timeout || is_live cells p.connections
      then record {
        name = p.name;
        pid = p.pid;
        sent = total sent_of cells p.connections % 2 ^ 32;
        recv = total recv_of cells p.connections % 2 ^ 32;
      }
        ∷ figures cells ps
      else figures cells ps

  pub total-Agree :
      (f : Connection → ℕ) (cells cells' : Cells) (l : List ℕ)
      → Agree (λ b. has b l) cells cells'
      → total f cells' l ≡ total f cells l
  unfolding total
  total-Agree f cells cells' [] h = refl
  total-Agree f cells cells' (a ∷ l) h =
      rw (h a (has-cons_self a l), total-Agree f cells cells' l (λ b m. h b (ground arith))) refl

  pub is_live-Agree :
      (cells cells' : Cells) (l : List ℕ)
      → Agree (λ b. has b l) cells cells'
      → is_live cells' l ≡ is_live cells l
  unfolding is_live
  is_live-Agree cells cells' [] h = refl
  is_live-Agree cells cells' (a ∷ l) h =
      rw (h a (has-cons_self a l), is_live-Agree cells cells' l (λ b m. h b (ground arith))) refl

  pub figures-Agree :
      (cells cells' : Cells) (ps : List Process)
      → Agree (λ b. has b (owned ps)) cells cells'
      → figures cells' ps ≡ figures cells ps
  unfolding figures
  figures-Agree cells cells' [] h = refl
  figures-Agree cells cells' (p ∷ ps) h =
      rw
        (
          is_live-Agree cells cells' p.connections head,
          total-Agree sent_of cells cells' p.connections head,
          total-Agree recv_of cells cells' p.connections head,
          figures-Agree cells cells' ps tail,
        )
        refl
    where
      head : Agree (λ b. has b p.connections) cells cells'
      head b m = h b (ground (arith, has-append b p.connections (owned ps)))

      tail : Agree (λ b. has b (owned ps)) cells cells'
      tail b m = h b (ground (arith, has-append b p.connections (owned ps)))
