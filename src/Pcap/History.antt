-- ===== src/Pcap/History.antt =====
-- A packet of na-pcap.c is kept for the flow that it is of, among all packets that were captured.
use gnome_usage.Base.{
  ℕ, ◌+◌, ◌%◌, ◌^◌, ◌≤◌, ◌<◌, ◌≡◌, refl, sym, ap, ◌∙◌, subst, true, false, Option, none, some, List,
  [], ◌∷◌, ◌==◌, arith, ◌⊎◌, inl, inr, Bool-cases,
}
use gnome_usage.Packet.{Packet, Timeval}
use gnome_usage.Packet.Flow.{Ends, ends, same_flow, same_flow_sym, same_flow_trans}
use gnome_usage.Connection.{Connection}
use gnome_usage.Connection.Packets.{packet_list_new, packet_list_add_packet}
use gnome_usage.Connection.Window.{window, IsOrdered, IsOrdered-mono, add-window, add-IsOrdered}
use gnome_usage.Store.{Store}
use gnome_usage.Store.Single.{ends_at, ends_of, IsUnknown, IsSingle}
use gnome_usage.Store.History.{of_flow, windows, captured, IsTimely, Tracks}
use gnome_usage.Pcap.Counted.{Counted, Content, sent_list, recv_list}

-- One more packet counts for its own flow, and for no other.
captured-mine :
    (t : Timeval) (e : Ends) (p : Packet) (history : List Packet)
    → same_flow e (ends p) ≡ true
    → captured t e (p ∷ history) ≡ (window t (p ∷ []) + captured t e history) % 2 ^ 32
unfolding of_flow window
captured-mine t e p history h = rw h (omega arith)

captured-other :
    (t : Timeval) (e : Ends) (p : Packet) (history : List Packet)
    → same_flow e (ends p) ≡ false
    → captured t e (p ∷ history) ≡ captured t e history
unfolding of_flow
captured-other t e p history h = rw h refl

abbrev held : Timeval → Option Connection → ℕ
held t old = window t (sent_list old) + window t (recv_list old)

-- The lists with the packet hold its bytes too.
Content-windows :
    (t : Timeval) (old : Option Connection) (p : Packet) (c : Connection)
    → Content old p c
    → windows t c % 2 ^ 32 ≡ (window t (p ∷ []) + held t old) % 2 ^ 32
unfolding window
Content-windows t old p c (d, last, inl (sent, recv)) =
    rw (sent, recv) (omega (arith, add-window t (record p { dir = d }) (sent_list old)))
Content-windows t old p c (d, last, inr (sent, recv)) =
    rw (sent, recv) (omega (arith, add-window t (record p { dir = d }) (recv_list old)))

-- What a connection, if there is one, holds is in order.
abbrev IsTimely? : ℕ → Option Connection → Type 0
IsTimely? now none = Unit {0}
IsTimely? now (some c) = IsTimely now c

-- Both lists are in order up to one time.
lists-IsOrdered :
    (now : ℕ) (old : Option Connection)
    → IsTimely? now old
    → (n : ℕ) × (n ≤ now) × IsOrdered n (sent_list old) × IsOrdered n (recv_list old)
unfolding packet_list_new
lists-IsOrdered now none k = (0, omega arith, tt, tt)
lists-IsOrdered now (some c) (last, out, into) = (c.last_packet_time, last, out, into)

Content-IsTimely :
    (now : ℕ) (old : Option Connection) (p : Packet) (c : Connection)
    → now ≤ p.time.tv_sec
    → p.time.tv_sec < 2 ^ 31
    → IsTimely? now old
    → Content old p c
    → IsTimely p.time.tv_sec c
Content-IsTimely now old p c l small k (d, last, lists) =
    subst (λ n. (n ≤ p.time.tv_sec) × IsOrdered n c.sent_packets × IsOrdered n c.recv_packets)
      (sym at) (omega arith, (both lists).0, (both lists).1)
  where
    at : c.last_packet_time ≡ p.time.tv_sec
    at = omega arith

    new : Packet
    new = record p { dir = d }

    both :
        ((c.sent_packets ≡ packet_list_add_packet (sent_list old) new)
            × (c.recv_packets ≡ recv_list old))
          ⊎ ((c.sent_packets ≡ sent_list old)
              × (c.recv_packets ≡ packet_list_add_packet (recv_list old) new))
        → IsOrdered p.time.tv_sec c.sent_packets × IsOrdered p.time.tv_sec c.recv_packets
    both (inl (sent, recv)) =
        let (n, early, out, into) = lists-IsOrdered now old k in
        rw (sent, recv)
          (
            add-IsOrdered n new (sent_list old) out (omega arith),
            IsOrdered-mono n p.time.tv_sec (recv_list old) (omega arith) into,
          )
    both (inr (sent, recv)) =
        let (n, early, out, into) = lists-IsOrdered now old k in
        rw (sent, recv)
          (
            IsOrdered-mono n p.time.tv_sec (sent_list old) (omega arith) out,
            add-IsOrdered n new (recv_list old) into (omega arith),
          )

module _ (now : ℕ) (s s' : Store) (p : Packet) (history : List Packet) (k : Tracks now s history)
    (counted : Counted s p s') (single : IsSingle s) (l : now ≤ p.time.tv_sec)
    (small : p.time.tv_sec < 2 ^ 31) where
  open counted use {place, after, here, ours, content, others, known}

  old-IsTimely : (old : Option Connection) → s.cells place ≡ old → IsTimely? now old
  old-IsTimely none e = tt
  old-IsTimely (some c) e = k.timely place c e

  IsUnknown-after : IsUnknown s (ends p) → IsUnknown s (ends after.refpacket)
  IsUnknown-after u b g q = elim (Bool-cases (same_flow (ends after.refpacket) g)) [
    | inl shared ↦
        absurd (cc (u b g q, same_flow_trans (ends p) (ends after.refpacket) g ours shared))
    | inr other ↦ other
  ]

  -- What was captured of the packet's flow before is held at its place.
  held-place :
      (t : Timeval)
      → now ≤ t.tv_sec
      → held t (s.cells place) % 2 ^ 32 ≡ captured t (ends after.refpacket) history
  unfolding packet_list_new window
  held-place t later = by_cell (s.cells place) refl known
    where
      by_cell :
          (old : Option Connection)
          → s.cells place ≡ old
          → (ends_of old ≡ some (ends after.refpacket)) ⊎ ((old ≡ none) × IsUnknown s (ends p))
          → held t old % 2 ^ 32 ≡ captured t (ends after.refpacket) history
      by_cell none e (inl q) = absurd (cc)
      by_cell none e (inr (z, u)) =
          sym (k.unseen (ends after.refpacket) (IsUnknown-after u) t later)
      by_cell (some c) e (inl q) =
          let path : ends c.refpacket ≡ ends after.refpacket = cc in
          k.same place c e t later ∙ ap (λ g. captured t g history) path
      by_cell (some c) e (inr (z, u)) = absurd (cc)

  -- A connection at another place is of another flow.
  elsewhere :
      (b : ℕ) (c : Connection)
      → (b == place) ≡ false
      → s.cells b ≡ some c
      → same_flow (ends c.refpacket) (ends p) ≡ false
  elsewhere b c other e = elim (Bool-cases (same_flow (ends c.refpacket) (ends p))) [
    | inl shared ↦ absurd (clash shared known)
    | inr no_flow ↦ no_flow
  ]
    where
      clash :
          same_flow (ends c.refpacket) (ends p) ≡ true
          → (ends_at s place ≡ some (ends after.refpacket))
            ⊎ ((s.cells place ≡ none) × IsUnknown s (ends p))
          → ⊥
      clash shared (inl q) =
          let path =
            single b place (ends c.refpacket) (ends after.refpacket) (ap ends_of e) q
              (same_flow_trans (ends c.refpacket) (ends p) (ends after.refpacket) shared ours) in
          ground (arith, path)
      clash shared (inr (z, u)) =
          cc (u b (ends c.refpacket) (ap ends_of e), same_flow_sym (ends c.refpacket) (ends p))

  at_place : (b : ℕ) (c : Connection) → (b == place) ≡ true → s'.cells b ≡ some c → after ≡ c
  at_place b c same e =
      let at : b ≡ place = ground arith in cc (sym here ∙ ap s'.cells (sym at) ∙ e)

  before :
      (b : ℕ) (c : Connection) → (b == place) ≡ false → s'.cells b ≡ some c → s.cells b ≡ some c
  before b c other e = sym (others b other) ∙ e

  windows-after :
      (t : Timeval)
      → now ≤ t.tv_sec
      → windows t after % 2 ^ 32 ≡ captured t (ends after.refpacket) (p ∷ history)
  windows-after t later =
      Content-windows t (s.cells place) p after content
      ∙ omega (arith, held-place t later)
      ∙ sym (
          captured-mine t (ends after.refpacket) p history
            (same_flow_sym (ends after.refpacket) (ends p) ∙ ours))

  IsUnknown-before : (e : Ends) → IsUnknown s' e → IsUnknown s e
  IsUnknown-before e unknown b g q = elim (Bool-cases (b == place)) [
    | inl same ↦ let at : b ≡ place = ground arith in from known (sym (ap (ends_at s) at) ∙ q)
    | inr other ↦ unknown b g (ap ends_of (others b other) ∙ q)
  ]
    where
      from :
          (ends_at s place ≡ some (ends after.refpacket))
            ⊎ ((s.cells place ≡ none) × IsUnknown s (ends p))
          → ends_at s place ≡ some g
          → same_flow e g ≡ false
      from (inl r) q' =
          let path : ends after.refpacket ≡ g = cc (sym r ∙ q') in
          ap (same_flow e) (sym path) ∙ unknown place (ends after.refpacket) (ap ends_of here)
      from (inr (z, u)) q' = absurd (cc (sym (ap ends_of z) ∙ q'))

  IsUnknown-other : (e : Ends) → IsUnknown s' e → same_flow e (ends p) ≡ false
  IsUnknown-other e unknown = elim (Bool-cases (same_flow e (ends p))) [
    | inl shared ↦ absurd (
        cc (
          unknown place (ends after.refpacket) (ap ends_of here),
          same_flow_trans e (ends p) (ends after.refpacket) shared ours,
        ))
    | inr other ↦ other
  ]

  pub Counted-Tracks : Tracks p.time.tv_sec s' (p ∷ history)
  Counted-Tracks = record {
    timely = λ b c e. elim (Bool-cases (b == place)) [
      | inl same ↦ subst (IsTimely p.time.tv_sec) (at_place b c same e) (
          Content-IsTimely now (s.cells place) p after l small (old-IsTimely (s.cells place) refl)
            content)
      | inr other ↦
          let (last, out, into) = k.timely b c (before b c other e) in (omega arith, out, into)
    ];
    same = λ b c e t later. elim (Bool-cases (b == place)) [
      | inl same ↦
          subst (λ c. windows t c % 2 ^ 32 ≡ captured t (ends c.refpacket) (p ∷ history))
            (at_place b c same e) (windows-after t (omega arith))
      | inr other ↦
          k.same b c (before b c other e) t (omega arith)
          ∙ sym (
              captured-other t (ends c.refpacket) p history
                (elsewhere b c other (before b c other e)))
    ];
    unseen = λ e unknown t later.
        captured-other t e p history (IsUnknown-other e unknown)
        ∙ k.unseen e (IsUnknown-before e unknown) t (omega arith);
  }
