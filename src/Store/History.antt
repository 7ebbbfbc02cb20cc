-- ===== src/Store/History.antt =====
-- The connections of na-connection.c against a list of all packets that were captured, newest first:
-- what their packet lists hold of the last PERIOD seconds.
use gnome_usage.Base.{
  ℕ, ◌+◌, ◌%◌, ◌^◌, ◌≤◌, ◌≡◌, refl, sym, ap, ◌∙◌, subst, true, none, some, List, [], ◌∷◌, ◌==◌,
  arith, if◌then◌else◌, inl, inr, Bool-cases,
}
use gnome_usage.Packet.{Packet, Timeval}
use gnome_usage.Packet.Flow.{Ends, ends, same_flow, same_flow_sym, same_flow_trans}
use gnome_usage.Connection.{Connection, connection_sum_packets}
use gnome_usage.Connection.Packets.{period, packet_list_sum_packets}
use gnome_usage.Connection.Window.{
  window, window_stale, IsOrdered, loop_keeps-window, loop-IsOrdered,
}
use gnome_usage.Store.{Store, write, assign}
use gnome_usage.Store.Single.{ends_at, ends_of, IsUnknown}

-- The packets of a flow, of both directions.
unfoldable pub of_flow : Ends → List Packet → List Packet
of_flow e [] = []
of_flow e (p ∷ ps) = if same_flow e (ends p) then p ∷ of_flow e ps else of_flow e ps

-- The bytes that a connection's lists hold of the last PERIOD seconds, of both directions.
abbrev pub windows : Timeval → Connection → ℕ
windows t c = window t c.sent_packets + window t c.recv_packets

-- The bytes of a flow that were captured in the last PERIOD seconds, as 32-bit sums have them.
abbrev pub captured : Timeval → Ends → List Packet → ℕ
captured t e history = window t (of_flow e history) % 2 ^ 32

-- No time of a connection is later than its last one.
abbrev pub IsTimely : ℕ → Connection → Type 0
IsTimely now c =
    (c.last_packet_time ≤ now)
    × IsOrdered c.last_packet_time c.sent_packets
    × IsOrdered c.last_packet_time c.recv_packets

-- From `now` on, each connection holds what was captured of its flow, and nothing was captured of a
-- flow without a connection.
pub record Tracks (now : ℕ) (s : Store) (history : List Packet) : Type 0 where
  pub timely : (b : ℕ) (c : Connection) → s.cells b ≡ some c → IsTimely now c
  pub same :
      (b : ℕ) (c : Connection)
      → s.cells b ≡ some c
      → (t : Timeval) → now ≤ t.tv_sec
      → windows t c % 2 ^ 32 ≡ captured t (ends c.refpacket) history
  pub unseen :
      (e : Ends) → IsUnknown s e → (t : Timeval) → now ≤ t.tv_sec → captured t e history ≡ 0

pub later :
    (now next : ℕ) (s : Store) (history : List Packet)
    → now ≤ next
    → Tracks now s history
    → Tracks next s history
later now next s history h k = record {
  timely = λ b c e. let (last, out, into) = k.timely b c e in (omega arith, out, into);
  same = λ b c e t l. k.same b c e t (omega arith);
  unseen = λ e u t l. k.unseen e u t (omega arith);
}

-- The two sides of a flow have the same packets.
pub of_flow-same :
    (e f : Ends) (ps : List Packet) → same_flow e f ≡ true → of_flow e ps ≡ of_flow f ps
unfolding of_flow
of_flow-same e f [] h = refl
of_flow-same e f (p ∷ ps) h = ground (
  arith,
  of_flow-same e f ps h,
  same_flow_sym e f,
  same_flow_trans f e (ends p),
  same_flow_trans e f (ends p),
)

module _ (t : Timeval) (s : Store) (history : List Packet) (k : Tracks t.tv_sec s history) (a : ℕ)
    (c : Connection) (here : s.cells a ≡ some c) where
  cut : Connection
  unfolding connection_sum_packets packet_list_sum_packets
  cut = (connection_sum_packets c t).0

  cut-IsTimely : IsTimely t.tv_sec cut
  unfolding cut
  cut-IsTimely =
      let (last, out, into) = k.timely a c here in
      (
        last,
        loop-IsOrdered t 0 c.last_packet_time c.sent_packets out,
        loop-IsOrdered t 0 c.last_packet_time c.recv_packets into,
      )

  windows-cut : (u : Timeval) → t.tv_sec ≤ u.tv_sec → windows u cut ≡ windows u c
  unfolding cut
  windows-cut u l =
      let (last, out, into) = k.timely a c here in
      omega (
        arith,
        loop_keeps-window t u 0 c.last_packet_time c.sent_packets out l,
        loop_keeps-window t u 0 c.last_packet_time c.recv_packets into l,
      )

  ends-cut : (b : ℕ) → ends_at (assign s a cut) b ≡ ends_at s b
  unfolding assign write cut
  ends-cut b = elim (Bool-cases (b == a)) [
    | inl same ↦
        let path : b ≡ a = ground arith in rw same (sym (ap ends_of (ap s.cells path ∙ here)))
    | inr other ↦ rw other refl
  ]

  -- A connection whose lists are cut by a report holds as much as before, from then on.
  pub sum-Tracks : Tracks t.tv_sec (assign s a (connection_sum_packets c t).0) history
  unfolding assign write cut
  sum-Tracks = record {
    timely = λ b d e. elim (Bool-cases (b == a)) [
      | inl same ↦
          let path : cut ≡ d = cc (rw same at e) in subst (IsTimely t.tv_sec) path cut-IsTimely
      | inr other ↦ k.timely b d (rw other at e)
    ];
    same = λ b d e u l. elim (Bool-cases (b == a)) [
      | inl same ↦
          let path : cut ≡ d = cc (rw same at e) in
          subst (λ d. windows u d % 2 ^ 32 ≡ captured u (ends d.refpacket) history) path
            (ap (λ n. n % 2 ^ 32) (windows-cut u l) ∙ k.same a c here u l)
      | inr other ↦ k.same b d (rw other at e) u l
    ];
    unseen = λ e unknown. k.unseen e (λ b f q. unknown b f (ends-cut b ∙ q));
  }

  -- A connection that is freed held nothing any more, if its last packet is older than PERIOD.
  pub free-Tracks :
      (s' : Store)
      → ((b : ℕ) → s'.cells b ≡ (if b == a then none else s.cells b))
      → c.last_packet_time + period ≤ t.tv_sec
      → Tracks t.tv_sec s' history
  free-Tracks s' gone old = record {
    timely = λ b d e. k.timely b d (older b d e);
    same = λ b d e. k.same b d (older b d e);
    unseen = λ e unknown u l. elim (Bool-cases (same_flow e (ends c.refpacket))) [
      | inl mine ↦
          ap (λ ps. window u ps % 2 ^ 32) (of_flow-same e (ends c.refpacket) history mine)
          ∙ sym (k.same a c here u l)
          ∙ ap (λ n. n % 2 ^ 32) (empty u l)
      | inr not_mine ↦
          k.unseen e
            (λ b f q. elim (Bool-cases (b == a)) [
              | inl same ↦
                  let path : b ≡ a = ground arith in
                  let its : ends c.refpacket ≡ f =
                    cc (sym (ap ends_of (ap s.cells path ∙ here)) ∙ q) in
                  ap (same_flow e) (sym its) ∙ not_mine
              | inr other ↦ unknown b f (ap ends_of (gone b ∙ rw other refl) ∙ q)
            ])
            u l
    ];
  }
    where
      older : (b : ℕ) (d : Connection) → s'.cells b ≡ some d → s.cells b ≡ some d
      older b d e = ground (arith, gone b)

      empty : (u : Timeval) → t.tv_sec ≤ u.tv_sec → windows u c ≡ 0
      empty u l =
          let (last, out, into) = k.timely a c here in
          omega (
            arith,
            window_stale u c.last_packet_time c.sent_packets out,
            window_stale u c.last_packet_time c.recv_packets into,
          )
