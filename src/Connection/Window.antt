-- ===== src/Connection/Window.antt =====
-- What the packet lists of na-connection.c promise: the bytes of the last PERIOD seconds, whatever
-- was merged and cut on the way.
use gnome_usage.Base.{
  ℕ, ◌+◌, ◌%◌, ◌^◌, ◌≤◌, ◌<◌, ◌≡◌, refl, ap, ◌∙◌, List, [], ◌∷◌, arith, ltb, if◌then◌else◌,
}
use gnome_usage.Packet.{Packet, Timeval}
use gnome_usage.Connection.Packets.{
  PacketList, period, packet_list_new, packet_list_add_packet, packet_list_sum_packets,
  sum_packets_loop,
}

-- The packets less than PERIOD seconds old, all their bytes, with no wrap-around.
unfoldable pub window : Timeval → List Packet → ℕ
window t [] = 0
window t (p ∷ ps) = (if ltb t.tv_sec (p.time.tv_sec + period) then p.len else 0) + window t ps

-- Seconds fall along the list, from `now` at most.
abbrev pub IsOrdered : ℕ → PacketList → Type 0
IsOrdered now [] = Unit {0}
IsOrdered now (p ∷ ps) = (p.time.tv_sec ≤ now) × IsOrdered p.time.tv_sec ps

pub IsOrdered-mono : (m n : ℕ) (ps : PacketList) → m ≤ n → IsOrdered m ps → IsOrdered n ps
IsOrdered-mono m n [] h o = tt
IsOrdered-mono m n (p ∷ ps) h o = (omega arith, o.1)

-- Once stale, a list that is ordered stays so to its end.
pub window_stale :
    (t : Timeval) (now : ℕ) (ps : PacketList)
    → IsOrdered now ps
    → now + period ≤ t.tv_sec
    → window t ps ≡ 0
unfolding window
window_stale t now [] o h = refl
window_stale t now (p ∷ ps) o h = ground (arith, window_stale t p.time.tv_sec ps o.1)

module _ (t : Timeval) where
  loop-window :
      (total now : ℕ) (ps : PacketList)
      → IsOrdered now ps
      → total < 2 ^ 32
      → (sum_packets_loop total ps t).0 ≡ (total + window t ps) % 2 ^ 32
  unfolding sum_packets_loop window
  loop-window total now [] o h = omega arith
  loop-window total now (p ∷ ps) o h = ground (
    arith,
    loop-window ((total + p.len) % 2 ^ 32) p.time.tv_sec ps o.1,
    window_stale t p.time.tv_sec ps o.1,
  )

  -- What is cut is stale at every later time too.
  pub loop_keeps-window :
      (u : Timeval) (total now : ℕ) (ps : PacketList)
      → IsOrdered now ps
      → t.tv_sec ≤ u.tv_sec
      → window u (sum_packets_loop total ps t).1 ≡ window u ps
  unfolding sum_packets_loop window
  loop_keeps-window u total now [] o h = refl
  loop_keeps-window u total now (p ∷ ps) o h = ground (
    arith,
    loop_keeps-window u ((total + p.len) % 2 ^ 32) p.time.tv_sec ps o.1,
    window_stale u p.time.tv_sec ps o.1,
  )

  pub loop-IsOrdered :
      (total now : ℕ) (ps : PacketList)
      → IsOrdered now ps
      → IsOrdered now (sum_packets_loop total ps t).1
  unfolding sum_packets_loop
  loop-IsOrdered total now [] o = tt
  loop-IsOrdered total now (p ∷ ps) o =
      ground (arith, loop-IsOrdered ((total + p.len) % 2 ^ 32) p.time.tv_sec ps o.1)

pub add-window :
    (u : Timeval) (p : Packet) (ps : PacketList)
    → window u (packet_list_add_packet ps p) % 2 ^ 32 ≡ window u (p ∷ ps) % 2 ^ 32
unfolding packet_list_add_packet window
add-window u p [] = refl
add-window u p (q ∷ ps) = ground arith

pub add-IsOrdered :
    (now : ℕ) (p : Packet) (ps : PacketList)
    → IsOrdered now ps
    → now ≤ p.time.tv_sec
    → IsOrdered p.time.tv_sec (packet_list_add_packet ps p)
unfolding packet_list_add_packet
add-IsOrdered now p [] o h = (omega arith, tt)
add-IsOrdered now p (q ∷ ps) o h = ground arith

-- What happens to a packet list: a packet is added, or its bytes are asked for.
pub data Event : Type 0 where
  add : Packet → Event
  sum : Timeval → Event

abbrev second : Event → ℕ
second (add p) = p.time.tv_sec
second (sum t) = t.tv_sec

-- The clock does not run backwards.
abbrev pub IsTimely : ℕ → List Event → Type 0
IsTimely now [] = Unit {0}
IsTimely now (e ∷ es) = (now ≤ second e) × IsTimely (second e) es

-- The answers of the code, and those of a clerk who keeps every packet.
unfoldable pub answers : PacketList → List Event → List ℕ
answers ps [] = []
answers ps (add p ∷ es) = answers (packet_list_add_packet ps p) es
answers ps (sum t ∷ es) =
    (packet_list_sum_packets ps t).0 ∷ answers (packet_list_sum_packets ps t).1 es

pub true_answers : List Packet → List Event → List ℕ
true_answers history [] = []
true_answers history (add p ∷ es) = true_answers (p ∷ history) es
true_answers history (sum t ∷ es) = (window t history % 2 ^ 32) ∷ true_answers history es

-- The list stands for a history: it is ordered, and its windows from now on are the history's.
record StandsFor (now : ℕ) (ps : PacketList) (history : List Packet) : Type 0 where
  ordered : IsOrdered now ps
  same : (u : Timeval) → now ≤ u.tv_sec → window u ps % 2 ^ 32 ≡ window u history % 2 ^ 32

module _ {now : ℕ} {ps : PacketList} {history : List Packet} (s : StandsFor now ps history) where
  StandsFor-add :
      (p : Packet)
      → now ≤ p.time.tv_sec
      → StandsFor p.time.tv_sec (packet_list_add_packet ps p) (p ∷ history)
  unfolding window
  StandsFor-add p h = record {
    ordered = add-IsOrdered now p ps s.ordered h;
    same = λ u k. add-window u p ps ∙ ground (arith, s.same u);
  }

  StandsFor-sum :
      (t : Timeval) → now ≤ t.tv_sec → StandsFor t.tv_sec (packet_list_sum_packets ps t).1 history
  unfolding packet_list_sum_packets
  StandsFor-sum t h = record {
    ordered =
        IsOrdered-mono now t.tv_sec (sum_packets_loop 0 ps t).1 h
          (loop-IsOrdered t 0 now ps s.ordered);
    same = λ u k.
        ap (λ n. n % 2 ^ 32) (loop_keeps-window t u 0 now ps s.ordered k) ∙ s.same u (omega arith);
  }

pub sum-window :
    (t : Timeval) (now : ℕ) (ps : PacketList)
    → IsOrdered now ps
    → (packet_list_sum_packets ps t).0 ≡ window t ps % 2 ^ 32
unfolding packet_list_sum_packets
sum-window t now ps o = ground (arith, loop-window t 0 now ps o)

answers-StandsFor :
    (now : ℕ) (ps : PacketList) (history : List Packet) (es : List Event)
    → StandsFor now ps history
    → IsTimely now es
    → answers ps es ≡ true_answers history es
unfolding answers true_answers
answers-StandsFor now ps history [] s h = refl
answers-StandsFor now ps history (add p ∷ es) s h =
    answers-StandsFor p.time.tv_sec (packet_list_add_packet ps p) (p ∷ history) es
      (StandsFor-add s p h.0) h.1
answers-StandsFor now ps history (sum t ∷ es) s h = cc (
  sum-window t now ps s.ordered,
  s.same t h.0,
  answers-StandsFor t.tv_sec (packet_list_sum_packets ps t).1 history es (StandsFor-sum s t h.0)
      h.1,
)

-- From the empty list, through any additions and sums whose seconds never run backwards, each sum
-- is the number of bytes of all packets added so far that are less than PERIOD seconds old, modulo
-- 2 ^ 32: merging packets of one second and cutting the list off lose nothing.
pub answers-true_answers :
    (es : List Event) → IsTimely 0 es → answers packet_list_new es ≡ true_answers [] es
unfolding packet_list_new
answers-true_answers es h =
    answers-StandsFor 0 [] [] es (record { ordered = tt; same = λ u k. refl }) h
