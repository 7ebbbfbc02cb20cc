-- ===== src/Pcap/Captured.antt =====
-- The packets of a handle, in na-pcap.c, are kept for their flows.
use gnome_usage.Base.{
  ℕ, ◌^◌, ◌≤◌, ◌<◌, ◌≡◌, refl, ap, Option, none, some, List, [], ◌∷◌, arith, subst,
}
use gnome_usage.Outcome.{Outcome, ok, Returns, Returns-bind, Returns-mono, Returns-both}
use gnome_usage.Packet.{Packet, Timeval, packet_new_from_ip4, packet_new_from_ip6}
use gnome_usage.Packet.Direction.{IsMade}
use gnome_usage.Frame.{PktHdr, IpAddress, ip4, ip6, Memory, pcap_dispatch_cb}
use gnome_usage.Frame.Cases.{dispatch-cases}
use gnome_usage.Frame.Pushed.{dispatch-ap}
use gnome_usage.Store.History.{Tracks, later}
use gnome_usage.Process.{World, State}
use gnome_usage.Attribution.Keeps.{IsReadable}
use gnome_usage.Pcap.{PcapHandle, make_packet, account, push_packet, pcap_dispatch}
use gnome_usage.Pcap.Push.{account-Keeps}
use gnome_usage.Pcap.Account.{account-Counted}
use gnome_usage.Pcap.Flows.{IsSound, make_packet-IsMade, Counted-IsSingle}
use gnome_usage.Pcap.History.{Counted-Tracks}

-- The packet that is made of a frame, if one is.
pub packet_of : ℕ → PktHdr × Memory → Option Packet
packet_of linktype (header, packet) =
    pcap_dispatch_cb (λ h a s d. some (make_packet h a s d)) none linktype header packet

-- All that is made of the frames, in front of what was there before.
unfoldable pub seen : ℕ → List (PktHdr × Memory) → List Packet → List Packet
unfolding packet_of
seen linktype [] history = history
seen linktype (frame ∷ rest) history =
    seen linktype rest (elim (packet_of linktype frame) [ none ↦ history | some p ↦ p ∷ history ])

-- The second of the last frame, or else the one given.
abbrev pub last_second : ℕ → List (PktHdr × Memory) → ℕ
last_second now [] = now
last_second now ((header, packet) ∷ rest) = last_second header.ts.tv_sec rest

-- The clock does not run backwards, and stays below 2 ^ 31.
abbrev pub IsTimed : ℕ → List (PktHdr × Memory) → Type 0
IsTimed now [] = Unit {0}
IsTimed now ((header, packet) ∷ rest) =
    (now ≤ header.ts.tv_sec) × (header.ts.tv_sec < 2 ^ 31) × IsTimed header.ts.tv_sec rest

make_packet-time : (h : PktHdr) (a : IpAddress) (s d : ℕ) → (make_packet h a s d).time ≡ h.ts
unfolding make_packet packet_new_from_ip4 packet_new_from_ip6
make_packet-time h (ip4 src dst) s d = refl
make_packet-time h (ip6 src dst) s d = refl

-- A sound state that tracks what was captured.
abbrev pub IsTracked : ℕ → List Packet → State → Type 0
IsTracked now history s = IsSound s × Tracks now s.store history

module _ (world : World) (readable : IsReadable world) where
  account-IsTracked :
      (now : ℕ) (history : List Packet) (s : State) (p : Packet)
      → IsMade p
      → now ≤ p.time.tv_sec
      → p.time.tv_sec < 2 ^ 31
      → IsTracked now history s
      → Returns (IsTracked p.time.tv_sec (p ∷ history)) (account world s p)
  account-IsTracked now history s p m l small (sound, k) =
      Returns-mono _ (IsTracked p.time.tv_sec (p ∷ history)) (account world s p)
        (Returns-both _ _ (account world s p) (account-Keeps world readable s p sound.owns)
          (account-Counted world readable s p sound.owns m))
        λ s' (kept, counted). (
          record {
            owns = kept.0;
            single = Counted-IsSingle s.store s'.store p counted sound.single;
          },
          Counted-Tracks now s.store s'.store p history k counted sound.single l small,
        )

  -- What is done with a frame is done with the packet that is made of it.
  act : State → Option Packet → Outcome State
  act s none = ok s
  act s (some p) = account world s p

  act-packet_of :
      (s : State) (linktype : ℕ) (header : PktHdr) (packet : Memory)
      → act s (packet_of linktype (header, packet))
        ≡ pcap_dispatch_cb (push_packet world s) (ok s) linktype header packet
  unfolding act packet_of push_packet
  act-packet_of s linktype header packet = dispatch-ap (act s) _ none linktype header packet

  -- A packet that is made of a frame has the frame's time.
  abbrev IsOf : PktHdr → Option Packet → Type 0
  IsOf header none = Unit {0}
  IsOf header (some p) = IsMade p × (p.time ≡ header.ts)

  packet_of-IsOf :
      (linktype : ℕ) (header : PktHdr) (packet : Memory)
      → IsOf header (packet_of linktype (header, packet))
  unfolding packet_of
  packet_of-IsOf linktype header packet =
      dispatch-cases _ none (IsOf header) header
        (λ a s d. (make_packet-IsMade header a s d, make_packet-time header a s d)) tt linktype
        packet

  act-IsTracked :
      (now : ℕ) (history : List Packet) (s : State) (header : PktHdr) (found : Option Packet)
      → now ≤ header.ts.tv_sec
      → header.ts.tv_sec < 2 ^ 31
      → IsTracked now history s
      → IsOf header found
      → Returns
          (IsTracked header.ts.tv_sec (elim found [ none ↦ history | some p ↦ p ∷ history ]))
          (act s found)
  unfolding act
  act-IsTracked now history s header none l small (sound, k) u =
      (sound, later now header.ts.tv_sec s.store history l k)
  act-IsTracked now history s header (some p) l small tracked (m, time) =
      let second : p.time.tv_sec ≡ header.ts.tv_sec = ap (λ (t : Timeval). t.tv_sec) time in
      subst (λ n. Returns (IsTracked n (p ∷ history)) (account world s p)) second
        (account-IsTracked now history s p m (omega arith) (omega arith) tracked)

  -- Whatever frames a handle delivers, in the order of their times: each packet that is made of one is
  -- kept for its flow.
  pub pcap_dispatch-IsTracked :
      (handle : PcapHandle) (now : ℕ) (history : List Packet) (s : State)
      (frames : List (PktHdr × Memory))
      → IsTimed now frames
      → IsTracked now history s
      → Returns
          (IsTracked (last_second now frames) (seen handle.linktype frames history))
          (pcap_dispatch world handle s frames)
  unfolding pcap_dispatch seen
  pcap_dispatch-IsTracked handle now history s [] timed tracked = tracked
  pcap_dispatch-IsTracked handle now history s ((header, packet) ∷ rest) (l, small, timed) tracked =
      Returns-bind _ _ (pcap_dispatch_cb (push_packet world s) (ok s) handle.linktype header packet)
        _
        (subst (Returns _) (act-packet_of s handle.linktype header packet) (
          act-IsTracked now history s header _ l small tracked
            (packet_of-IsOf handle.linktype header packet)))
        λ s' tracked'. pcap_dispatch-IsTracked handle header.ts.tv_sec _ s' rest timed tracked'
