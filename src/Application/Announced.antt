-- ===== src/Application/Announced.antt =====
-- What na-application.c announces after the packets of one round.
use gnome_usage.Base.{ℕ, ◌≡◌, refl, ap, ◌∙◌, Option, none, some, List, [], ◌∷◌, map, All}
use gnome_usage.Outcome.{ok, Returns, Returns-bind, Returns-eq, Yields, Yields-bind, Returns-Yields}
use gnome_usage.Packet.{Packet, Timeval, packet_new_from_ip4, packet_new_from_ip6}
use gnome_usage.Connection.{Connection}
use gnome_usage.Store.Every.{Every, IsKept}
use gnome_usage.Store.Early.{IsEarly, IsEarly-IsKept}
use gnome_usage.Process.{ProcInfo, World, State, process_info_get_all}
use gnome_usage.Process.Every.{info_get_all-Every}
use gnome_usage.Process.Figures.{figures}
use gnome_usage.Process.Ownership.{Owns}
use gnome_usage.Process.Report.{info_get_all-figures}
use gnome_usage.Attribution.Keeps.{IsReadable}
use gnome_usage.Frame.{ip4, ip6, PktHdr, Memory}
use gnome_usage.Pcap.{PcapHandle, make_packet, pcap_dispatch}
use gnome_usage.Pcap.Every.{IsCaptured, Makes, pcap_dispatch-Every}
use gnome_usage.Application.Refresh.{
  Floats, Usage, usage, tokbps, do_refresh, dispatch_loop, main_loop,
}
use gnome_usage.Application.Loop.{dispatch_loop-Owns}

make_packet-IsEarly : Makes (λ header. IsEarly header.ts.tv_sec) (λ p. IsEarly p.time.tv_sec)
unfolding make_packet packet_new_from_ip4 packet_new_from_ip6
make_packet-IsEarly header (ip4 src dst) s d h fit small small' = h
make_packet-IsEarly header (ip6 src dst) s d h fit small small' = h

module _ (floats : Floats) where
  -- Bytes in five seconds as kilobytes in one.
  abbrev pub rate : ℕ → floats.Float
  rate bytes = floats.to_float (floats.divide (floats.divide (floats.of_uint32 bytes) 5) 1024)

  -- What the signal has to say of a process: its name and pid, the rate of what it received, and
  -- that of what it sent.
  abbrev pub entry : ProcInfo → Usage floats.Float
  entry info = record {
    name = info.name;
    pid = info.pid;
    recv_rate = rate info.recv;
    sent_rate = rate info.sent;
  }

  -- No signal for no entries, and otherwise one signal of them all.
  abbrev pub announcement : List ProcInfo → Option (List (Usage floats.Float))
  announcement [] = none
  announcement (info ∷ rest) = some (map entry (info ∷ rest))

  usages : (infos : List ProcInfo) → map (usage floats) infos ≡ map entry infos
  unfolding usage tokbps
  usages [] = refl
  usages (info ∷ rest) = ap (λ us. entry info ∷ us) (usages rest)

  pub signal-announcement :
      (infos : List ProcInfo)
      → elim infos [ [] ↦ none | info ∷ rest ↦ some (map (usage floats) (info ∷ rest)) ]
        ≡ announcement infos
  signal-announcement [] = refl
  signal-announcement (info ∷ rest) = ap some (usages (info ∷ rest))

module _ (floats : Floats) (world : World) (delivered : PcapHandle → List (PktHdr × Memory)) where
  dispatch_loop-Every :
      (R : Packet → Type 0) (Q : Connection → Type 0) (H : PktHdr → Type 0)
      → IsKept world.ntop R Q
      → Makes H R
      → (handles : List PcapHandle) (s : State)
      → All (λ handle. All (IsCaptured H) (delivered handle)) handles
      → Every Q s.store
      → Yields (λ s'. Every Q s'.store) (dispatch_loop floats world delivered handles s)
  unfolding dispatch_loop
  dispatch_loop-Every R Q H kept makes [] s captured every = every
  dispatch_loop-Every R Q H kept makes (handle ∷ rest) s (here, captured) every =
      Yields-bind _ (λ s'. Every Q s'.store) (pcap_dispatch world handle s (delivered handle)) _
        (pcap_dispatch-Every world R Q kept H makes handle s (delivered handle) here every)
        λ s' e. dispatch_loop-Every R Q H kept makes rest s' captured e

  main_loop-Every :
      (R : Packet → Type 0) (Q : Connection → Type 0) (H : PktHdr → Type 0)
      → IsKept world.ntop R Q
      → Makes H R
      → (t : Timeval) (handles : List PcapHandle) (s : State)
      → All (λ handle. All (IsCaptured H) (delivered handle)) handles
      → Every Q s.store
      → Yields (λ (s', signal). Every Q s'.store) (main_loop floats world delivered t handles s)
  unfolding main_loop do_refresh
  main_loop-Every R Q H kept makes t handles s captured every =
      Yields-bind _ (λ (s', signal). Every Q s'.store)
        (dispatch_loop floats world delivered handles s) _
        (dispatch_loop-Every R Q H kept makes handles s captured every)
        λ s₁ e.
          Yields-bind _ (λ (s', signal). Every Q s'.store) (process_info_get_all world t s₁) _
            (info_get_all-Every world R Q kept t s₁ e) λ (s', infos) e'. e'

  module _ (readable : IsReadable world) where
    -- The signal of one round: where the processes hold distinct connections, all listed and allocated,
    -- /proc can be listed, and the times of the connections and of what libpcap delivers, bytes behind
    -- headers, stay below 2 ^ 31 with PROCESSTIMEOUT added, the round comes to its end, and what is
    -- announced are the figures of the state that the round's packets lead to: nothing if there are
    -- none, and otherwise one signal with an entry for each, in their order: its name and pid, and the
    -- bytes received and the bytes sent, each divided by PERIOD and by 1024.
    pub main_loop-figures :
        (t : Timeval) (handles : List PcapHandle) (s : State)
        → All
            (λ handle. All (IsCaptured (λ header. IsEarly header.ts.tv_sec)) (delivered handle))
            handles
        → Owns s.store s.processes
        → Every (λ c. IsEarly c.last_packet_time) s.store
        → Returns
            (λ (s', signal).
              (s₁ : State) × (dispatch_loop floats world delivered handles s ≡ ok s₁)
              × (signal ≡ announcement floats (figures t s₁.store.cells s₁.processes)))
            (main_loop floats world delivered t handles s)
    unfolding main_loop do_refresh
    main_loop-figures t handles s captured o every =
        Returns-bind _ _ (dispatch_loop floats world delivered handles s) _
          (Returns-eq _ (dispatch_loop floats world delivered handles s) (
            Returns-Yields _ _ (dispatch_loop floats world delivered handles s)
              (dispatch_loop-Owns floats world readable delivered handles s o)
              (dispatch_loop-Every _ _ _ (IsEarly-IsKept world.ntop) make_packet-IsEarly handles s
                captured every)))
          λ s₁ (e, (o₁, early)).
            Returns-bind _ _ (process_info_get_all world t s₁) _
              (info_get_all-figures world t s₁ o₁ λ b c m f. early b c f)
              λ (s', infos) f.
                (s₁, e, signal-announcement floats infos ∙ ap (announcement floats) f)
