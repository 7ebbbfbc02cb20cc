-- ===== src/Application/Loop.antt =====
-- The main loop of na-application.c: packets from every handle, then the report.
use gnome_usage.Base.{List, [], ◌∷◌}
use gnome_usage.Outcome.{Returns, Returns-bind}
use gnome_usage.Packet.{Timeval}
use gnome_usage.Process.{World, State, process_info_get_all}
use gnome_usage.Process.Ownership.{Owns, info_get_all-Owns}
use gnome_usage.Attribution.Keeps.{IsReadable}
use gnome_usage.Frame.{PktHdr, Memory}
use gnome_usage.Pcap.{PcapHandle, pcap_dispatch}
use gnome_usage.Pcap.Push.{pcap_dispatch-Owns}
use gnome_usage.Pcap.Flows.{IsSound, pcap_dispatch-IsSound, info_get_all-IsSound}
use gnome_usage.Application.Refresh.{Floats, do_refresh, dispatch_loop, main_loop}

module _ (floats : Floats) (world : World) (readable : IsReadable world)
    (delivered : PcapHandle → List (PktHdr × Memory)) where
  pub dispatch_loop-Owns :
      (handles : List PcapHandle) (s : State)
      → Owns s.store s.processes
      → Returns (λ s'. Owns s'.store s'.processes) (dispatch_loop floats world delivered handles s)
  unfolding dispatch_loop
  dispatch_loop-Owns [] s o = o
  dispatch_loop-Owns (handle ∷ rest) s o =
      Returns-bind _ (λ s'. Owns s'.store s'.processes)
        (pcap_dispatch world handle s (delivered handle)) _
        (pcap_dispatch-Owns world readable handle s (delivered handle) o) (dispatch_loop-Owns rest)

  -- One round of the main loop, from processes that hold distinct connections, all listed and
  -- allocated, always ends, whatever packets arrive on whatever handles and whatever the clock says,
  -- as long as /proc can be listed: it reads no freed connection, and afterwards the processes again
  -- hold distinct connections, all listed and allocated.
  pub main_loop-Owns :
      (t : Timeval) (handles : List PcapHandle) (s : State)
      → Owns s.store s.processes
      → Returns
          (λ (s', signal). Owns s'.store s'.processes)
          (main_loop floats world delivered t handles s)
  unfolding main_loop do_refresh
  main_loop-Owns t handles s o =
      Returns-bind _ (λ (s', signal). Owns s'.store s'.processes)
        (dispatch_loop floats world delivered handles s) _ (dispatch_loop-Owns handles s o)
        λ s₁ o₁.
          Returns-bind _ (λ (s', signal). Owns s'.store s'.processes)
            (process_info_get_all world t s₁) _ (info_get_all-Owns world t s₁ o₁)
            λ (s', infos) o'. o'

  dispatch_loop-IsSound :
      (handles : List PcapHandle) (s : State)
      → IsSound s
      → Returns IsSound (dispatch_loop floats world delivered handles s)
  unfolding dispatch_loop
  dispatch_loop-IsSound [] s h = h
  dispatch_loop-IsSound (handle ∷ rest) s h =
      Returns-bind IsSound IsSound (pcap_dispatch world handle s (delivered handle)) _
        (pcap_dispatch-IsSound world readable handle s (delivered handle) h)
        (dispatch_loop-IsSound rest)

  -- The list of connections has one connection at most for each flow (the two ends by their ports and
  -- IPv4 addresses, either way round): one round of the main loop, where /proc can be listed, keeps
  -- this, with the distinct, listed and allocated connections of the processes, through whatever
  -- packets on whatever handles and through the report.
  pub main_loop-IsSound :
      (t : Timeval) (handles : List PcapHandle) (s : State)
      → IsSound s
      → Returns (λ (s', signal). IsSound s') (main_loop floats world delivered t handles s)
  unfolding main_loop do_refresh
  main_loop-IsSound t handles s h =
      Returns-bind _ (λ (s', signal). IsSound s') (dispatch_loop floats world delivered handles s) _
        (dispatch_loop-IsSound handles s h)
        λ s₁ h₁.
          Returns-bind _ (λ (s', signal). IsSound s') (process_info_get_all world t s₁) _
            (info_get_all-IsSound world t s₁ h₁) λ (s', infos) h'. h'
