-- ===== src/Tests/Running.antt =====
-- The theorems about connections, processes and the application at concrete inputs.
use gnome_usage.Base.{
  ℕ, zero, suc, ◌/◌, ◌+◌, ◌^◌, ◌||◌, leb, ◌≡◌, refl, true, false, some, [], ◌∷◌, arith,
}
use gnome_usage.Base.Members.{has}
use gnome_usage.Base.Text.{text}
use gnome_usage.Outcome.{Returns}
use gnome_usage.Connection.Packets.{packet_list_sum_packets}
use gnome_usage.Process.{
  State, process_info_get_all, info_loop, process_get_last_packet_time, is_timed_out, is_stalled,
  last_packet_time_loop,
}
use gnome_usage.Store.{deref}
use gnome_usage.Connection.{connection_get_last_packet_time, connection_add_packet}
use gnome_usage.Process.Overflow.{is_stalled-add_packet}
use gnome_usage.Frame.Bytes.{ethernet, frame}
use gnome_usage.Process.Ownership.{owned, Owns}
use gnome_usage.Process.Figures.{figures, is_live, total}
use gnome_usage.Process.Report.{IsInRange, info_get_all-figures}
use gnome_usage.Process.Orphans.{info_loop_orphans}
use gnome_usage.Attribution.{process_find_from_connection}
use gnome_usage.Attribution.Keeps.{Attached, find_from_connection-Attached}
use gnome_usage.Frame.{PktHdr, Memory}
use gnome_usage.Pcap.{PcapHandle, account, pcap_dispatch}
use gnome_usage.Pcap.Push.{IsHeld, pcap_dispatch-IsHeld}
use gnome_usage.Application.Refresh.{Floats, main_loop}
use gnome_usage.Application.{application_init}
use gnome_usage.Application.Timers.{is_quit, IsArmed, method_call, run, run-init-IsArmed}
use gnome_usage.Tests.Context.{slots}
use gnome_usage.Application.Loop.{main_loop-Owns, main_loop-IsSound}
use gnome_usage.Pcap.Flows.{IsSound}
use gnome_usage.Pcap.Counted.{Counted}
use gnome_usage.Pcap.Account.{account-Counted}
use gnome_usage.Store.Single.{IsSingle}
use gnome_usage.Tests.Samples.{
  here, there, at_second, packet_at, ntop, connection, store, process, state, world, readable,
  state-Owns,
}

-- A frame of a new flow, from port 9090.
abbrev pub new_frame : Memory
new_frame = frame ethernet 6 here there 9090 80 (λ i. 0) (λ i. 0) (λ i. 0)

abbrev pub header : PktHdr
header = record { ts = at_second 101; caplen = 54; len = 54 }

abbrev pub handle : PcapHandle
handle = record { linktype = 1; iface = text "eth0" }

abbrev pub floats : Floats
floats = record {
  Double = ℕ;
  Float = ℕ;
  of_uint32 = λ n. n;
  divide = λ a b. a / b;
  to_float = λ a. a;
}

main_loop-Owns_example :
    Returns
      (λ (s', signal). Owns s'.store s'.processes)
      (main_loop floats world (λ h. (header, new_frame) ∷ []) (at_second 102) (handle ∷ []) state)
main_loop-Owns_example =
    main_loop-Owns floats world readable (λ h. (header, new_frame) ∷ []) (at_second 102)
      (handle ∷ []) state state-Owns

state-IsSingle : IsSingle store
state-IsSingle a b e f p q same = ground (arith, p, q)

state-IsSound : IsSound state
state-IsSound = record { owns = state-Owns; single = state-IsSingle }

main_loop-IsSound_example :
    Returns
      (λ (s', signal). IsSound s')
      (main_loop floats world (λ h. (header, new_frame) ∷ []) (at_second 102) (handle ∷ []) state)
main_loop-IsSound_example =
    main_loop-IsSound floats world readable (λ h. (header, new_frame) ∷ []) (at_second 102)
      (handle ∷ []) state state-IsSound

account-Counted_example :
    Returns
      (λ s'. Counted store (packet_at 101 40) s'.store)
      (account world state (packet_at 101 40))
account-Counted_example =
    account-Counted world readable state (packet_at 101 40) state-Owns (refl, refl)

state-IsHeld : IsHeld state
state-IsHeld b h = ground arith

pcap_dispatch-IsHeld_example :
    Returns IsHeld (pcap_dispatch world handle state ((header, new_frame) ∷ []))
pcap_dispatch-IsHeld_example =
    pcap_dispatch-IsHeld world readable handle state ((header, new_frame) ∷ []) state-Owns
      state-IsHeld

state-IsInRange : IsInRange state.store state.processes
state-IsInRange b c m e = ground (arith, e)

-- The report of second 103 counts the 60 bytes of the connection for the process.
figures_test :
    figures (at_second 103) state.store.cells state.processes
    ≡ record { name = some (text "web"); pid = 42; sent = 60; recv = 0 } ∷ []
unfolding figures is_live total packet_list_sum_packets is_stalled connection_get_last_packet_time
figures_test = refl

info_get_all-figures_example :
    Returns
      (λ (state', infos). infos ≡ figures (at_second 103) state.store.cells state.processes)
      (process_info_get_all world (at_second 103) state)
info_get_all-figures_example =
    info_get_all-figures world (at_second 103) state state-Owns state-IsInRange

-- A packet in the first second that an `int` does not hold.
is_stalled-add_packet_example :
    is_stalled
      (connection_add_packet ntop state.local_addresses connection (packet_at (2 ^ 31) 60)).1
      (at_second (2 ^ 31))
    ≡ (leb (2 ^ 31) (2 ^ 31) || leb (2 ^ 31 + 25) (2 ^ 31))
is_stalled-add_packet_example =
    is_stalled-add_packet ntop state.local_addresses connection (packet_at (2 ^ 31) 60)
      (at_second (2 ^ 31)) (omega arith) (omega arith)

-- The state before the process is known: its connection is listed, and no process holds it.
abbrev unattributed : State
unattributed = record state { processes = [] }

unattributed-Owns : Owns unattributed.store unattributed.processes
unattributed-Owns = record { store = state-Owns.store; distinct = tt; backed = λ b h. cc }

find_from_connection-Attached_example :
    Returns
      (λ (s', place). Attached unattributed 0 s')
      (process_find_from_connection world unattributed 0)
find_from_connection-Attached_example =
    find_from_connection-Attached world readable unattributed 0 unattributed-Owns refl refl

info_loop_orphans_example :
    Returns
      (λ (s', ps', infos). (has 0 s'.connections ≡ true) × (has 0 (owned ps') ≡ false))
      (info_loop (at_second 150) store (process ∷ []))
unfolding process_get_last_packet_time is_timed_out last_packet_time_loop deref
    connection_get_last_packet_time
info_loop_orphans_example =
    info_loop_orphans (at_second 150) store process [] 100 0 state-Owns refl refl refl

run-init-IsArmed_example :
    IsArmed slots
      (run slots (application_init slots [] state) (method_call (text "Acknowledge") ∷ []))
run-init-IsArmed_example =
    run-init-IsArmed slots [] state (method_call (text "Acknowledge") ∷ []) no_source
  where
    no_source : (j : ℕ) → is_quit (slots.source [] j) ≡ false
    no_source zero = refl
    no_source (suc j) = refl
