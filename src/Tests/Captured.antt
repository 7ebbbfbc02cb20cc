-- ===== src/Tests/Captured.antt =====
-- The first round of the main loop at a concrete input: a frame of the sample's host.
use gnome_usage.Base.{◌≡◌, [], ◌∷◌, List, map, arith}
use gnome_usage.Outcome.{ok, Returns}
use gnome_usage.Process.{State, ProcInfo}
use gnome_usage.Process.Accounts.{bytes_of, accounts}
use gnome_usage.Pcap.Captured.{IsTracked}
use gnome_usage.Application.System.{initial_state}
use gnome_usage.Application.Refresh.{dispatch_loop, main_loop}
use gnome_usage.Application.Announced.{announcement}
use gnome_usage.Application.Captured.{seen_all, main_loop-captured, initial_state-IsTracked}
use gnome_usage.Application.Rounds.{Round, rounds, seen_by, rounds-captured}
use gnome_usage.Base.Text.{text}
use gnome_usage.Frame.{PktHdr, Memory}
use gnome_usage.Pcap.{PcapHandle}
use gnome_usage.Tests.Samples.{at_second, world, readable}
use gnome_usage.Tests.Running.{floats, handle, header, new_frame}

abbrev one_frame : PcapHandle → List (PktHdr × Memory)
one_frame h = (header, new_frame) ∷ []

main_loop-captured_example :
    Returns
      (λ (s', signal).
        IsTracked 102 (seen_all one_frame (handle ∷ []) []) s'
        × ((s₁ : State) × (infos : List ProcInfo) × (dispatch_loop floats world one_frame
                (handle ∷ [])
                initial_state
              ≡ ok s₁)
            × (signal ≡ announcement floats infos)
            × (map bytes_of infos
                ≡ accounts
                    (at_second 102)
                    (seen_all one_frame (handle ∷ []) [])
                    s₁.store.cells
                    s₁.processes)))
      (main_loop floats world one_frame (at_second 102) (handle ∷ []) initial_state)
unfolding initial_state
main_loop-captured_example =
    main_loop-captured floats world one_frame readable (at_second 102) (handle ∷ []) 101 []
      initial_state ((omega arith, omega arith, tt), tt) (omega arith) (omega arith)
      (initial_state-IsTracked [] 101)

-- A silent round before that one.
abbrev silent_round : Round
silent_round = record { delivered = λ h. []; now = at_second 101 }

abbrev frame_round : Round
frame_round = record { delivered = one_frame; now = at_second 102 }

rounds-captured_example :
    Returns
      (λ s.
        Returns
          (λ (s', signal).
            (s₁ : State) × (infos : List ProcInfo) × (dispatch_loop floats world one_frame
                (handle ∷ [])
                s
              ≡ ok s₁)
            × (signal ≡ announcement floats infos)
            × (map bytes_of infos
                ≡ accounts
                    (at_second 102)
                    (seen_all one_frame
                      (handle ∷ [])
                      (seen_by (handle ∷ []) (silent_round ∷ []) []))
                    s₁.store.cells
                    s₁.processes))
          (main_loop floats world one_frame (at_second 102) (handle ∷ []) s))
      (rounds
        (handle ∷ [])
        floats
        world
        (record initial_state { local_addresses = text "10.0.0.1" ∷ [] })
        (silent_round ∷ []))
rounds-captured_example =
    rounds-captured (handle ∷ []) floats world readable (text "10.0.0.1" ∷ []) 100
      (silent_round ∷ []) frame_round ((tt, tt), omega arith, omega arith, tt)
      (((omega arith, omega arith, tt), tt), omega arith, omega arith, tt)
