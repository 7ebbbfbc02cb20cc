-- ===== src/Application/Rounds.antt =====
-- The rounds of na-application.c one after the other, from the start of the program.
use gnome_usage.Base.{ℕ, ◌+◌, ◌^◌, ◌≤◌, ◌<◌, ◌≡◌, List, [], ◌∷◌, map}
use gnome_usage.Base.Text.{Text}
use gnome_usage.Outcome.{Outcome, ok, Returns, Returns-bind, Returns-mono, ◌>>=◌}
use gnome_usage.Packet.{Packet, Timeval}
use gnome_usage.Process.{ProcInfo, World, State, process_timeout}
use gnome_usage.Process.Accounts.{bytes_of, accounts}
use gnome_usage.Attribution.Keeps.{IsReadable}
use gnome_usage.Frame.{PktHdr, Memory}
use gnome_usage.Pcap.{PcapHandle}
use gnome_usage.Pcap.Captured.{IsTracked}
use gnome_usage.Application.System.{initial_state}
use gnome_usage.Application.Refresh.{Floats, dispatch_loop, main_loop}
use gnome_usage.Application.Announced.{announcement}
use gnome_usage.Application.Captured.{
  seen_all, last_of_all, AreTimed, main_loop-captured, initial_state-IsTracked,
}

-- What one round brings: the frames of each handle and the time of the report.
pub record Round : Type 0 where
  pub delivered : PcapHandle → List (PktHdr × Memory)
  pub now : Timeval

module _ (handles : List PcapHandle) where
  -- The clock does not run backwards from round to round, and stays below 2 ^ 31 with PROCESSTIMEOUT
  -- added.
  abbrev pub IsTimely : ℕ → List Round → Type 0
  IsTimely second [] = Unit {0}
  IsTimely second (r ∷ rest) =
      AreTimed r.delivered second handles
      × (last_of_all r.delivered second handles ≤ r.now.tv_sec)
      × (r.now.tv_sec + process_timeout < 2 ^ 31)
      × IsTimely r.now.tv_sec rest

  -- All packets of the rounds.
  unfoldable pub seen_by : List Round → List Packet → List Packet
  seen_by [] history = history
  seen_by (r ∷ rest) history = seen_by rest (seen_all r.delivered handles history)

  abbrev pub last_round : ℕ → List Round → ℕ
  last_round second [] = second
  last_round second (r ∷ rest) = last_round r.now.tv_sec rest

  module _ (floats : Floats) (world : World) where
    -- The rounds, one after the other.
    unfoldable pub rounds : State → List Round → Outcome State
    rounds s [] = ok s
    rounds s (r ∷ rest) = do
      (s', signal) ← main_loop floats world r.delivered r.now handles s
      rounds s' rest

    module _ (readable : IsReadable world) where
      rounds-IsTracked :
          (rs : List Round) (second : ℕ) (history : List Packet) (s : State)
          → IsTimely second rs
          → IsTracked second history s
          → Returns (IsTracked (last_round second rs) (seen_by rs history)) (rounds s rs)
      unfolding rounds seen_by
      rounds-IsTracked [] second history s timely tracked = tracked
      rounds-IsTracked (r ∷ rest) second history s (timed, past, early, timely) tracked =
          Returns-bind _ _ (main_loop floats world r.delivered r.now handles s) _
            (main_loop-captured floats world r.delivered readable r.now handles second history s
              timed past early tracked)
            λ (s', signal) (tracked', f). rounds-IsTracked rest _ _ s' timely tracked'

      -- From the start of the program, with whatever local addresses and handles, after any number of
      -- rounds and in the next one: nothing faults or aborts, and the signal has one entry for each
      -- process that is reported, whose bytes of both directions are those captured in the last PERIOD
      -- seconds, in this round or before, of the flows of the process's connections, modulo 2 ^ 32.
      -- The conditions: /proc can be listed, and the seconds of all frames and reports do not run
      -- backwards and stay below 2 ^ 31 with PROCESSTIMEOUT added.
      pub rounds-captured :
          (local_addresses : List Text) (second : ℕ) (rs : List Round) (r : Round)
          → IsTimely second rs
          → IsTimely (last_round second rs) (r ∷ [])
          → Returns
              (λ s.
                Returns
                  (λ (s', signal).
                    (s₁ : State) × (infos : List ProcInfo) × (dispatch_loop floats world r.delivered
                        handles s
                      ≡ ok s₁)
                    × (signal ≡ announcement floats infos)
                    × (map bytes_of infos
                        ≡ accounts r.now
                            (seen_all r.delivered handles (seen_by rs []))
                            s₁.store.cells
                            s₁.processes))
                  (main_loop floats world r.delivered r.now handles s))
              (rounds (record initial_state { local_addresses = local_addresses }) rs)
      rounds-captured local_addresses second rs r timely (timed, past, early, end) =
          Returns-mono _ _ (rounds (record initial_state { local_addresses = local_addresses }) rs)
            (rounds-IsTracked rs second [] _ timely
              (initial_state-IsTracked local_addresses second))
            λ s tracked.
              Returns-mono _ _ (main_loop floats world r.delivered r.now handles s)
                (main_loop-captured floats world r.delivered readable r.now handles
                  (last_round second rs) (seen_by rs []) s timed past early tracked)
                λ (s', signal) (tracked', told). told
