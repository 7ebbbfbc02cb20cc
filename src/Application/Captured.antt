-- ===== src/Application/Captured.antt =====
-- What na-application.c announces, in terms of the packets that were captured.
use gnome_usage.Base.{ℕ, ◌+◌, ◌^◌, ◌≤◌, ◌<◌, ◌≡◌, refl, ap, ◌∙◌, List, [], ◌∷◌, map, arith}
use gnome_usage.Outcome.{
  ok, Returns, Returns-bind, Returns-mono, Returns-eq, Returns-both, Returns-Yields,
}
use gnome_usage.Base.Text.{Text}
use gnome_usage.Packet.{Packet, Timeval}
use gnome_usage.Store.History.{later, of_flow}
use gnome_usage.Connection.Window.{window}
use gnome_usage.Process.{ProcInfo, World, State, process_timeout, process_info_get_all}
use gnome_usage.Process.Report.{info_get_all-figures}
use gnome_usage.Process.History.{info_get_all-history}
use gnome_usage.Process.Accounts.{bytes_of, accounts, figures-accounts}
use gnome_usage.Attribution.Keeps.{IsReadable}
use gnome_usage.Frame.{PktHdr, Memory}
use gnome_usage.Pcap.{PcapHandle, pcap_dispatch}
use gnome_usage.Pcap.Flows.{info_get_all-IsSound}
use gnome_usage.Pcap.Captured.{seen, last_second, IsTimed, IsTracked, pcap_dispatch-IsTracked}
use gnome_usage.Application.System.{initial_state}
use gnome_usage.Application.Refresh.{Floats, do_refresh, dispatch_loop, main_loop}
use gnome_usage.Application.Announced.{announcement, signal-announcement}

module _ (delivered : PcapHandle → List (PktHdr × Memory)) where
  -- The packets of all handles, one handle after the other, in front of those before.
  unfoldable pub seen_all : List PcapHandle → List Packet → List Packet
  seen_all [] history = history
  seen_all (handle ∷ rest) history = seen_all rest (seen handle.linktype (delivered handle) history)

  abbrev pub last_of_all : ℕ → List PcapHandle → ℕ
  last_of_all now [] = now
  last_of_all now (handle ∷ rest) = last_of_all (last_second now (delivered handle)) rest

  -- The times of all frames do not run backwards, and stay below 2 ^ 31.
  abbrev pub AreTimed : ℕ → List PcapHandle → Type 0
  AreTimed now [] = Unit {0}
  AreTimed now (handle ∷ rest) =
      IsTimed now (delivered handle) × AreTimed (last_second now (delivered handle)) rest

module _ (floats : Floats) (world : World) (delivered : PcapHandle → List (PktHdr × Memory))
    (readable : IsReadable world) where
  dispatch_loop-IsTracked :
      (handles : List PcapHandle) (now : ℕ) (history : List Packet) (s : State)
      → AreTimed delivered now handles
      → IsTracked now history s
      → Returns
          (IsTracked (last_of_all delivered now handles) (seen_all delivered handles history))
          (dispatch_loop floats world delivered handles s)
  unfolding dispatch_loop seen_all
  dispatch_loop-IsTracked [] now history s timed tracked = tracked
  dispatch_loop-IsTracked (handle ∷ rest) now history s (first, timed) tracked =
      Returns-bind _ _ (pcap_dispatch world handle s (delivered handle)) _
        (pcap_dispatch-IsTracked world readable handle now history s (delivered handle) first
          tracked)
        λ s' tracked'. dispatch_loop-IsTracked rest _ _ s' timed tracked'

  -- What the report says of a state that tracks what was captured, and what it leaves.
  report-IsTracked :
      (t : Timeval) (history : List Packet) (s : State)
      → t.tv_sec + process_timeout < 2 ^ 31
      → IsTracked t.tv_sec history s
      → Returns
          (λ (s', infos).
            IsTracked t.tv_sec history s'
            × (map bytes_of infos ≡ accounts t history s.store.cells s.processes))
          (process_info_get_all world t s)
  report-IsTracked t history s early (sound, k) =
      Returns-mono _ _ (process_info_get_all world t s)
        (Returns-both _ _ (process_info_get_all world t s)
          (Returns-Yields _ _ (process_info_get_all world t s)
            (info_get_all-IsSound world t s sound)
            (info_get_all-history t (omega arith) history world s k))
          (info_get_all-figures world t s sound.owns
            λ b c m e. let (last, out, into) = k.timely b c e in omega arith))
        λ (s', infos) ((sound', k'), f). (
          (sound', k'),
          ap (map bytes_of) f ∙ figures-accounts t history s.store k (omega arith) s.processes,
        )

  -- The announced figures are what was captured. Given a state whose connections are listed, allocated,
  -- held by one process at most and one for each flow, and hold of each flow what was captured of it,
  -- /proc that can be listed, and frames and a clock whose seconds do not run backwards and stay below
  -- 2 ^ 31 with PROCESSTIMEOUT added: one round of the main loop ends in such a state again, with the
  -- round's packets among the captured ones, and it announces one entry for each process that is
  -- reported, whose bytes of both directions are those captured in the last PERIOD seconds of the flows
  -- of the process's connections, modulo 2 ^ 32.
  pub main_loop-captured :
      (t : Timeval) (handles : List PcapHandle) (now : ℕ) (history : List Packet) (s : State)
      → AreTimed delivered now handles
      → last_of_all delivered now handles ≤ t.tv_sec
      → t.tv_sec + process_timeout < 2 ^ 31
      → IsTracked now history s
      → Returns
          (λ (s', signal).
            IsTracked t.tv_sec (seen_all delivered handles history) s'
            × ((s₁ : State) × (infos : List ProcInfo) × (dispatch_loop floats world delivered
                    handles s
                  ≡ ok s₁)
                × (signal ≡ announcement floats infos)
                × (map bytes_of infos
                    ≡ accounts t (seen_all delivered handles history) s₁.store.cells s₁.processes)))
          (main_loop floats world delivered t handles s)
  unfolding main_loop do_refresh
  main_loop-captured t handles now history s timed past early tracked =
      Returns-bind _ _ (dispatch_loop floats world delivered handles s) _
        (Returns-eq _ (dispatch_loop floats world delivered handles s)
          (dispatch_loop-IsTracked handles now history s timed tracked))
        λ s₁ (e, (sound, k)).
          Returns-bind _ _ (process_info_get_all world t s₁) _
            (report-IsTracked t (seen_all delivered handles history) s₁ early
              (sound, later _ t.tv_sec s₁.store (seen_all delivered handles history) past k))
            λ (s', infos) (tracked', f).
              (tracked', (s₁, infos, e, signal-announcement floats infos, f))

-- The state that the program starts in, with the local addresses that it then finds, has captured
-- nothing.
pub initial_state-IsTracked :
    (local_addresses : List Text) (now : ℕ)
    → IsTracked now [] (record initial_state { local_addresses = local_addresses })
unfolding initial_state of_flow window
initial_state-IsTracked local_addresses now = (
  record {
    owns = record {
      store = record { listed = λ a. refl; fresh = λ a h. refl; distinct = tt };
      distinct = tt;
      backed = λ b h. absurd (cc);
    };
    single = λ a b e f p q same. absurd (cc);
  },
  record { timely = λ b c e. absurd (cc); same = λ b c e. absurd (cc); unseen = λ e u t l. refl },
)
