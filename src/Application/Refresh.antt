-- ===== src/Application/Refresh.antt =====
-- `main_loop_cb` and `do_refresh` of network-analyzer/na-application.c. What libpcap delivers, the
-- clock and the floating-point operations are arguments.
use gnome_usage.Base.{ℕ, Option, none, some, List, [], ◌∷◌, map}
use gnome_usage.Base.Text.{Text}
use gnome_usage.Outcome.{Outcome, ok, ◌>>=◌}
use gnome_usage.Packet.{Timeval}
use gnome_usage.Connection.Packets.{period}
use gnome_usage.Process.{ProcInfo, World, State, process_info_get_all}
use gnome_usage.Frame.{PktHdr, Memory}
use gnome_usage.Pcap.{PcapHandle, pcap_dispatch}

-- The floating-point operations of `tokbps`.
pub record Floats : Type 1 where
  pub Double : Type 0
  pub Float : Type 0
  pub of_uint32 : ℕ → Double
  pub divide : Double → ℕ → Double
  pub to_float : Double → Float

-- One entry of the `UsageChanged` signal, "(sidd)".
pub record Usage (Rate : Type 0) : Type 0 where
  pub name : Option Text
  pub pid : ℕ
  pub recv_rate : Rate
  pub sent_rate : Rate

module _ (floats : Floats) where
  open floats use {Double, Float, of_uint32, divide, to_float}

  unfoldable pub tokbps : ℕ → Float
  tokbps bytes = to_float (divide (divide (of_uint32 bytes) period) 1024)

  unfoldable pub usage : ProcInfo → Usage Float
  usage info = record {
    name = info.name;
    pid = info.pid;
    recv_rate = tokbps info.recv;
    sent_rate = tokbps info.sent;
  }

  -- The state after the report and the signal, if one is emitted.
  unfoldable pub do_refresh :
      World → Timeval → State → Outcome (State × Option (List (Usage Float)))
  do_refresh world t state = do
    (state', proc_info) ← process_info_get_all world t state
    ok (state', elim proc_info [ [] ↦ none | info ∷ rest ↦ some (map usage (info ∷ rest)) ])

  -- The loop over the handles in `main_loop_cb`: libpcap delivers some packets on each.
  unfoldable pub dispatch_loop :
      World → (PcapHandle → List (PktHdr × Memory)) → List PcapHandle → State → Outcome State
  dispatch_loop world delivered [] state = ok state
  dispatch_loop world delivered (handle ∷ rest) state = do
    state' ← pcap_dispatch world handle state (delivered handle)
    dispatch_loop world delivered rest state'

  -- `main_loop_cb`
  unfoldable pub main_loop :
      World
      → (PcapHandle → List (PktHdr × Memory))
      → Timeval
      → List PcapHandle
      → State
      → Outcome (State × Option (List (Usage Float)))
  main_loop world delivered t iface_handles state = do
    state' ← dispatch_loop world delivered iface_handles state
    do_refresh world t state'
