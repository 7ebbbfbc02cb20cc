-- ===== src/Application/System.antt =====
-- The service of na-application.c as a whole: what it starts from, what reaches it from outside, and
-- the callbacks that GLib's main loop makes as the seconds pass.
use gnome_usage.Base.{
  ℕ, suc, ◌+◌, ◌≡◌, ◌≤◌, true, false, Option, none, some, List, [], ◌∷◌, ◌==◌, if◌then◌else◌,
}
use gnome_usage.Base.Members.{has}
use gnome_usage.Outcome.{Outcome, ok, ◌>>=◌}
use gnome_usage.Packet.{Timeval}
use gnome_usage.Process.{World, State}
use gnome_usage.Frame.{PktHdr, Memory}
use gnome_usage.Pcap.{PcapHandle}
use gnome_usage.Application.{
  Callback, quit_timeout_cb, main_loop_cb, Source, MainContext, Application, quit_timeout,
}
use gnome_usage.Application.Refresh.{Floats, main_loop}
use gnome_usage.Application.Timers.{Event, run}

-- The static variables before the program runs.
unfoldable pub initial_state : State
initial_state = record {
  local_addresses = [];
  store = record { cells = λ a. none; next = 0; connections = [] };
  processes = [];
  conninode = [];
  inodeproc = [];
  reads = 0;
}

-- GLib's main context as the seconds pass, by its documentation: `left` is how many seconds there are
-- until a source is due, `due` are the sources whose callbacks the next second brings. The first
-- interval of a source that is added can deviate by up to one second from the one asked for. That a
-- source which is due is called before the next second assumes that no callback holds the loop up.
pub record Clock : Type 1 where
  pub main : MainContext
  open main use {Context, source, add_seconds, remove}
  pub left : Context → ℕ → Option ℕ
  pub due : Context → List ℕ
  pub turn : Context → Context
  pub left-add :
      (c : Context) (s : Source)
      → (n : ℕ) × (left (add_seconds c s).0 (add_seconds c s).1 ≡ some n)
        × (s.seconds ≤ n + 1)
        × (n ≤ s.seconds + 1)
  pub left-add_other :
      (c : Context) (s : Source) (j : ℕ)
      → (j == (add_seconds c s).1) ≡ false
      → left (add_seconds c s).0 j ≡ left c j
  pub left-remove :
      (c : Context) (i j : ℕ) → left (remove c i) j ≡ (if j == i then none else left c j)
  pub source-turn : (c : Context) (j : ℕ) → source (turn c) j ≡ source c j
  pub left-turn :
      (c : Context) (j n : ℕ) → left c j ≡ some (suc (suc n)) → left (turn c) j ≡ some (suc n)
  pub due-left : (c : Context) (j n : ℕ) → left c j ≡ some n → n ≤ 1 → has j (due c) ≡ true
  pub not_due-left : (c : Context) (j n : ℕ) → left c j ≡ some (suc (suc n)) → has j (due c) ≡ false

-- What one second brings from outside: calls and bus events at its beginning, and the packets and the
-- time of day that its callbacks find.
pub record Second : Type 0 where
  pub events : List Event
  pub delivered : PcapHandle → List (PktHdr × Memory)
  pub now : Timeval

module _ (clock : Clock) (floats : Floats) (world : World) where
  open clock use {main, due, turn}

  -- One callback.
  unfoldable pub fire : Second → Application main → Callback → Outcome (Application main)
  fire second a quit_timeout_cb = ok (quit_timeout main a)
  fire second a main_loop_cb = do
    (state, signal) ← main_loop floats world second.delivered second.now a.iface_handles a.state
    ok (record a { state = state })

  unfoldable pub fire_source :
      Second → Application main → Option Source → Outcome (Application main)
  fire_source second a none = ok a
  fire_source second a (some s) = fire second a s.callback

  -- The callbacks of the sources that are due, until the program quits.
  unfoldable pub fire_all : Second → Application main → List ℕ → Outcome (Application main)
  fire_all second a [] = ok a
  fire_all second a (j ∷ rest) =
      let fired = do a' ← fire_source second a (main.source a.context j); fire_all second a' rest
      in if a.is_running then fired else ok a

  -- The events of a second reach the program, and then the second passes; a program that has quit
  -- does nothing more.
  unfoldable pub pass : Application main → Second → Outcome (Application main)
  pass a second =
      let b = run main a second.events in
      let passed = fire_all second (record b { context = turn b.context }) (due b.context) in
      if a.is_running then passed else ok a

  unfoldable pub pass_all : Application main → List Second → Outcome (Application main)
  pass_all a [] = ok a
  pass_all a (second ∷ rest) = do a' ← pass a second; pass_all a' rest
