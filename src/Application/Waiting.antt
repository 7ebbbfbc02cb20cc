-- ===== src/Application/Waiting.antt =====
-- The quit timer of na-application.c while the program waits: what each event and each second that
-- passes leaves of it.
use gnome_usage.Base.{
  ℕ, ◌+◌, ◌-◌, ◌≡◌, ◌≤◌, refl, ap, ◌∙◌, Bool, true, false, ◌&&◌, not, some, List, [], ◌∷◌, arith,
  ltb, if◌then◌else◌, inl, inr, Bool-cases,
}
use gnome_usage.Base.Int.{pos, negsuc}
use gnome_usage.Base.Text.{text, text_beq}
use gnome_usage.Packet.{InetNtop}
use gnome_usage.Process.{State}
use gnome_usage.Pcap.{PcapLib}
use gnome_usage.Pcap.Flows.{IsSound}
use gnome_usage.Application.{
  main_loop_cb, Source, Application, quit_timeout_duration, refresh_delay_property, other_property,
  reset_quit_timeout, handle_method_call, on_bus_acquired, on_name_acquired, on_name_lost,
  application_set_property, application_set_refresh_delay, application_init, application_activate,
}
use gnome_usage.Application.Network.{Device}
use gnome_usage.Application.Timers.{
  Event, method_call, bus_acquired, name_acquired, name_lost, property_set, IsArmed, step, run,
  step-IsArmed, reset-IsArmed, run-init-IsArmed, disarmed, is_quit, quit_source,
}
use gnome_usage.Application.System.{initial_state, Clock, Second}

abbrev pub is_acknowledge : Event → Bool
is_acknowledge (method_call name) = text_beq name (text "Acknowledge")
is_acknowledge bus_acquired = false
is_acknowledge name_acquired = false
is_acknowledge name_lost = false
is_acknowledge (property_set property value) = false

-- The first interval that GLib gives to the quit timer: five seconds, or one more or less.
abbrev pub soonest : ℕ
soonest = quit_timeout_duration - 1

abbrev pub latest : ℕ
latest = quit_timeout_duration + 1

-- The seconds left for a quit timer behind the events of one second, if it is set to `k`.
unfoldable pub left_after : ℕ → List Event → ℕ → ℕ
left_after k [] n = n
left_after k (e ∷ es) n = left_after k es (if is_acknowledge e then k else n)

unfoldable pub is_silent : List Event → Bool
is_silent [] = true
is_silent (e ∷ es) = not (is_acknowledge e) && is_silent es

-- Whether a timer that is set to `k` at each Acknowledge, with `n` seconds to go now, never comes
-- due.
unfoldable pub lasts : ℕ → ℕ → List Second → Bool
lasts k n [] = true
lasts k n (second ∷ rest) = let m = left_after k second.events n in ltb 1 m && lasts k (m - 1) rest

module _ (clock : Clock) where
  open clock use {
    main, left, left-add, left-add_other, due, turn, source-turn, left-turn, due-left, not_due-left,
  }
  open main use {source, add_seconds, add_unused}

  -- The quit timer is set, with from `lo` to `hi` seconds to go, and the static state is sound.
  pub record Waits (a : Application main) (lo hi : ℕ) : Type 0 where
    pub armed : IsArmed main a
    pub seconds : ℕ
    pub to_go : left a.context a.quit_timeout_id ≡ some seconds
    pub above : lo ≤ seconds
    pub below : seconds ≤ hi
    pub sound : IsSound a.state

  reset-left :
      (a : Application main)
      → (n : ℕ) × (left
            (reset_quit_timeout main a).context
            (reset_quit_timeout main a).quit_timeout_id
          ≡ some n)
        × (soonest ≤ n)
        × (n ≤ latest)
  unfolding reset_quit_timeout
  reset-left a =
      let (n, e, above, below) = left-add (disarmed main a) quit_source in
      (n, e, omega (arith, above), omega (arith, below))

  pub reset-Waits :
      (a : Application main) (lo hi : ℕ)
      → Waits a lo hi
      → Waits (reset_quit_timeout main a) soonest latest
  unfolding reset_quit_timeout
  reset-Waits a lo hi w =
      let (n, e, above, below) = reset-left a in
      record {
        armed = (reset-IsArmed main a w.armed.consistent).0;
        seconds = n;
        to_go = e;
        above = above;
        below = below;
        sound = w.sound;
      }

  -- The timer is not touched.
  keep :
      (a a' : Application main) (lo hi : ℕ) (w : Waits a lo hi)
      → IsArmed main a'
      → left a'.context a'.quit_timeout_id ≡ left a.context a.quit_timeout_id
      → IsSound a'.state
      → Waits a' lo hi
  keep a a' lo hi w armed same sound = record {
    armed = armed;
    seconds = w.seconds;
    to_go = same ∙ w.to_go;
    above = w.above;
    below = w.below;
    sound = sound;
  }

  pub step-Waits :
      (a : Application main) (lo hi : ℕ) (e : Event)
      → Waits a lo hi
      → Waits
          (step main a e)
          (if is_acknowledge e then soonest else lo)
          (if is_acknowledge e then latest else hi)
  unfolding step handle_method_call on_bus_acquired on_name_acquired on_name_lost
      application_set_property application_set_refresh_delay
  step-Waits a lo hi (method_call name) w = elim (Bool-cases (text_beq name (text "Acknowledge"))) [
    | inl acknowledged ↦ rw acknowledged (reset-Waits a lo hi w)
    | inr other ↦ rw other w
  ]
  step-Waits a lo hi bus_acquired w =
      keep a _ lo hi w (step-IsArmed main a bus_acquired w.armed) refl w.sound
  step-Waits a lo hi name_acquired w =
      let refresh : Source = record { callback = main_loop_cb; seconds = a.refresh_delay } in
      keep a _ lo hi w (step-IsArmed main a name_acquired w.armed)
        (left-add_other a.context refresh a.quit_timeout_id
          (ground (arith, add_unused a.context refresh, w.armed.set)))
        w.sound
  step-Waits a lo hi name_lost w = w
  step-Waits a lo hi (property_set refresh_delay_property (pos k)) w =
      keep a _ lo hi w (step-IsArmed main a (property_set refresh_delay_property (pos k)) w.armed)
        refl w.sound
  step-Waits a lo hi (property_set refresh_delay_property (negsuc k)) w =
      keep a _ lo hi w
        (step-IsArmed main a (property_set refresh_delay_property (negsuc k)) w.armed) refl w.sound
  step-Waits a lo hi (property_set other_property value) w = w

  pub run-Waits :
      (a : Application main) (lo hi : ℕ) (es : List Event)
      → Waits a lo hi
      → Waits (run main a es) (left_after soonest es lo) (left_after latest es hi)
  unfolding run left_after
  run-Waits a lo hi [] w = w
  run-Waits a lo hi (e ∷ es) w = run-Waits (step main a e) _ _ es (step-Waits a lo hi e w)

  pub IsArmed-state :
      (a : Application main) (state : State)
      → IsArmed main a
      → IsArmed main (record a { state = state })
  IsArmed-state a state armed = record {
    consistent = armed.consistent;
    nonzero = armed.nonzero;
    set = armed.set;
  }

  -- The seconds that pass leave the sources as they are.
  pub turn-IsArmed :
      (a : Application main) → IsArmed main a → IsArmed main (record a { context = turn a.context })
  turn-IsArmed a armed = record {
    consistent = λ j. ap is_quit (source-turn a.context j) ∙ armed.consistent j;
    nonzero = armed.nonzero;
    set = source-turn a.context a.quit_timeout_id ∙ armed.set;
  }

  pub step-is_running :
      (a : Application main) (e : Event) → (step main a e).is_running ≡ a.is_running
  unfolding step handle_method_call reset_quit_timeout on_bus_acquired on_name_acquired on_name_lost
      application_set_property application_set_refresh_delay
  step-is_running a (method_call name) = elim (Bool-cases (text_beq name (text "Acknowledge"))) [
    | inl acknowledged ↦ simp acknowledged
    | inr other ↦ simp other
  ]
  step-is_running a bus_acquired = refl
  step-is_running a name_acquired = refl
  step-is_running a name_lost = refl
  step-is_running a (property_set refresh_delay_property (pos k)) = refl
  step-is_running a (property_set refresh_delay_property (negsuc k)) = refl
  step-is_running a (property_set other_property value) = refl

  pub run-is_running :
      (a : Application main) (es : List Event) → (run main a es).is_running ≡ a.is_running
  unfolding run
  run-is_running a [] = refl
  run-is_running a (e ∷ es) = run-is_running (step main a e) es ∙ step-is_running a e

  initial-IsSound :
      (ntop : InetNtop) (lib : PcapLib) (devices : List Device) (context : main.Context)
      → IsSound
          (application_activate main ntop lib devices
            (application_init main context initial_state)).state
  unfolding application_activate application_init reset_quit_timeout initial_state
  initial-IsSound ntop lib devices context = record {
    owns = record {
      store = record { listed = λ a. refl; fresh = λ a h. refl; distinct = tt };
      distinct = tt;
      backed = λ b h. h;
    };
    single = λ a b e f p q same. ground arith;
  }

  -- The program begins to wait with the quit timer just set.
  pub activate-Waits :
      (ntop : InetNtop) (lib : PcapLib) (devices : List Device) (context : main.Context)
      → ((j : ℕ) → is_quit (source context j) ≡ false)
      → Waits
          (application_activate main ntop lib devices (application_init main context initial_state))
          soonest
          latest
  unfolding application_activate application_init run
  activate-Waits ntop lib devices context h =
      let armed = run-init-IsArmed main context initial_state [] h in
      let (n, e, above, below) = reset-left _ in
      record {
        armed = record { consistent = armed.consistent; nonzero = armed.nonzero; set = armed.set };
        seconds = n;
        to_go = e;
        above = above;
        below = below;
        sound = initial-IsSound ntop lib devices context;
      }

  pub activate-is_running :
      (ntop : InetNtop) (lib : PcapLib) (devices : List Device) (context : main.Context)
      → (application_activate main ntop lib devices
          (application_init main context initial_state)).is_running
        ≡ true
  unfolding application_activate application_init reset_quit_timeout
  activate-is_running ntop lib devices context = refl
