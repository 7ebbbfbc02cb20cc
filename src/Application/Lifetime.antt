-- ===== src/Application/Lifetime.antt =====
-- How long the service of na-application.c runs.
use gnome_usage.Base.{
  ℕ, suc, ◌-◌, ◌≡◌, ◌≤◌, some, ◌++◌, ap, ◌∙◌, true, false, List, [], ◌∷◌, arith, inl, inr, length,
  All,
}
use gnome_usage.Outcome.{ok, Returns, Returns-bind, Returns-if, Returns-mono}
use gnome_usage.Packet.{InetNtop}
use gnome_usage.Process.{World}
use gnome_usage.Attribution.Keeps.{IsReadable}
use gnome_usage.Pcap.{PcapLib}
use gnome_usage.Application.{Application, application_init, application_activate}
use gnome_usage.Application.Network.{Device}
use gnome_usage.Application.Refresh.{Floats}
use gnome_usage.Application.Timers.{run, is_quit}
use gnome_usage.Application.Waiting.{
  left_after, is_silent, lasts, Waits, activate-Waits, activate-is_running, run-Waits, soonest,
  latest, run-is_running,
}
use gnome_usage.Application.System.{initial_state, Clock, Second, fire_all, pass, pass_all}
use gnome_usage.Application.Lasting.{
  implies, late_or_early, lasts-late, lasts-then, lasts-early, lasts-silence,
}
use gnome_usage.Application.Firing.{fire_all-other, fire_all-stops, turn-IsReady}

module _ (clock : Clock) (floats : Floats) (world : World) (readable : IsReadable world) where
  open clock use {main, turn, left, due, due-left, not_due-left, left-turn}
  open main use {source}

  -- A second at whose end the timer is not due yet.
  pass-Waits :
      (second : Second) (a : Application main) (lo hi m : ℕ)
      → a.is_running ≡ true
      → (v : Waits clock (run main a second.events) lo hi) → v.seconds ≡ suc (suc m)
      → Returns
          (λ a'. Waits clock a' (lo - 1) (hi - 1) × (a'.is_running ≡ true))
          (pass clock floats world a second)
  unfolding pass
  pass-Waits second a lo hi m running v kept =
      let b = run main a second.events in
      let to_go : left b.context b.quit_timeout_id ≡ some (suc (suc m)) = v.to_go ∙ ap some kept in
      Returns-if _ a.is_running _ (ok a)
        (λ _.
          Returns-mono _ _
            (fire_all clock floats world second (record b { context = turn b.context })
              (due b.context))
            (fire_all-other clock floats world readable second _ (due b.context)
              (turn-IsReady clock floats world readable b lo hi v)
              (not_due-left b.context b.quit_timeout_id m to_go))
            λ a' u. (
              record {
                armed = u.ready.armed;
                seconds = suc m;
                to_go =
                    ap (left a'.context) u.same_id
                    ∙ ap (λ c. left c b.quit_timeout_id) u.same_context
                    ∙ left-turn b.context b.quit_timeout_id m to_go;
                above = omega (arith, v.above, kept);
                below = omega (arith, v.below, kept);
                sound = u.ready.sound;
              },
              u.same_running ∙ run-is_running clock a second.events ∙ running,
            ))
        λ stopped. cc

  pass-quits :
      (second : Second) (a : Application main) (lo hi : ℕ)
      (v : Waits clock (run main a second.events) lo hi)
      → v.seconds ≤ 1
      → Returns (λ a'. a'.is_running ≡ false) (pass clock floats world a second)
  unfolding pass
  pass-quits second a lo hi v late =
      let b = run main a second.events in
      Returns-if _ a.is_running _ (ok a)
        (λ running.
          fire_all-stops clock floats world readable second _ (due b.context)
            (turn-IsReady clock floats world readable b lo hi v)
            (due-left b.context b.quit_timeout_id _ v.to_go late))
        λ stopped. stopped

  pass-stopped :
      (second : Second) (a : Application main)
      → a.is_running ≡ false
      → pass clock floats world a second ≡ ok a
  unfolding pass
  pass-stopped second a stopped = ground arith

  pass_all-stopped :
      (a : Application main) (seconds : List Second)
      → a.is_running ≡ false
      → Returns (λ a'. a'.is_running ≡ false) (pass_all clock floats world a seconds)
  unfolding pass_all
  pass_all-stopped a [] stopped = stopped
  pass_all-stopped a (second ∷ rest) stopped =
      rw (pass-stopped second a stopped) (pass_all-stopped a rest stopped)

  -- The program runs on while the soonest timer lasts, and no longer than the latest one does.
  abbrev RunsWithin : ℕ → ℕ → List Second → Application main → Type 0
  RunsWithin lo hi seconds a' =
      (implies (lasts soonest lo seconds) a'.is_running ≡ true)
      × (implies a'.is_running (lasts latest hi seconds) ≡ true)

  stops-RunsWithin :
      (lo hi : ℕ) (second : Second) (rest : List Second) (a' : Application main)
      → left_after soonest second.events lo ≤ 1
      → a'.is_running ≡ false
      → RunsWithin lo hi (second ∷ rest) a'
  stops-RunsWithin lo hi second rest a' late stopped =
      ground (arith, lasts-late soonest lo second rest late)

  pass_all-lasts :
      (a : Application main) (lo hi : ℕ) (seconds : List Second)
      → Waits clock a lo hi
      → a.is_running ≡ true
      → Returns (RunsWithin lo hi seconds) (pass_all clock floats world a seconds)
  unfolding pass_all lasts
  pass_all-lasts a lo hi [] w running = (ground arith, ground arith)
  pass_all-lasts a lo hi (second ∷ rest) w running =
      let v = run-Waits clock a lo hi second.events w in
      let lo' = left_after soonest second.events lo in
      let hi' = left_after latest second.events hi in
      elim (late_or_early v.seconds) [
        | inl late ↦
            Returns-bind _ (RunsWithin lo hi (second ∷ rest)) (pass clock floats world a second) _
              (pass-quits second a lo' hi' v late)
              λ a' stopped.
                Returns-mono _ (RunsWithin lo hi (second ∷ rest))
                  (pass_all clock floats world a' rest) (pass_all-stopped a' rest stopped)
                  λ a'' stopped'.
                    stops-RunsWithin lo hi second rest a'' (omega (arith, v.above, late)) stopped'
        | inr (m, early) ↦
            Returns-bind _ (RunsWithin lo hi (second ∷ rest)) (pass clock floats world a second) _
              (pass-Waits second a lo' hi' m running v early)
              λ a' (w', running').
                Returns-mono _ (RunsWithin lo hi (second ∷ rest))
                  (pass_all clock floats world a' rest)
                  (pass_all-lasts a' (lo' - 1) (hi' - 1) rest w' running')
                  λ a'' (sooner, later). (
                    lasts-then soonest lo second rest a''.is_running sooner,
                    lasts-early latest hi second rest a''.is_running (omega (arith, v.below, early))
                        later,
                  )
      ]

  -- From its start in a main context without a timer of its own, and where /proc can be listed, the
  -- program never reads a freed connection and never aborts. As GLib's timer can come up to one second
  -- sooner or later than it was set for, and where no callback holds the loop up, the program is still running after any number of seconds if
  -- a timer of four seconds, set at the start and again at each Acknowledge, would not have come to
  -- its end, and only if one of six seconds would not have.
  pub activate-lasts :
      (ntop : InetNtop) (lib : PcapLib) (devices : List Device) (context : main.Context)
      (seconds : List Second)
      → ((j : ℕ) → is_quit (source context j) ≡ false)
      → Returns
          (λ a'.
            (implies (lasts 4 4 seconds) a'.is_running ≡ true)
            × (implies a'.is_running (lasts 6 6 seconds) ≡ true))
          (pass_all clock floats world
            (application_activate main ntop lib devices
              (application_init main context initial_state))
            seconds)
  activate-lasts ntop lib devices context seconds h =
      pass_all-lasts _ soonest latest seconds (activate-Waits clock ntop lib devices context h)
        (activate-is_running clock ntop lib devices context)

  -- From the same start and under the same conditions, whatever happened before, the program has quit where at least six seconds
  -- without an Acknowledge have followed, and it got there without a fault.
  pub silence-quits :
      (ntop : InetNtop) (lib : PcapLib) (devices : List Device) (context : main.Context)
      (before silent : List Second)
      → ((j : ℕ) → is_quit (source context j) ≡ false)
      → All (λ second. is_silent second.events ≡ true) silent
      → latest ≤ length silent
      → Returns
          (λ a'. a'.is_running ≡ false)
          (pass_all clock floats world
            (application_activate main ntop lib devices
              (application_init main context initial_state))
            (before ++ silent))
  silence-quits ntop lib devices context before silent h quiet long =
      Returns-mono _ _
        (pass_all clock floats world
          (application_activate main ntop lib devices (application_init main context initial_state))
          (before ++ silent))
        (activate-lasts ntop lib devices context (before ++ silent) h)
        λ a' (sooner, later). ground (
          arith,
          later,
          lasts-silence latest latest before silent (omega arith) (omega arith) quiet long,
        )
