-- ===== src/Application/Firing.antt =====
-- The callbacks that are due in one second, of na-application.c: which of them end the program.
use gnome_usage.Base.{
  ℕ, ◌≡◌, refl, ap, ◌∙◌, true, false, Option, none, some, List, [], ◌∷◌, ◌==◌, arith, inl, inr,
  Bool-cases,
}
use gnome_usage.Base.Members.{has}
use gnome_usage.Outcome.{ok, Returns, Returns-bind, Returns-if, Returns-mono}
use gnome_usage.Process.{World}
use gnome_usage.Attribution.Keeps.{IsReadable}
use gnome_usage.Pcap.Flows.{IsSound}
use gnome_usage.Application.{
  Callback, quit_timeout_cb, main_loop_cb, Source, Application, quit_timeout,
}
use gnome_usage.Application.Refresh.{Floats, main_loop}
use gnome_usage.Application.Loop.{main_loop-IsSound}
use gnome_usage.Application.Timers.{IsArmed, is_quit}
use gnome_usage.Application.Waiting.{Waits, IsArmed-state, turn-IsArmed}
use gnome_usage.Application.System.{Clock, Second, fire, fire_source, fire_all}

module _ (clock : Clock) (floats : Floats) (world : World) (readable : IsReadable world) where
  open clock use {main, turn, left, due, due-left, not_due-left, left-turn}
  open main use {source}

  -- The program is ready to quit when its timer comes, and its static state is sound.
  pub record IsReady (a : Application main) : Type 0 where
    pub armed : IsArmed main a
    pub sound : IsSound a.state

  -- What the callbacks that do not quit the program leave as it is.
  pub record Rest (a a' : Application main) : Type 0 where
    pub ready : IsReady a'
    pub same_context : a'.context ≡ a.context
    pub same_id : a'.quit_timeout_id ≡ a.quit_timeout_id
    pub same_running : a'.is_running ≡ a.is_running

  fire-Rest :
      (second : Second) (a : Application main) (c : Callback)
      → IsReady a
      → (elim c [ quit_timeout_cb ↦ true | main_loop_cb ↦ false ]) ≡ false
      → Returns (Rest a) (fire clock floats world second a c)
  unfolding fire
  fire-Rest second a quit_timeout_cb r other = cc
  fire-Rest second a main_loop_cb r other =
      Returns-bind _ (Rest a)
        (main_loop floats world second.delivered second.now a.iface_handles a.state) _
        (main_loop-IsSound floats world readable second.delivered second.now a.iface_handles a.state
          r.sound)
        λ (state, signal) sound. record {
          ready = record { armed = IsArmed-state clock a state r.armed; sound = sound };
          same_context = refl;
          same_id = refl;
          same_running = refl;
        }

  fire_source-Rest :
      (second : Second) (a : Application main) (s : Option Source)
      → IsReady a
      → is_quit s ≡ false
      → Returns (Rest a) (fire_source clock floats world second a s)
  unfolding fire_source
  fire_source-Rest second a none r other = record {
    ready = r;
    same_context = refl;
    same_id = refl;
    same_running = refl;
  }
  fire_source-Rest second a (some s) r other = fire-Rest second a s.callback r other

  Rest-trans : (a b c : Application main) → Rest a b → Rest b c → Rest a c
  Rest-trans a b c r s = record {
    ready = s.ready;
    same_context = s.same_context ∙ r.same_context;
    same_id = s.same_id ∙ r.same_id;
    same_running = s.same_running ∙ r.same_running;
  }

  pub fire_all-other :
      (second : Second) (a : Application main) (js : List ℕ)
      → IsReady a
      → has a.quit_timeout_id js ≡ false
      → Returns (Rest a) (fire_all clock floats world second a js)
  unfolding fire_all
  fire_all-other second a [] r absent = record {
    ready = r;
    same_context = refl;
    same_id = refl;
    same_running = refl;
  }
  fire_all-other second a (j ∷ rest) r absent =
      Returns-if (Rest a) a.is_running _ (ok a)
        (λ running.
          Returns-bind (Rest a) (Rest a)
            (fire_source clock floats world second a (source a.context j)) _
            (fire_source-Rest second a (source a.context j) r
              (ground (arith, r.armed.consistent j)))
            λ b u.
              Returns-mono (Rest b) (Rest a) (fire_all clock floats world second b rest)
                (fire_all-other second b rest u.ready (ground (arith, u.same_id)))
                λ c v. Rest-trans a b c u v)
        λ stopped. record { ready = r; same_context = refl; same_id = refl; same_running = refl }

  fire_all-stopped :
      (second : Second) (a : Application main) (js : List ℕ)
      → a.is_running ≡ false
      → Returns (λ a'. a'.is_running ≡ false) (fire_all clock floats world second a js)
  unfolding fire_all
  fire_all-stopped second a [] stopped = stopped
  fire_all-stopped second a (j ∷ rest) stopped =
      Returns-if (λ a'. a'.is_running ≡ false) a.is_running _ (ok a) (λ running. cc) λ h. h

  pub fire_all-stops :
      (second : Second) (a : Application main) (js : List ℕ)
      → IsReady a
      → has a.quit_timeout_id js ≡ true
      → Returns (λ a'. a'.is_running ≡ false) (fire_all clock floats world second a js)
  unfolding fire_all fire_source fire quit_timeout
  fire_all-stops second a [] r present = cc
  fire_all-stops second a (j ∷ rest) r present =
      Returns-if (λ a'. a'.is_running ≡ false) a.is_running _ (ok a)
        (λ running. elim (Bool-cases (j == a.quit_timeout_id)) [
          | inl due_now ↦
              let same : j ≡ a.quit_timeout_id = ground arith in
              rw (ap (source a.context) same ∙ r.armed.set)
                (fire_all-stopped second (quit_timeout main a) rest refl)
          | inr later ↦
              Returns-bind (Rest a) (λ a'. a'.is_running ≡ false)
                (fire_source clock floats world second a (source a.context j)) _
                (fire_source-Rest second a (source a.context j) r
                  (ground (arith, r.armed.consistent j)))
                λ b u. fire_all-stops second b rest u.ready (ground (arith, u.same_id))
        ])
        λ stopped. stopped

  pub turn-IsReady :
      (a : Application main) (lo hi : ℕ)
      → Waits clock a lo hi
      → IsReady (record a { context = turn a.context })
  turn-IsReady a lo hi w = record { armed = turn-IsArmed clock a w.armed; sound = w.sound }
