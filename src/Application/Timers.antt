-- ===== src/Application/Timers.antt =====
-- The timers of na-application.c: the program quits by one timer at most, which every
-- acknowledgement puts off.
use gnome_usage.Base.{
  ℕ, ◌≡◌, ◌≢◌, refl, Bool, true, false, ◌&&◌, not, Option, none, some, List, [], ◌∷◌, ◌==◌, arith,
  if◌then◌else◌, inl, inr, Bool-cases,
}
use gnome_usage.Base.Int.{ℤ, pos, negsuc}
use gnome_usage.Base.Text.{Text, text, text_beq}
use gnome_usage.Process.{State}
use gnome_usage.Application.{
  quit_timeout_cb, main_loop_cb, Source, MainContext, Application, Property, refresh_delay_property,
  other_property, reset_quit_timeout, application_init, handle_method_call, on_bus_acquired,
  on_name_acquired, on_name_lost, application_set_refresh_delay, application_set_property,
  application_get_property, quit_timeout_duration, default_refresh_delay,
}

abbrev pub is_quit : Option Source → Bool
is_quit none = false
is_quit (some s) = elim s.callback [ quit_timeout_cb ↦ true | main_loop_cb ↦ false ]

abbrev pub quit_source : Source
quit_source = record { callback = quit_timeout_cb; seconds = quit_timeout_duration }

-- What can happen to the application from outside.
pub data Event : Type 0 where
  method_call : Text → Event
  bus_acquired name_acquired name_lost : Event
  property_set : Property → ℤ → Event

module _ (m : MainContext) where
  open m use {
    Context, source, add_seconds, remove, add_nonzero, add_unused, source-add, source-remove,
  }

  -- No source quits the program but the one whose id is kept; 0 stands for none.
  abbrev pub IsConsistent : Application m → Type 0
  IsConsistent a =
      (j : ℕ)
      → is_quit (source a.context j) ≡ (j == a.quit_timeout_id && not (a.quit_timeout_id == 0))

  -- There is such a source, with the whole time to go.
  pub record IsArmed (a : Application m) : Type 0 where
    pub consistent : IsConsistent a
    pub nonzero : a.quit_timeout_id ≢ 0
    pub set : source a.context a.quit_timeout_id ≡ some quit_source

  -- The context without the timer that was set, if one was.
  abbrev pub disarmed : Application m → Context
  disarmed a = if a.quit_timeout_id == 0 then a.context else remove a.context a.quit_timeout_id

  source-disarmed :
      (a : Application m) (j : ℕ)
      → source (disarmed a) j ≡ (
          if j == a.quit_timeout_id && not (a.quit_timeout_id == 0)
          then none
          else source a.context j)
  source-disarmed a j = ground (arith, source-remove a.context a.quit_timeout_id j)

  disarmed-none :
      (a : Application m) (j : ℕ) → IsConsistent a → is_quit (source (disarmed a) j) ≡ false
  disarmed-none a j c = ground (arith, source-disarmed a j, c j)

  -- Whether a timer is set or not, a reset leaves exactly one source that quits the program, with
  -- the whole time to go, and every other source as it was.
  pub reset-IsArmed :
      (a : Application m)
      → IsConsistent a
      → IsArmed (reset_quit_timeout m a)
        × ((j : ℕ)
            → source (reset_quit_timeout m a).context j ≡ (
                if j == (reset_quit_timeout m a).quit_timeout_id
                then some quit_source
                else if j == a.quit_timeout_id && not (a.quit_timeout_id == 0)
                then none
                else source a.context j))
  unfolding reset_quit_timeout
  reset-IsArmed a c = (
    record {
      consistent = λ j. ground (
        arith,
        source-add (disarmed a) quit_source j,
        disarmed-none a j c,
        add_nonzero (disarmed a) quit_source,
      );
      nonzero = add_nonzero (disarmed a) quit_source;
      set =
          ground
            (arith, source-add (disarmed a) quit_source (add_seconds (disarmed a) quit_source).1);
    },
    λ j. ground (arith, source-add (disarmed a) quit_source j, source-disarmed a j),
  )

  unfoldable pub step : Application m → Event → Application m
  step a (method_call name) = handle_method_call m a name
  step a bus_acquired = on_bus_acquired m a
  step a name_acquired = on_name_acquired m a
  step a name_lost = on_name_lost m a
  step a (property_set property value) = application_set_property m a property value

  unfoldable pub run : Application m → List Event → Application m
  run a [] = a
  run a (e ∷ es) = run (step a e) es

  pub step-IsArmed : (a : Application m) (e : Event) → IsArmed a → IsArmed (step a e)
  unfolding step handle_method_call on_bus_acquired on_name_acquired on_name_lost
      application_set_property application_set_refresh_delay
  step-IsArmed a (method_call name) r = elim (Bool-cases (text_beq name (text "Acknowledge"))) [
    | inl acknowledged ↦ rw acknowledged (reset-IsArmed a r.consistent).0
    | inr other ↦ rw other r
  ]
  step-IsArmed a bus_acquired r = record {
    consistent = r.consistent;
    nonzero = r.nonzero;
    set = r.set;
  }
  step-IsArmed a name_acquired r =
      let refresh : Source = record { callback = main_loop_cb; seconds = a.refresh_delay } in
      record {
        consistent = λ j. ground (
          arith,
          source-add a.context refresh j,
          add_unused a.context refresh,
          r.consistent j,
          r.consistent a.quit_timeout_id,
          r.set,
        );
        nonzero = r.nonzero;
        set = ground (
          arith,
          source-add a.context refresh a.quit_timeout_id,
          add_unused a.context refresh,
          r.set,
        );
      }
  step-IsArmed a name_lost r = r
  step-IsArmed a (property_set refresh_delay_property (pos n)) r = record {
    consistent = r.consistent;
    nonzero = r.nonzero;
    set = r.set;
  }
  step-IsArmed a (property_set refresh_delay_property (negsuc n)) r = record {
    consistent = r.consistent;
    nonzero = r.nonzero;
    set = r.set;
  }
  step-IsArmed a (property_set other_property value) r = r

  run-IsArmed : (a : Application m) (es : List Event) → IsArmed a → IsArmed (run a es)
  unfolding run
  run-IsArmed a [] r = r
  run-IsArmed a (e ∷ es) r = run-IsArmed (step a e) es (step-IsArmed a e r)

  -- From its start in a main context without a timer of its own, and through any acknowledgements,
  -- other method calls, bus events and property changes, the application has exactly one source
  -- that quits it, namely the one whose id it keeps, which was added for five seconds.
  pub run-init-IsArmed :
      (context : Context) (state : State) (es : List Event)
      → ((j : ℕ) → is_quit (source context j) ≡ false)
      → IsArmed (run (application_init m context state) es)
  unfolding application_init
  run-init-IsArmed context state es h =
      run-IsArmed _ es (reset-IsArmed _ (λ j. ground (arith, h j))).0

-- The refresh delay that is read back is the one that was set, or the default where a negative one
-- was set; it does not change where another property is set, and that one cannot be read.
pub get-set_property :
    (m : MainContext) (a : Application m) (property : Property) (value : ℤ)
    → (application_get_property m
          (application_set_property m a property value)
          refresh_delay_property
        ≡ elim property [
          | refresh_delay_property ↦ elim value [
            | pos n ↦ some (pos n)
            | negsuc n ↦ some (pos default_refresh_delay)
          ]
          | other_property ↦ some (pos a.refresh_delay)
        ])
      × (application_get_property m (application_set_property m a property value) other_property
          ≡ none)
unfolding application_get_property application_set_property application_set_refresh_delay
get-set_property m a refresh_delay_property (pos n) = (refl, refl)
get-set_property m a refresh_delay_property (negsuc n) = (refl, refl)
get-set_property m a other_property value = (refl, refl)
