-- ===== src/Tests/Life.antt =====
-- How long the service runs, at concrete inputs.
use gnome_usage.Base.{
  ℕ, zero, suc, ◌/◌, ◌≡◌, ◌≢◌, refl, true, false, none, some, List, [], ◌∷◌, arith, All, inl, inr,
}
use gnome_usage.Base.Text.{text, text_beq}
use gnome_usage.Outcome.{Returns}
use gnome_usage.Pcap.{PcapLib}
use gnome_usage.Application.{application_init, application_activate}
use gnome_usage.Application.Network.{Device}
use gnome_usage.Application.Refresh.{Floats}
use gnome_usage.Application.Timers.{method_call, name_acquired, is_quit}
use gnome_usage.Application.System.{initial_state, Second, pass_all}
use gnome_usage.Application.Waiting.{left_after, is_silent, lasts}
use gnome_usage.Application.Lasting.{implies}
use gnome_usage.Application.Lifetime.{activate-lasts}
use gnome_usage.Main.{main, main-quits}
use gnome_usage.Base.Int.{pos}
use gnome_usage.Tests.Samples.{here, at_second, ntop, world, readable}
use gnome_usage.Tests.Clock.{clock}

abbrev floats : Floats
floats = record {
  Double = ℕ;
  Float = ℕ;
  of_uint32 = λ n. n;
  divide = λ a b. a / b;
  to_float = λ a. a;
}

abbrev lib : PcapLib
lib = record { pcap_create = λ i. true; pcap_activate = λ i. 0; pcap_datalink = λ i. 1 }

abbrev devices : List Device
devices =
    record {
      is_activated = true;
      iface = text "wlan0";
      ip4_addresses = some (here ∷ []);
      ip6_addresses = none;
    }
    ∷ []

abbrev silence : ℕ → Second
silence n = record { events = []; delivered = λ h. []; now = at_second n }

-- The name of the service is acquired, and it is acknowledged at once.
abbrev first_second : Second
first_second = record {
  events = name_acquired ∷ method_call (text "Acknowledge") ∷ [];
  delivered = λ h. [];
  now = at_second 100;
}

abbrev silent_seconds : List Second
silent_seconds =
    silence 101 ∷ silence 102 ∷ silence 103 ∷ silence 104 ∷ silence 105 ∷ silence 106 ∷ []

no_source : (j : ℕ) → is_quit (clock.main.source [] j) ≡ false
no_source zero = refl
no_source (suc j) = refl

abbrev short_silence : List Second
short_silence = silence 101 ∷ silence 102 ∷ []

lasts_test :
    (lasts 4 4 (first_second ∷ short_silence) ≡ true)
    × (lasts 6 6 (first_second ∷ silent_seconds) ≡ false)
unfolding lasts left_after text_beq
lasts_test = (refl, refl)

activate-lasts_example :
    Returns
      (λ a'.
        (implies (lasts 4 4 (first_second ∷ short_silence)) a'.is_running ≡ true)
        × (implies a'.is_running (lasts 6 6 (first_second ∷ short_silence)) ≡ true))
      (pass_all clock floats world
        (application_activate clock.main ntop lib devices
          (application_init clock.main [] initial_state))
        (first_second ∷ short_silence))
activate-lasts_example =
    activate-lasts clock floats world readable ntop lib devices [] (first_second ∷ short_silence)
      no_source

silent_seconds-IsSilent : All (λ second. is_silent second.events ≡ true) silent_seconds
unfolding is_silent
silent_seconds-IsSilent = (refl, (refl, (refl, (refl, (refl, (refl, tt))))))

main-quits_example :
    Returns
      (λ ended. elim ended [
        | inl status ↦ (◌≢◌ {A = ℕ} 0 0) × (status ≡ 1)
        | inr application ↦ (◌≡◌ {A = ℕ} 0 0) × (application.is_running ≡ false)
      ])
      (main clock floats world ntop lib devices [] 0 (pos 7) (first_second ∷ silent_seconds))
main-quits_example =
    main-quits clock floats world ntop lib devices readable [] 0 (pos 7) (first_second ∷ [])
      silent_seconds no_source silent_seconds-IsSilent (omega arith)
