-- ===== src/Tests/Settings.antt =====
-- The refresh delay at a concrete input.
use gnome_usage.Base.{◌^◌, ◌<◌, ◌≡◌, refl, some, [], arith}
use gnome_usage.Base.Int.{pos}
use gnome_usage.Application.{reset_quit_timeout, application_init, refresh_delay_property}
use gnome_usage.Application.Class.{
  refresh_delay_spec, Validation, is_within, application_class_init, set_validated,
  set_validated-delay,
}
use gnome_usage.Tests.Context.{slots}
use gnome_usage.Tests.Samples.{state}

abbrev gobject : Validation
gobject = record { accepts = is_within; accepts_within = λ spec value. refl }

set_validated-delay_example :
    let a = application_init slots [] state in
    let a' =
      set_validated (application_class_init slots) gobject a refresh_delay_property (pos 30) in
    (a'.refresh_delay < 2 ^ 31)
    × ((application_class_init slots).get_property a' refresh_delay_property ≡ some (pos 30))
unfolding application_init reset_quit_timeout refresh_delay_spec
set_validated-delay_example =
    set_validated-delay slots gobject (application_init slots [] state) refresh_delay_property
      (pos 30) (omega arith)
