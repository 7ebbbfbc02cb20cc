-- ===== src/Main.antt =====
-- network-analyzer/main.c: the program from its start. GIO runs the application by its documentation:
-- it is activated, and then the main context turns until the application quits.
use gnome_usage.Base.{
  ℕ, ◌≡◌, ◌≢◌, ◌≤◌, refl, false, true, List, ◌++◌, ◌==◌, if◌then◌else◌, ◌⊎◌, inl, inr, length, All,
  arith, Bool-cases,
}
use gnome_usage.Base.Int.{ℤ}
use gnome_usage.Outcome.{Outcome, ok, Returns, Returns-bind, ◌>>=◌}
use gnome_usage.Packet.{InetNtop}
use gnome_usage.Process.{World}
use gnome_usage.Attribution.Keeps.{IsReadable}
use gnome_usage.Pcap.{PcapLib}
use gnome_usage.Application.{MainContext, Application, application_new}
use gnome_usage.Application.Class.{application_class_init}
use gnome_usage.Application.Network.{Device}
use gnome_usage.Application.Refresh.{Floats}
use gnome_usage.Application.Timers.{is_quit}
use gnome_usage.Application.Waiting.{is_silent, latest}
use gnome_usage.Application.System.{initial_state, Clock, Second, pass_all}
use gnome_usage.Application.Lifetime.{silence-quits}

-- `main` before it runs the application: the status that it exits with, or the application. The
-- argument that `na_application_new` is called without has any value.
pub begin : (m : MainContext) → m.Context → (getuid : ℕ) → (omitted : ℤ) → ℕ ⊎ Application m
begin m context getuid omitted =
    if getuid == 0 then inr (application_new m context initial_state omitted) else inl 1

module _ (clock : Clock) (floats : Floats) (world : World) (ntop : InetNtop) (lib : PcapLib)
    (devices : List Device) where
  -- The rest of `main`, for as many seconds as are given.
  pub run_begun : ℕ ⊎ Application clock.main → List Second → Outcome (ℕ ⊎ Application clock.main)
  run_begun (inl status) seconds = ok (inl status)
  run_begun (inr application) seconds = do
    application' ←
        pass_all clock floats world
          ((application_class_init clock.main).activate ntop lib devices application) seconds
    ok (inr application')

  pub main :
      clock.main.Context
      → (getuid : ℕ) → (omitted : ℤ) → List Second
      → Outcome (ℕ ⊎ Application clock.main)
  unfolding begin run_begun
  main context getuid omitted seconds = run_begun (begin clock.main context getuid omitted) seconds

  -- The program as a whole, started in a main context without a timer of its own, where /proc can be
  -- listed and no callback holds the main loop up: for any user but root it exits with status 1; for root it has quit where at least six
  -- seconds without an Acknowledge have followed, the quit timer's five and the one by which GLib can
  -- be late, whatever happened before, and it got there without a read of a freed connection and
  -- without an abort.
  pub main-quits :
      IsReadable world
      → (context : clock.main.Context) (getuid : ℕ) (omitted : ℤ) (before silent : List Second)
      → ((j : ℕ) → is_quit (clock.main.source context j) ≡ false)
      → All (λ second. is_silent second.events ≡ true) silent
      → latest ≤ length silent
      → Returns
          (λ ended. elim ended [
            | inl status ↦ (getuid ≢ 0) × (status ≡ 1)
            | inr application ↦ (getuid ≡ 0) × (application.is_running ≡ false)
          ])
          (main context getuid omitted (before ++ silent))
  unfolding main application_class_init application_new
  main-quits readable context getuid omitted before silent h quiet long =
      elim (Bool-cases (getuid == 0)) [
        | inl root ↦ rw root (
            Returns-bind _ ended (pass_all clock floats world _ (before ++ silent)) _
              (silence-quits clock floats world readable ntop lib devices context before silent h
                quiet long)
              λ a' stopped. (equal root, stopped))
        | inr user ↦ rw user (other user, refl)
      ]
    where
      ended : ℕ ⊎ Application clock.main → Type 0
      ended (inl status) = (getuid ≢ 0) × (status ≡ 1)
      ended (inr application) = (getuid ≡ 0) × (application.is_running ≡ false)

      equal : (getuid == 0) ≡ true → getuid ≡ 0
      equal h = ground arith

      other : (getuid == 0) ≡ false → getuid ≢ 0
      other h = ground arith
