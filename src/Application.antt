-- ===== src/Application.antt =====
-- network-analyzer/na-application.h and na-application.c: the D-Bus service with its timers. GLib's
-- main context, NetworkManager and libpcap are parameters.
pub mod Network
pub mod Refresh
pub mod Announced
pub mod Captured
pub mod Rounds
pub mod Timers
pub mod Loop
pub mod System
pub mod Waiting
pub mod Lasting
pub mod Firing
pub mod Lifetime
pub mod Devices
pub mod Class
use gnome_usage.Base.{
  ℕ, ◌≡◌, ◌≢◌, Bool, true, false, Option, none, some, List, [], ◌∷◌, ◌++◌, ◌==◌, if◌then◌else◌, inl,
  inr, map,
}
use gnome_usage.Base.Int.{ℤ, pos, negsuc}
use gnome_usage.Base.Text.{Text, text, text_beq}
use gnome_usage.LocalAddresses.{add_local_address}
use gnome_usage.Outcome.{Outcome, ok, fault, aborted, ◌>>=◌}
use gnome_usage.Packet.{In6Addr, Timeval, InetNtop}
use gnome_usage.Connection.Packets.{period}
use gnome_usage.Process.{ProcInfo, World, State, process_info_get_all}
use gnome_usage.Frame.{PktHdr, Memory}
use Network.{Device, get_devices}
use gnome_usage.Pcap.{PcapHandle, PcapLib, pcap_open, pcap_dispatch}

-- `QUIT_TIMEOUT_DURATION` and `DEFAULT_REFRESH_DELAY`, in seconds.
abbrev pub quit_timeout_duration : ℕ
quit_timeout_duration = 5

abbrev pub default_refresh_delay : ℕ
default_refresh_delay = 1

-- The two functions that the program gives to `g_timeout_add_seconds`.
pub data Callback : Type 0 where
  quit_timeout_cb main_loop_cb : Callback

pub record Source : Type 0 where
  pub callback : Callback
  pub seconds : ℕ

-- GLib's main context, by its documentation: which source an id stands for, and that an id is not 0
-- and not in use when it is given out.
pub record MainContext : Type 1 where
  pub Context : Type 0
  pub source : Context → ℕ → Option Source
  pub add_seconds : Context → Source → Context × ℕ
  pub remove : Context → ℕ → Context
  pub add_nonzero : (c : Context) (s : Source) → (add_seconds c s).1 ≢ 0
  pub add_unused : (c : Context) (s : Source) → source c (add_seconds c s).1 ≡ none
  pub source-add :
      (c : Context) (s : Source) (j : ℕ)
      → source (add_seconds c s).0 j ≡ (if j == (add_seconds c s).1 then some s else source c j)
  pub source-remove :
      (c : Context) (i j : ℕ) → source (remove c i) j ≡ (if j == i then none else source c j)

-- `PROP_REFRESH_DELAY`, and any other property.
pub data Property : Type 0 where
  refresh_delay_property other_property : Property

module _ (m : MainContext) where
  open m use {Context, add_seconds, remove}

  -- `NAApplicationPrivate`, with the main context and the static state. `system_bus` tells whether
  -- the pointer is set, `is_running` whether the application has not been quit.
  pub record Application : Type 0 where
    pub context : Context
    pub system_bus : Bool
    pub iface_handles : List PcapHandle
    pub quit_timeout_id : ℕ
    pub refresh_delay : ℕ
    pub is_running : Bool
    pub state : State

  unfoldable pub reset_quit_timeout : Application → Application
  reset_quit_timeout application =
      let removed =
        if application.quit_timeout_id == 0
        then application.context
        else remove application.context application.quit_timeout_id in
      let (context, id) =
        add_seconds removed
          (record { callback = quit_timeout_cb; seconds = quit_timeout_duration }) in
      record application { context = context; quit_timeout_id = id }

  -- The instance that GObject has zeroed, in the main context as it is.
  unfoldable pub application_init : Context → State → Application
  application_init context state = reset_quit_timeout (record {
    context = context;
    system_bus = false;
    iface_handles = [];
    quit_timeout_id = 0;
    refresh_delay = default_refresh_delay;
    is_running = true;
    state = state;
  })

  -- The delay that is passed is dropped: `g_object_new` is not given it.
  unfoldable pub application_new : Context → State → ℤ → Application
  application_new context state refresh_delay = application_init context state

  unfoldable pub handle_method_call : Application → Text → Application
  handle_method_call application method_name =
      if text_beq method_name (text "Acknowledge")
      then reset_quit_timeout application
      else application

  -- `quit_timeout_cb`
  unfoldable pub quit_timeout : Application → Application
  quit_timeout application = record application { is_running = false }

  unfoldable pub on_bus_acquired : Application → Application
  on_bus_acquired application = record application { system_bus = true }

  unfoldable pub on_name_acquired : Application → Application
  on_name_acquired application = record application {
    context =
        (add_seconds application.context
          (record { callback = main_loop_cb; seconds = application.refresh_delay })).0;
  }

  unfoldable pub on_name_lost : Application → Application
  on_name_lost application = application

  unfoldable pub application_set_refresh_delay : Application → ℤ → Application
  application_set_refresh_delay application (pos n) = record application { refresh_delay = n }
  application_set_refresh_delay application (negsuc n) = record application {
    refresh_delay = default_refresh_delay;
  }

  unfoldable pub application_set_property : Application → Property → ℤ → Application
  application_set_property application refresh_delay_property value =
      application_set_refresh_delay application value
  application_set_property application other_property value = application

  -- `none` where the value is left as it is.
  unfoldable pub application_get_property : Application → Property → Option ℤ
  application_get_property application refresh_delay_property = some (pos application.refresh_delay)
  application_get_property application other_property = none

  unfoldable pub application_get_system_bus : Application → Bool
  application_get_system_bus application = application.system_bus

  -- `na_application_activate`: the devices are opened. Exporting the object and owning the name are
  -- GLib's, and answered by the three callbacks above.
  unfoldable pub application_activate : InetNtop → PcapLib → List Device → Application → Application
  application_activate ntop lib devices application =
      let g =
        get_devices ntop lib
          (record {
            local_addresses = application.state.local_addresses;
            iface_handles = application.iface_handles;
          })
          devices in
      record application {
        iface_handles = g.iface_handles;
        state = record (application.state) { local_addresses = g.local_addresses };
      }
