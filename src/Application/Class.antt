-- ===== src/Application/Class.antt =====
-- `na_application_class_init` of network-analyzer/na-application.c: what GObject learns of the class.
-- Whether GObject accepts a value for a property is a parameter.
use gnome_usage.Base.{
  zero, suc, ltb, ℕ, ◌-◌, ◌^◌, ◌<◌, ◌≡◌, refl, Bool, ◌&&◌, if◌then◌else◌, Option, none, some, List,
  arith,
}
use gnome_usage.Base.Int.{ℤ, pos, negsuc, leb_ℤ}
use gnome_usage.Packet.{InetNtop}
use gnome_usage.Pcap.{PcapLib}
use gnome_usage.Application.{
  MainContext, Application, Property, refresh_delay_property, other_property, default_refresh_delay,
  application_activate, application_get_property, application_set_property,
  application_set_refresh_delay,
}
use gnome_usage.Application.Network.{Device}

-- `g_param_spec_int`
pub record ParamSpecInt : Type 0 where
  pub minimum : ℤ
  pub maximum : ℤ
  pub default_value : ℤ

-- `G_MAXINT`
abbrev g_maxint : ℕ
g_maxint = 2 ^ 31 - 1

-- The value stands between the bounds of the property.
abbrev pub is_within : ParamSpecInt → ℤ → Bool
is_within spec value = leb_ℤ spec.minimum value && leb_ℤ value spec.maximum

-- Whether GObject hands a value to a setter, by its documentation: a property that is not flagged with
-- G_PARAM_LAX_VALIDATION takes the values within its bounds, and for any other there is a warning and
-- no call.
pub record Validation : Type 0 where
  pub accepts : ParamSpecInt → ℤ → Bool
  pub accepts_within : (spec : ParamSpecInt) (value : ℤ) → accepts spec value ≡ is_within spec value

-- The functions of the class, and the properties that are installed.
pub record ApplicationClass (m : MainContext) : Type 1 where
  pub get_property : Application m → Property → Option ℤ
  pub set_property : Application m → Property → ℤ → Application m
  pub activate : InetNtop → PcapLib → List Device → Application m → Application m
  pub properties : Property → Option ParamSpecInt

unfoldable pub refresh_delay_spec : ParamSpecInt
refresh_delay_spec = record {
  minimum = negsuc 0;
  maximum = pos g_maxint;
  default_value = pos default_refresh_delay;
}

unfoldable pub application_class_init : (m : MainContext) → ApplicationClass m
unfolding refresh_delay_spec
application_class_init m = record {
  get_property = application_get_property m;
  set_property = application_set_property m;
  activate = application_activate m;
  properties = λ property. elim property [
    | refresh_delay_property ↦ some refresh_delay_spec
    | other_property ↦ none
  ];
}

-- A property of the class that is set by way of GObject: only an installed one is.
abbrev pub set_validated :
    {m : MainContext}
    → ApplicationClass m
    → Validation
    → Application m
    → Property
    → ℤ
    → Application m
set_validated c v a property value = elim (c.properties property) [
  | none ↦ a
  | some spec ↦ if v.accepts spec value then c.set_property a property value else a
]

-- Whatever value a property is set to by way of GObject, the refresh delay that GLib gets for its
-- timer fits an `int` if it did before, and it is what can be read back: the value itself where it is
-- not negative and no larger than G_MAXINT, the default for -1, and for any other value the delay from
-- before. A property that is not installed changes nothing.
pub set_validated-delay :
    (m : MainContext) (v : Validation) (a : Application m) (property : Property) (value : ℤ)
    → a.refresh_delay < 2 ^ 31
    → let class = application_class_init m in
      let a' = set_validated class v a property value in
      (a'.refresh_delay < 2 ^ 31)
      × (class.get_property a' refresh_delay_property ≡ elim property [
        | refresh_delay_property ↦ elim value [
          | pos n ↦ some (pos (if ltb n (2 ^ 31) then n else a.refresh_delay))
          | negsuc zero ↦ some (pos 1)
          | negsuc (suc n) ↦ some (pos a.refresh_delay)
        ]
        | other_property ↦ some (pos a.refresh_delay)
      ])
unfolding application_class_init application_get_property application_set_property
    application_set_refresh_delay refresh_delay_spec
set_validated-delay m v a other_property value h = (h, refl)
set_validated-delay m v a refresh_delay_property (pos n) h =
    ground (arith, v.accepts_within refresh_delay_spec (pos n))
set_validated-delay m v a refresh_delay_property (negsuc zero) h =
    ground (arith, v.accepts_within refresh_delay_spec (negsuc 0))
set_validated-delay m v a refresh_delay_property (negsuc (suc n)) h =
    ground (arith, v.accepts_within refresh_delay_spec (negsuc (suc n)))
