-- ===== src/Guard/Config.antt =====
-- The configuration of a workspace and its overrides in a demonstration (normalizeWorkspaceConfig,
-- sanitizeDemoConfigOverrides and ResolveWorkspace of
-- src/middlewares/booiking-guard/booking-guard.middleware.ts).
use ms_calendar_service.Base.{ℕ, String, Option, none, some, Bool, if◌then◌else◌, min, max}
use ms_calendar_service.Base.Int.{ℤ, pos_part}
use ms_calendar_service.WebBooking.Policies.{is_present}
use ms_calendar_service.Guard.{Guarded, refused, next, resolve_workspace as where_workspace}

-- The numbers of a configuration, where they are given and finite.
pub record BookingLimits : Type 0 where
  pub min_lead_time_min : Option ℤ
  pub max_advance_days : Option ℤ
  pub same_day_cutoff_hour_local : Option ℤ
  pub per_user_per_day : Option ℤ
  pub per_user_concurrent : Option ℤ
  pub max_services_per_booking : Option ℤ

abbrev at_least : ℕ → Option ℤ → Option ℤ
at_least low none = none
at_least low (some n) = some (ℤ.pos (max low (pos_part n)))

abbrev hour_of_day : Option ℤ → Option ℤ
hour_of_day none = none
hour_of_day (some n) = some (ℤ.pos (min 23 (pos_part n)))

-- A group without a number is left out, which `override` treats as its absent numbers.
unfoldable pub sanitize_demo_config_overrides : BookingLimits → BookingLimits
sanitize_demo_config_overrides raw = record {
  min_lead_time_min = at_least 0 raw.min_lead_time_min;
  max_advance_days = at_least 0 raw.max_advance_days;
  same_day_cutoff_hour_local = hour_of_day raw.same_day_cutoff_hour_local;
  per_user_per_day = at_least 0 raw.per_user_per_day;
  per_user_concurrent = at_least 0 raw.per_user_concurrent;
  max_services_per_booking = at_least 1 raw.max_services_per_booking;
}

-- The spread of the one object after the other.
abbrev over : Option ℤ → Option ℤ → Option ℤ
over none base = base
over (some n) base = some n

unfoldable pub override : BookingLimits → BookingLimits → BookingLimits
override demo base = record {
  min_lead_time_min = over demo.min_lead_time_min base.min_lead_time_min;
  max_advance_days = over demo.max_advance_days base.max_advance_days;
  same_day_cutoff_hour_local = over demo.same_day_cutoff_hour_local base.same_day_cutoff_hour_local;
  per_user_per_day = over demo.per_user_per_day base.per_user_per_day;
  per_user_concurrent = over demo.per_user_concurrent base.per_user_concurrent;
  max_services_per_booking = over demo.max_services_per_booking base.max_services_per_booking;
}

pub record Workspace : Type 0 where
  pub id : String
  pub time_zone : String
  pub config : BookingLimits  -- of `generalConfigJson`, read by `normalizeWorkspaceConfig`

-- `demo` is `isDemoConfigOverridesEnabled()`.
pub record ConfigSource : Type 0 where
  pub cached : Option Workspace
  pub fetched : Option Workspace
  pub demo : Bool
  pub config_overrides : Option BookingLimits

abbrev pub demo_overrides : ConfigSource → Option BookingLimits
demo_overrides src =
    if src.demo
    then (elim src.config_overrides [
      | none ↦ none
      | some raw ↦ some (sanitize_demo_config_overrides raw)
    ])
    else none

abbrev with_overrides : Option BookingLimits → BookingLimits → BookingLimits
with_overrides none base = base
with_overrides (some demo) base = override demo base

-- The workspace of the cache, or that of the other service, which is put into the cache.
abbrev pub workspace_of : ConfigSource → Option Workspace
workspace_of src = elim src.cached [ some w ↦ some w | none ↦ src.fetched ]

abbrev pub to_cache : ConfigSource → Option Workspace
to_cache src = elim src.cached [
  | some w ↦ none
  | none ↦ elim src.fetched [ none ↦ none | some w ↦ if is_present w.id then some w else none ]
]

-- The zone of the workspace and the configuration.
abbrev checked_workspace :
    Option BookingLimits → Option Workspace → Guarded (String × BookingLimits)
checked_workspace demo none = refused 400 where_workspace
checked_workspace demo (some w) =
    if is_present w.time_zone
    then next (w.time_zone, with_overrides demo w.config)
    else refused 400 where_workspace

unfoldable pub resolve_workspace : ConfigSource → Guarded (String × BookingLimits)
resolve_workspace src = checked_workspace (demo_overrides src) (workspace_of src)
