-- ===== src/WebBooking/Context.antt =====
-- The availability of a request: the professionals of each service, their weights and their free
-- windows (`_buildUserIdsByService`, `_buildWeightsMap` and `_buildAvailabilityContext`).
use ms_calendar_service.Base.{
  String, Option, none, some, Bool, true, false, List, [], ◌∷◌, ◌++◌, if◌then◌else◌,
}
use text.Mathlib.Text.{◌==◌ as str_eq}
use ms_calendar_service.Base.Int.{ℤ, pos}
use ms_calendar_service.Availability.Zone.{Zone}
use ms_calendar_service.Availability.Windows.{Window}
use ms_calendar_service.Availability.Shifts.{DayHours, ShiftsInput, shifts_of_user, free_windows}
use ms_calendar_service.Availability.Assign.{Attendee}
use ms_calendar_service.Booking.{Service}
use ms_calendar_service.WebBooking.Policies.{has_any}
use ms_calendar_service.WebBooking.Start.{StartContext}

-- One requested service, and the professional asked for, if any.
pub record WebAttendee : Type 0 where
  pub attendee : Attendee
  pub staff_id : Option String

-- `users` is what `getUsersWhoCanPerformService_SPECIAL` returns for a service.
abbrev set_users :
    (String → Option (List String)) → String → List String → String → Option (List String)
set_users m s us t = if str_eq s t then some us else m t

-- `if (attendee.staffId)` leaves the empty text out.
abbrev pub users_of : (String → List String) → String → Option String → List String
users_of users service none = users service
users_of users service (some u) = if str_eq u "" then users service else u ∷ []

unfoldable pub build_user_ids_by_service :
    (String → List String)
    → List WebAttendee
    → (String → Option (List String))
    → String
    → Option (List String)
build_user_ids_by_service users [] m = m
build_user_ids_by_service users (a ∷ rest) m =
    build_user_ids_by_service users rest
      (set_users m a.attendee.service_id (users_of users a.attendee.service_id a.staff_id))

-- `bookingConfig.resources.ids`, where a weight that is not finite is `none`; later entries win.
unfoldable pub build_weights_map :
    List (String × Option ℤ) → (String → Option ℤ) → String → Option ℤ
build_weights_map [] m = m
build_weights_map ((id, none) ∷ rest) m =
    build_weights_map rest (λ u. if str_eq id u then some (pos 100) else m u)
build_weights_map ((id, some w) ∷ rest) m =
    build_weights_map rest (λ u. if str_eq id u then some w else m u)

-- What the services of hours, events and service snapshots return for the request.
pub record Sources : Type 0 where
  pub users_who_can_perform : String → List String
  pub business_hours : String → DayHours
  pub worker_hours_map : String → String → DayHours
  pub temporary_hours_map : String → String → DayHours
  pub busy_by_user : String → List Window
  pub services_snapshot : String → Option Service
  pub resource_weights : List (String × Option ℤ)

pub record AvailabilityContext : Type 0 where
  pub user_ids_by_service : String → Option (List String)
  pub free_windows_by_user : String → List Window
  pub service_by_id : String → Option Service
  pub weights_map : String → Option ℤ

-- Every professional of a requested service; a repeated one changes nothing.
unfoldable pub all_user_ids : (String → Option (List String)) → List WebAttendee → List String
all_user_ids m [] = []
all_user_ids m (a ∷ rest) =
    elim (m a.attendee.service_id) [ none ↦ [] | some us ↦ us ] ++ all_user_ids m rest

abbrev shifts_input : Sources → List String → String → String → ShiftsInput
shifts_input src users date week_day = record {
  user_ids = users;
  date = date;
  week_day = week_day;
  business_hours = src.business_hours;
  worker_hours_map = src.worker_hours_map;
  temporary_hours_map = src.temporary_hours_map;
  use_biz_fallback = true;
}

-- A user who is on no list of the request has no windows.
abbrev pub is_listed : List String → String → Bool
is_listed [] u = false
is_listed (v ∷ vs) u = if str_eq v u then true else is_listed vs u

unfoldable pub build_availability_context :
    Zone → Sources → List WebAttendee → StartContext → Option AvailabilityContext
build_availability_context z src attendees start =
    let m = build_user_ids_by_service src.users_who_can_perform attendees (λ s. none) in
    let users = all_user_ids m attendees in
    let shifts = shifts_input src users start.date_ws start.week_day in
    let context : AvailabilityContext = record {
      user_ids_by_service = m;
      free_windows_by_user = λ u.
          if is_listed users u
          then free_windows start.is_today start.rounded_now (src.busy_by_user u)
              (shifts_of_user z shifts u)
          else [];
      service_by_id = src.services_snapshot;
      weights_map = build_weights_map src.resource_weights (λ u. none);
    } in
    if has_any users then some context else none
