-- ===== src/Guard/Limits.antt =====
-- The rules of time and the limits of a customer (ResolveClientWorkspace, EnforceTimeRules and
-- EnforceUserLimits of src/middlewares/booiking-guard/booking-guard.middleware.ts).
use text.Mathlib.Text.{◌==◌ as str_eq}
use ms_calendar_service.Base.{
  ℕ, ◌+◌, String, Option, none, some, Bool, not, ◌&&◌, ◌||◌, List, [], ◌∷◌, map, keep, length,
  if◌then◌else◌, ltb, leb,
}
use ms_calendar_service.Base.Int.{ℤ, pos_part}
use ms_calendar_service.Base.Sets.{add_all}
use ms_calendar_service.Availability.Zone.{add_minutes}
use ms_calendar_service.WebBooking.Policies.{is_present}
use ms_calendar_service.WebBooking.Start.{Calendar}
use ms_calendar_service.Booking.Rows.{
  Group, Participant, Db, is_cancelled, group_by_id, holds_of_group,
}
use ms_calendar_service.Guard.{
  Guarded, refused, next, resolve_client_workspace as where_client,
  enforce_time_rules as where_time, enforce_user_limits as where_limits, GuardInput, GuardAttendee,
}
use ms_calendar_service.Guard.Config.{BookingLimits}

pub record ClientWorkspace : Type 0 where
  pub id : String
  pub id_client : String  -- empty where there is none
  pub is_banned : Bool
  pub client_is_banned : Bool

pub record Customer : Type 0 where
  pub id_client : String
  pub id_client_workspace : String

-- `list` is what the other service has, and `created` what it makes when the list is empty.
abbrev pub brief_of : List ClientWorkspace → Option ClientWorkspace → Option ClientWorkspace
brief_of [] created = created
brief_of (c ∷ list) created = some c

abbrev pub checked_client : GuardInput → Option ClientWorkspace → Guarded Customer
checked_client input none = refused 400 where_client
checked_client input (some c) =
    if is_present c.id && not c.is_banned && not c.client_is_banned
    then next (record {
      id_client = if is_present c.id_client then c.id_client else input.customer_id;
      id_client_workspace = c.id;
    })
    else refused 400 where_client

unfoldable pub resolve_client_workspace :
    GuardInput → List ClientWorkspace → Option ClientWorkspace → Guarded Customer
resolve_client_workspace input list created =
    if is_present input.customer_id && is_present input.id_company
    then checked_client input (brief_of list created)
    else refused 400 where_client

-- The start and the end of the booking.
pub record When : Type 0 where
  pub start_ws : ℕ
  pub end_ws : ℕ

abbrev pub number_or : ℕ → Option ℤ → ℕ
number_or d none = d
number_or d (some n) = pos_part n

unfoldable pub total_duration : List GuardAttendee → ℕ
total_duration [] = 0
total_duration (a ∷ attendees) = a.duration_min + total_duration attendees

-- `start` is the text of the start read in the client's zone; `end_of_day_after` is the end of the day
-- some days after an instant.
abbrev pub time_rules : Calendar → (ℕ → ℕ → ℕ) → BookingLimits → ℕ → ℕ → Bool
time_rules cal end_of_day_after config now start =
    not (ltb (cal.start_of_day start) (cal.start_of_day now))
    && not (ltb start (add_minutes now (number_or 0 config.min_lead_time_min)))
    && not (ltb (end_of_day_after now (number_or 365 config.max_advance_days)) start)

unfoldable pub enforce_time_rules :
    Calendar → (ℕ → ℕ → ℕ) → BookingLimits → ℕ → GuardInput → Option ℕ → Guarded When
enforce_time_rules cal end_of_day_after config now input none = refused 400 where_time
enforce_time_rules cal end_of_day_after config now input (some start) =
    if time_rules cal end_of_day_after config now start
    then next
        (record { start_ws = start; end_ws = add_minutes start (total_duration input.attendees) })
    else refused 400 where_time

-- The filter of the two queries: participations of the customer in groups that are neither deleted nor
-- cancelled and that meet the range.
abbrev pub is_active_in : ℕ → ℕ → Group → Bool
is_active_in from to g =
    not g.deleted && ltb g.start_date to && ltb from g.end_date && not (is_cancelled g.status)

abbrev pub is_participation : Db → String → ℕ → ℕ → Participant → Bool
is_participation db client from to p =
    str_eq p.id_client_workspace client
    && not p.deleted
    && holds_of_group (is_active_in from to) (group_by_id db p.id_group)

abbrev pub id_group_of : Participant → String
id_group_of p = p.id_group

-- The size of the set of bookings.
unfoldable pub count_bookings : Db → String → ℕ → ℕ → ℕ
count_bookings db client from to =
    length
      (add_all [] (map id_group_of (keep (is_participation db client from to) db.participants)))

-- A limit of 0, or below, is none.
abbrev pub is_within : ℕ → ℕ → Bool
is_within limit count = not (ltb 0 limit) || ltb count limit

abbrev pub max_services : BookingLimits → ℕ
max_services config = number_or 1 config.max_services_per_booking

abbrev pub per_day : BookingLimits → ℕ
per_day config = number_or 1 config.per_user_per_day

abbrev pub concurrent : BookingLimits → ℕ
concurrent config = number_or 0 config.per_user_concurrent

-- The customer and the time stand in the context, where the guards before this one put them. The end
-- of a day is its last instant.
unfoldable pub enforce_user_limits :
    Calendar → (ℕ → ℕ) → BookingLimits → Db → GuardInput → Customer → When → Guarded When
enforce_user_limits cal end_of_day config db input customer time =
    let client = customer.id_client_workspace in
    let day_count =
      count_bookings db client (cal.start_of_day time.start_ws) (end_of_day time.start_ws) in
    let slot_count = count_bookings db client time.start_ws time.end_ws in
    if leb (length input.attendees) (max_services config) || not (ltb 0 (max_services config))
    then (if is_within (per_day config) day_count && is_within (concurrent config) slot_count
        then next time
        else refused 409 where_limits)
    else refused 400 where_limits
