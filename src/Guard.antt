-- ===== src/Guard.antt =====
-- The guards of a booking request (src/middlewares/booiking-guard/booking-guard.middleware.ts, and their
-- order in src/features/event-client/routes.ts). Each guard refuses with a status of HTTP and the name
-- of the guard, or hands the context on. A call of another service that throws is left out; what the
-- services answer is a parameter.
pub mod Config
pub mod Limits
pub mod Chain
pub mod Admitted
pub mod Counts
mod Examples
use Prim.Native.String
use text.Mathlib.Text.{◌==◌ as str_eq}
use ms_calendar_service.Base.{
  ℕ, ◌+◌, String, Option, none, some, Bool, true, false, not, ◌&&◌, ◌||◌, List, [], ◌∷◌, map,
  if◌then◌else◌, ltb,
}
use ms_calendar_service.WebBooking.Policies.{matches, is_present}

-- The guards, in the words of their error codes.
pub data Where : Type 0 where
  base_validation resolve_workspace resolve_client_workspace enforce_time_rules : Where
  enforce_user_limits base_context : Where

pub data Guarded {ℓ} (A : Type ℓ) : Type ℓ where
  refused : ℕ → Where → Guarded A
  next : A → Guarded A

abbrev pub and_then {ℓ} : {A B : Type ℓ} → Guarded A → (A → Guarded B) → Guarded B
and_then (refused status place) f = refused status place
and_then (next x) f = f x

-- The body as it comes: a missing text is `none`, or empty where the code asks for a truth only. A
-- duration is `none` where it is no number, and a number below 0 is refused as 0 is.
pub record RawAttendee : Type 0 where
  pub service_id : String
  pub duration_min : Option ℕ
  pub staff_id : Option String
  pub category_id : Option String

pub record RawBody : Type 0 where
  pub id_company : String
  pub id_workspace : String
  pub start_local_iso : Option String
  pub time_zone_client : Option String
  pub date : Option String
  pub timezone : Option String
  pub time : Option String
  pub attendees : List RawAttendee
  pub exclude_event_id : Option String
  pub id_event : Option String
  pub customer_id : String

pub record GuardAttendee : Type 0 where
  pub service_id : String
  pub duration_min : ℕ
  pub staff_id : Option String
  pub category_id : Option String

pub record GuardInput : Type 0 where
  pub id_company : String
  pub id_workspace : String
  pub start_local_iso : String
  pub time_zone_client : String
  pub attendees : List GuardAttendee
  pub exclude_event_id : Option String
  pub id_event : Option String
  pub customer_id : String

abbrev pub is_matched : String → Option String → Bool
is_matched pattern none = false
is_matched pattern (some s) = matches pattern s

abbrev is_text_given : Option String → Bool
is_text_given none = false
is_text_given (some s) = true

abbrev pub has_new : RawBody → Bool
has_new p = is_matched "0000-00-00T00:00:00" p.start_local_iso && is_text_given p.time_zone_client

-- `p?.time ? /^\d{2}:\d{2}$/.test(p.time) : true`
abbrev pub is_time_fit : Option String → Bool
is_time_fit none = true
is_time_fit (some s) = str_eq s "" || matches "00:00" s

abbrev pub has_legacy : RawBody → Bool
has_legacy p = is_matched "0000-00-00" p.date && is_text_given p.timezone && is_time_fit p.time

abbrev or_missing : Option String → String → String
or_missing none d = d
or_missing (some s) d = s

abbrev pub legacy_start : RawBody → String
legacy_start p =
    String.◌++◌ (or_missing p.date "")
      (String.◌++◌ "T" (String.◌++◌ (or_missing p.time "00:00") ":00"))

-- The loop over the attendees, with its early return.
abbrev pub positive_duration : Option ℕ → Option ℕ
positive_duration none = none
positive_duration (some n) = if ltb 0 n then some n else none

abbrev pub cons_attendee :
    RawAttendee → Option ℕ → Option (List GuardAttendee) → Option (List GuardAttendee)
cons_attendee a none rest = none
cons_attendee a (some n) none = none
cons_attendee a (some n) (some rest) = some (
    record {
      service_id = a.service_id;
      duration_min = n;
      staff_id = a.staff_id;
      category_id = a.category_id;
    }
    ∷ rest)

unfoldable pub read_attendees : List RawAttendee → Option (List GuardAttendee)
read_attendees [] = some []
read_attendees (a ∷ attendees) =
    let rest = cons_attendee a (positive_duration a.duration_min) (read_attendees attendees) in
    if is_present a.service_id then rest else none

abbrev pub input_of : RawBody → List GuardAttendee → GuardInput
input_of p attendees = record {
  id_company = p.id_company;
  id_workspace = p.id_workspace;
  start_local_iso = if has_new p then or_missing p.start_local_iso "" else legacy_start p;
  time_zone_client =
      if has_new p then or_missing p.time_zone_client "" else or_missing p.timezone "";
  attendees = attendees;
  exclude_event_id = p.exclude_event_id;
  id_event = p.id_event;
  customer_id = p.customer_id;
}

abbrev pub with_attendees : RawBody → List RawAttendee → Guarded GuardInput
with_attendees p [] = refused 400 base_validation
with_attendees p (a ∷ attendees) = elim (read_attendees (a ∷ attendees)) [
  | none ↦ refused 400 base_validation
  | some read ↦ next (input_of p read)
]

unfoldable pub base_validation_and_normalize : RawBody → Guarded GuardInput
base_validation_and_normalize p =
    if is_present p.id_company && is_present p.id_workspace
    then (if has_new p || has_legacy p
        then with_attendees p p.attendees
        else refused 400 base_validation)
    else refused 400 base_validation

-- The context of a request about bookings that are there already, such as a cancellation.
pub record LightInput : Type 0 where
  pub id_company : String
  pub id_workspace : String
  pub id_event : Option String
  pub customer_id : String

unfoldable pub base_context_simple : RawBody → Guarded LightInput
base_context_simple p =
    if is_present p.id_workspace && is_present p.id_company && is_present p.customer_id
    then next (record {
      id_company = p.id_company;
      id_workspace = p.id_workspace;
      id_event = p.id_event;
      customer_id = p.customer_id;
    })
    else refused 400 base_context
