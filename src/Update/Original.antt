-- ===== src/Update/Original.antt =====
-- The event that an update is of, with the other events of its booking, and the busy ranges of the
-- day without them (`buildContext` of
-- src/features/event-client/services/availability/event-client-availability.service.ts).
use text.Mathlib.Text.{◌==◌ as str_eq}
use ms_calendar_service.Base.Sets.{add_all}
use ms_calendar_service.Base.{
  ℕ, String, Option, none, some, Bool, true, false, not, ◌&&◌, List, [], ◌∷◌, if◌then◌else◌, ltb,
  any, keep, length, ◌==◌,
}
use ms_calendar_service.Base.Sort.{sort_by}
use ms_calendar_service.Availability.Zone.{Zone}
use ms_calendar_service.Availability.Windows.{Window, window}
use ms_calendar_service.Availability.Assign.{Attendee}
use ms_calendar_service.Booking.{Service, capacity}
use ms_calendar_service.Booking.Rows.{
  Event, Participant, Db, group_by_id, holds_of_group, is_seated,
}
use ms_calendar_service.WebBooking.Policies.{is_owner, belongs_to_workspace}
use ms_calendar_service.WebBooking.Start.{WebInput, StartContext}
use ms_calendar_service.WebBooking.Context.{
  WebAttendee, Sources, AvailabilityContext, build_availability_context,
}
use ms_calendar_service.Update.Persist.{has_id}

-- A busy range of the day, with the event that it is of.
pub record BusyEvent : Type 0 where
  pub id : String
  pub user_id : String
  pub start : ℕ
  pub end : ℕ

abbrev pub busy_window : BusyEvent → Window
busy_window e = window e.start e.end

-- `buildContext`: the busy ranges without the ignored events.
unfoldable pub busy_of : List String → List BusyEvent → String → List Window
busy_of ignored [] u = []
busy_of ignored (e ∷ events) u =
    let rest = busy_of ignored events u in
    if str_eq e.user_id u && not (any (str_eq e.id) ignored) then busy_window e ∷ rest else rest

unfoldable pub build_context :
    Zone
    → Sources
    → List BusyEvent
    → List String
    → List WebAttendee
    → StartContext
    → Option AvailabilityContext
build_context z src events ignored attendees start =
    build_availability_context z (record src { busy_by_user = busy_of ignored events }) attendees
      start

-- The live events of the booking, the earliest first; the original alone if there is none.
abbrev pub is_of_booking : String → String → Db → Event → Bool
is_of_booking group_id workspace db e =
    str_eq e.id_group group_id
    && not e.deleted
    && holds_of_group (λ g. str_eq g.id_workspace workspace) (group_by_id db e.id_group)

abbrev pub or_original : Event → List Event → List Event
or_original e [] = e ∷ []
or_original e (x ∷ xs) = x ∷ xs

unfoldable pub original_events : String → Db → Event → List Event
original_events workspace db e =
    or_original e (
      sort_by (λ (x : Event). x.start_date)
        (keep (is_of_booking e.id_group workspace db) db.events))

abbrev pub ids_of : List Event → List String
ids_of [] = []
ids_of (e ∷ es) = e.id ∷ ids_of es

abbrev pub services_of : List Event → List String
services_of [] = []
services_of (e ∷ es) = elim (e.id_service) [
  | none ↦ services_of es
  | some s ↦ if str_eq s "" then services_of es else s ∷ services_of es
]

abbrev pub requested : List WebAttendee → List String
requested [] = []
requested (a ∷ as') = a.attendee.service_id ∷ requested as'

-- Are the two sets the same?
abbrev pub every_in : List String → List String → Bool
every_in [] t = true
every_in (x ∷ xs) t = any (str_eq x) t && every_in xs t

unfoldable pub same_set : List String → List String → Bool
same_set s t =
    let s' = add_all [] s in let t' = add_all [] t in length s' == length t' && every_in s' t'

abbrev pub capacity_or_one : Option Service → ℕ
capacity_or_one none = 1
capacity_or_one (some svc) = capacity svc

-- `!!classServiceId && classCapacity > 1`
abbrev pub is_class : (String → Option Service) → List String → Bool
is_class services [] = false
is_class services (s ∷ []) = not (str_eq s "") && ltb 1 (capacity_or_one (services s))
is_class services (s ∷ t ∷ rest) = false

abbrev pub plain_attendees : List WebAttendee → List Attendee
plain_attendees [] = []
plain_attendees (a ∷ as') = a.attendee ∷ plain_attendees as'

-- The participants of the original's group, as the policy reads them.
abbrev pub identities : List Participant → List (Option String × Option String)
identities [] = []
identities (p ∷ ps) = (some p.id_client, some p.id_client_workspace) ∷ identities ps

-- The three tests on the original event, after it was found.
unfoldable pub is_authorised : WebInput → Db → Event → Bool
is_authorised input db e =
    not e.deleted
    && belongs_to_workspace
        (elim (group_by_id db e.id_group) [ none ↦ none | some g ↦ some g.id_workspace ])
        input.id_workspace
    && is_owner (identities (keep (is_seated e.id_group) db.participants)) input.customer_id
        input.customer_workspace

abbrev pub explicit_deletes : List String → List Event → List String
explicit_deletes deleted originals = add_all [] (keep (λ id. any (has_id id) originals) deleted)
