-- ===== src/Slots/Day.antt =====
-- The whole of `publicGetAvailableTimeSlots_SPECIAL` of
-- src/services/@database/event/event-times.service.ts: its validations and its early answers, the
-- context of the day, and the two ways to the slots. What it asks of the database, the caches and
-- the text of a date are parameters.
use text.Mathlib.Text.{◌==◌ as str_eq}
use ms_calendar_service.Base.{
  ℕ, ◌+◌, String, Option, none, some, Bool, false, not, ◌&&◌, List, [], ◌∷◌, ◌++◌, map,
  if◌then◌else◌, ltb, any, keep,
}
use ms_calendar_service.Availability.Windows.{Window, window}
use ms_calendar_service.Availability.Shifts.{DayHours}
use ms_calendar_service.Slots.{TimeSlot}
use ms_calendar_service.Slots.Single.{GroupEvent}

pub data DayStatus : Type 0 where
  available completed past out_of_window no_staff no_services : DayStatus

-- What is thrown.
pub data SlotsError : Type 0 where
  missing_ids missing_workspace_zone missing_client_zone bad_date missing_snapshot : SlotsError
  group_combined : SlotsError

-- `unfinished` is a run out of fuel.
pub data Answer : Type 0 where
  failed : SlotsError → Answer
  answered : List TimeSlot → DayStatus → Answer
  unfinished : Answer

pub record SlotAttendee : Type 0 where
  pub service_id : String
  pub staff_id : Option String
  pub duration_min : ℕ

pub record SlotsInput : Type 0 where
  pub id_company : String
  pub id_workspace : String
  pub time_zone_workspace : String
  pub time_zone_client : String
  pub date : String
  pub attendees : List SlotAttendee
  pub id_client : Option String

-- The configuration of the booking page, with its defaults.
pub record BookingConfig : Type 0 where
  pub max_advance_days : ℕ
  pub min_lead_time_min : ℕ
  pub is_service_aligned : Bool
  pub step_minutes : ℕ
  pub professional_allowed : List String
  pub use_biz_fallback : Bool

pub record ServiceSnapshot : Type 0 where
  pub duration_min : ℕ
  pub max_participants : ℕ

-- A row of the workspace's events, neither cancelled nor the excluded one.
pub record EventRow : Type 0 where
  pub user_id : String
  pub start : ℕ
  pub end : ℕ

-- What is read from outside. The day of a text is given by its first instants in the zone of the
-- workspace and in UTC, and its last ones. `snapshots` is `none` if a service is not found.
pub record SlotsDeps : Type 0 where
  pub local_day : String → ℕ × ℕ
  pub utc_day : String → ℕ × ℕ
  pub end_of_day_after : ℕ → ℕ → ℕ
  pub now : ℕ
  pub snapshots : Option (String → Option ServiceSnapshot)
  pub users_of : String → List String
  pub week_day : String → String
  pub business_hours : String → DayHours
  pub worker_hours_map : String → String → DayHours
  pub temporary_hours_map : String → String → DayHours
  pub events : List EventRow
  pub group_events : List GroupEvent

-- `getEventsOverlappingRange_SPECIAL` reads its two dates as days of UTC.
unfoldable pub get_events_overlapping_range : ℕ × ℕ → List EventRow → List EventRow
get_events_overlapping_range (day_start, day_end) events =
    keep (λ (e : EventRow). ltb e.start day_end && ltb day_start e.end) events

abbrev pub window_of : EventRow → Window
window_of e = window e.start e.end

-- `groupEventsByUser_SPECIAL`
abbrev pub busy_windows_of : List EventRow → String → List Window
busy_windows_of events uid = map window_of (keep (λ (e : EventRow). str_eq e.user_id uid) events)

abbrev pub snapshot_duration : (String → Option ServiceSnapshot) → SlotAttendee → ℕ
snapshot_duration snapshots a = elim (snapshots a.service_id) [
  | none ↦ a.duration_min
  | some s ↦ s.duration_min
]

abbrev pub snapshot_participants : (String → Option ServiceSnapshot) → SlotAttendee → ℕ
snapshot_participants snapshots a = elim (snapshots a.service_id) [
  | none ↦ 1
  | some s ↦ s.max_participants
]

unfoldable pub sum_requested : List SlotAttendee → ℕ
sum_requested [] = 0
sum_requested (a ∷ attendees) = a.duration_min + sum_requested attendees

-- `stepMinutes`: the interval, or 30.
unfoldable pub step_of : BookingConfig → List SlotAttendee → ℕ
step_of config attendees =
    let interval =
      if config.is_service_aligned then sum_requested attendees else config.step_minutes in
    if ltb 0 interval then interval else 30

abbrev pub includes : List String → String → Bool
includes ids id = any (str_eq id) ids

abbrev pub is_given : Option String → Bool
is_given none = false
is_given (some id) = not (str_eq id "")

-- The professionals of one attendee, an entry of the map.
abbrev pub users_for : BookingConfig → SlotsDeps → SlotAttendee → List String
users_for config deps a = elim a.staff_id [
  | none ↦ keep (includes config.professional_allowed) (deps.users_of a.service_id)
  | some id ↦
      if is_given a.staff_id
      then (if includes config.professional_allowed id then id ∷ [] else [])
      else keep (includes config.professional_allowed) (deps.users_of a.service_id)
]

-- The later entry of a service wins, and an attendee without a service has no entry.
unfoldable pub user_ids_by_service :
    BookingConfig → SlotsDeps → List SlotAttendee → String → Option (List String)
user_ids_by_service config deps [] id = none
user_ids_by_service config deps (a ∷ attendees) id =
    elim (user_ids_by_service config deps attendees id) [
      | some later ↦ some later
      | none ↦
          if str_eq a.service_id id && not (str_eq id "")
          then some (users_for config deps a)
          else none
    ]

abbrev pub eligible_for : BookingConfig → SlotsDeps → List SlotAttendee → String → List String
eligible_for config deps attendees id = elim (user_ids_by_service config deps attendees id) [
  | none ↦ []
  | some ids ↦ ids
]

-- `allUserIds`, with repetitions.
unfoldable pub requested_user_ids : (String → List String) → List SlotAttendee → List String
requested_user_ids eligible [] = []
requested_user_ids eligible (a ∷ attendees) =
    eligible a.service_id ++ requested_user_ids eligible attendees
