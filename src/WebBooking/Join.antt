-- ===== src/WebBooking/Join.antt =====
-- The choice of a group that exists for a group service (`_tryJoinExistingGroupAssignment` and
-- `findOverlappingGroupCandidates`).
use text.Mathlib.Text.{◌==◌ as str_eq}
use ms_calendar_service.Base.{
  ℕ, ◌-◌, ◌/◌, String, Option, none, some, Bool, false, not, ◌&&◌, ◌||◌, List, [], ◌∷◌,
  if◌then◌else◌, ltb, leb, ◌==◌, any, find, keep, max,
}
use ms_calendar_service.Base.Sort.{sort_by}
use ms_calendar_service.Availability.Zone.{Zone, add_minutes, minute_ms}
use ms_calendar_service.Availability.Assign.{Attendee, Segment}
use ms_calendar_service.Booking.{Service, capacity}
use ms_calendar_service.Booking.Rows.{
  Event, Db, Participant, is_text, is_cancelled, group_by_id, holds_of_group, is_seated,
  seats_taken,
}

-- Who books, and where.
pub record Party : Type 0 where
  pub id_workspace : String
  pub customer_id : String
  pub customer_workspace : String
  pub exclude_event_id : Option String

-- `userId in eligibleUserIds`
abbrev pub is_among : Option String → List String → Bool
is_among none us = false
is_among (some u) us = any (str_eq u) us

abbrev pub is_excluded : Option String → Event → Bool
is_excluded none e = false
is_excluded (some id) e = not (str_eq id "") && str_eq e.id id

unfoldable pub is_candidate : Party → String → List String → ℕ → ℕ → Db → Event → Bool
is_candidate p service eligible start end db e =
    is_text e.id_service service
    && is_among e.id_user_platform eligible
    && ltb e.start_date end
    && ltb start e.end_date
    && holds_of_group (λ g. str_eq g.id_workspace p.id_workspace && not (is_cancelled g.status))
        (group_by_id db e.id_group)
    && not (is_excluded p.exclude_event_id e)
    && not e.deleted

unfoldable pub find_overlapping_group_candidates :
    Party → String → List String → ℕ → ℕ → Db → List Event
find_overlapping_group_candidates p service eligible start end db =
    sort_by (λ (e : Event). e.start_date)
      (keep (is_candidate p service eligible start end db) db.events)

abbrev pub is_same_minutes : Zone → ℕ → ℕ → Event → Bool
is_same_minutes z start end e =
    z.whole_minute e.start_date == z.whole_minute start
    && z.whole_minute e.end_date == z.whole_minute end

-- `Math.abs(moment(event.startDate).diff(startWS, "minutes"))`; one difference is 0.
abbrev pub minutes_apart : ℕ → Event → ℕ
minutes_apart start e =
    (max e.start_date start - (if ltb e.start_date start then e.start_date else start)) / minute_ms

abbrev pub head_of {ℓ} : {A : Type ℓ} → List A → Option A
head_of [] = none
head_of (x ∷ xs) = some x

-- The exact candidate, or the one that begins nearest.
unfoldable pub pick_candidate : Zone → ℕ → ℕ → List Event → Option Event
pick_candidate z start end events = elim (find (is_same_minutes z start end) events) [
  | some e ↦ some e
  | none ↦ head_of (sort_by (minutes_apart start) events)
]

abbrev pub is_in : Party → String → Participant → Bool
is_in p id_group q =
    is_seated id_group q
    && (str_eq q.id_client p.customer_id || str_eq q.id_client_workspace p.customer_workspace)

abbrev pub segment_for : Zone → Attendee → ℕ → String → Segment
segment_for z a start u = record {
  service_id = a.service_id;
  user_id = u;
  start = z.whole_minute start;
  end = z.whole_minute (add_minutes start a.duration_min);
}

-- `Math.max(1, serviceSnapshot?.maxParticipants ?? 1)`
abbrev pub capacity_of : Option Service → ℕ
capacity_of none = 1
capacity_of (some svc) = capacity svc

-- What the picked candidate comes to; `idUserPlatformFk` is tested for truth.
unfoldable pub settle_pick :
    Zone → Party → Option Service → Attendee → ℕ → Db → Option Event → List Segment
settle_pick z p svc a start db none = []
settle_pick z p svc a start db (some e) = elim e.id_user_platform [
  | none ↦ []
  | some u ↦
      if str_eq u ""
        || leb (capacity_of svc) (seats_taken e.id_group db.participants)
        || any (is_in p e.id_group) db.participants
      then []
      else segment_for z a start u ∷ []
]

unfoldable pub try_join_existing_group_assignment :
    Zone → Party → Option Service → List String → Attendee → ℕ → Db → List Segment
try_join_existing_group_assignment z p svc eligible a start db =
    let end = add_minutes start a.duration_min in
    settle_pick z p svc a start db (
      pick_candidate z start end
        (find_overlapping_group_candidates p a.service_id eligible start end db))
