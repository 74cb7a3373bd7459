-- ===== src/Booking.antt =====
-- Creating or joining the event of a web booking: createOrJoinGroupEvent and
-- _syncGroupStartEndDates of
-- src/features/event-client/services/create-event/event-client-write.service.ts, inside one database
-- transaction. A thrown error is `failed`, and the transaction then changes nothing.
pub mod Rows
pub mod Seats
pub mod Overlap
mod Examples
use text.Mathlib.Text.{◌==◌ as str_eq}
use ms_calendar_service.Base.{
  ℕ, ◌+◌, String, Option, none, some, Bool, true, false, not, ◌&&◌, List, [], ◌∷◌, ◌++◌,
  if◌then◌else◌, ltb, leb, ◌==◌, any, find, keep, max,
}
use ms_calendar_service.Availability.Assign.{Segment}
use ms_calendar_service.Booking.Rows.{
  Status, pending, accepted, is_cancelled, Event, Group, Participant, Db, is_text, group_by_id,
  holds_of_group, is_client, seats_taken, is_live_in, span_of, date_group, take_text,
}

-- The snapshot of the service, as far as the rows keep it.
pub record Service : Type 0 where
  pub id : String
  pub name : Option String
  pub duration : Option ℕ
  pub max_participants : Option ℕ

-- The parameters; `new_group_id` and `new_event_id` are the identifiers that the database makes.
pub record Request : Type 0 where
  pub id_company : String
  pub id_workspace : String
  pub id_group : Option String
  pub seg : Segment
  pub svc : Service
  pub time_zone_workspace : String
  pub note : Option String
  pub is_comment_read : Option Bool
  pub customer_id : String
  pub customer_workspace : String
  pub auto_confirm : Bool
  pub new_group_id : String
  pub new_event_id : String

pub data Action : Type 0 where
  created joined already_in : Action

pub data Failure : Type 0 where
  slot_taken no_seats professional_busy : Failure

pub data Result : Type 0 where
  done : Event → Action → Db → Result
  failed : Failure → Result

abbrev pub or_else {ℓ} : {A : Type ℓ} → Option A → A → A
or_else none d = d
or_else (some a) d = a

-- `Math.max(1, svc.maxParticipants ?? 1)`
abbrev pub capacity : Service → ℕ
capacity svc = max 1 (or_else svc.max_participants 1)

abbrev pub booking_status : Request → Status
booking_status r = if r.auto_confirm then accepted else pending

-- The filter of the query for the exact event.
unfoldable pub is_exact : Request → Db → Event → Bool
is_exact r db e =
    is_text e.id_service r.seg.service_id
    && is_text e.id_user_platform r.seg.user_id
    && e.start_date == r.seg.start
    && e.end_date == r.seg.end
    && holds_of_group (λ g. str_eq g.id_workspace r.id_workspace) (group_by_id db e.id_group)

-- The filter of the query for another event of the professional.
unfoldable pub is_overlapping : Request → Db → Event → Bool
is_overlapping r db e =
    is_text e.id_user_platform r.seg.user_id
    && ltb e.start_date r.seg.end
    && ltb r.seg.start e.end_date
    && not e.deleted
    && holds_of_group (λ g. str_eq g.id_workspace r.id_workspace && not (is_cancelled g.status))
        (group_by_id db e.id_group)

abbrev pub participant_of : Request → String → Participant
participant_of r id_group = record {
  id_group = id_group;
  id_client = r.customer_id;
  id_client_workspace = r.customer_workspace;
  status = booking_status r;
  deleted = false;
}

abbrev pub add_participant : Request → String → Db → Db
add_participant r id_group db = record db {
  participants = db.participants ++ participant_of r id_group ∷ [];
}

-- The branch on an event that exists with the same service, professional and times.
unfoldable pub join_existing : Request → Db → Event → Result
join_existing r db e =
    let already = any (is_client e.id_group r.customer_workspace) db.participants in
    let grouped =
      if leb (capacity r.svc) (seats_taken e.id_group db.participants)
      then failed no_seats
      else done e joined (add_participant r e.id_group db) in
    if already
    then done e already_in db
    else (if ltb 1 (capacity r.svc) then grouped else failed slot_taken)

abbrev pub new_group : Request → Group
new_group r = record {
  id = or_else r.id_group r.new_group_id;
  id_company = r.id_company;
  id_workspace = r.id_workspace;
  title = take_text 100 (or_else r.svc.name "Cita");
  start_date = r.seg.start;
  end_date = r.seg.end;
  comment_client = r.note;
  is_comment_read = or_else r.is_comment_read false;
  deleted = false;
  status = booking_status r;
  time_zone = r.time_zone_workspace;
}

abbrev pub new_event : Request → String → Event
new_event r id_group = record {
  id = r.new_event_id;
  id_group = id_group;
  id_company = r.id_company;
  id_service = some r.seg.service_id;
  id_user_platform = some r.seg.user_id;
  start_date = r.seg.start;
  end_date = r.seg.end;
  deleted = false;
  title = or_else r.svc.name "Cita";
  service_name = r.svc.name;
  service_duration = r.svc.duration;
  service_max_participants = r.svc.max_participants;
}

-- The group named by the request, if there is one.
abbrev pub given_group : Request → Db → Option Group
given_group r db = elim r.id_group [ none ↦ none | some id ↦ group_by_id db id ]

-- The group of the new event, with the customer among its participants.
unfoldable pub ensure_group : Request → Db → Option Group → String × Db
ensure_group r db none =
    let g = new_group r in
    (g.id, add_participant r g.id (record db { groups = db.groups ++ g ∷ [] }))
ensure_group r db (some g) =
    if any (is_client g.id r.customer_workspace) db.participants
    then (g.id, db)
    else (g.id, add_participant r g.id db)

unfoldable pub sync_group_start_end_dates : String → Db → Db
sync_group_start_end_dates id db = elim (span_of (keep (is_live_in id) db.events)) [
  | none ↦ db
  | some (s, t) ↦ record db { groups = date_group id s t db.groups }
]

unfoldable pub create_event : Request → Db → Result
create_event r db =
    let (id_group, ready) = ensure_group r db (given_group r db) in
    let e = new_event r id_group in
    let stored = record ready { events = ready.events ++ e ∷ [] } in
    done e created (sync_group_start_end_dates id_group stored)

unfoldable pub create_or_join_group_event : Request → Db → Result
create_or_join_group_event r db = elim (find (is_exact r db) db.events) [
  | some e ↦ join_existing r db e
  | none ↦
      if any (is_overlapping r db) db.events then failed professional_busy else create_event r db
]
