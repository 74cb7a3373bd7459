-- ===== src/Platform/Upsert.antt =====
-- The creation and the edit of a booking by the business (upsertEvent of
-- src/services/@database/event/platform/upsertEvent.service.ts): the events and the participants, in
-- one transaction.
use text.Mathlib.Text.{◌==◌ as str_eq}
use ms_calendar_service.Base.{
  ℕ, String, Option, none, some, Bool, false, not, ◌&&◌, List, [], ◌∷◌, ◌++◌, map, keep,
  if◌then◌else◌,
}
use ms_calendar_service.Base.Sort.{sort_by}
use ms_calendar_service.Availability.Zone.{add_minutes}
use ms_calendar_service.WebBooking.Policies.{is_present}
use ms_calendar_service.Booking.{or_else, sync_group_start_end_dates}
use ms_calendar_service.Booking.Rows.{
  pending, Event, Group, Participant, Db, is_live_in, is_seated, take_text,
}
use ms_calendar_service.Update.Persist.{update_rows, update_event}
use ms_calendar_service.Platform.Payload.{
  Makers, SidebarClient, SidebarPayload, SidebarService, bury_row, bury_seat, ensure_group_events,
  normalize_group_id, present, soft_delete_group_cascade,
}
use ms_calendar_service.Platform.Commands.{is_among}

pub data UpsertResult : Type 0 where
  unsupported_type start_missing event_row_missing : UpsertResult
  upserted : List Event → UpsertResult

-- `_getEventsByGroup`, and what of it the payload does not name.
abbrev pub start_of_event : Event → ℕ
start_of_event e = e.start_date

abbrev pub events_by_group : Option String → String → Db → List Event
events_by_group none id db = []
events_by_group (some given) id db = sort_by start_of_event (keep (is_live_in id) db.events)

abbrev pub id_event_of : SidebarService → String
id_event_of s = s.id_event

abbrev pub named_ids : List SidebarService → List String
named_ids services = keep is_present (map id_event_of services)

abbrev pub id_of_event : Event → String
id_of_event e = e.id

abbrev pub obsolete_ids : List SidebarService → List Event → List String
obsolete_ids services existing =
    map id_of_event (keep (λ (e : Event). not (is_among (named_ids services) e)) existing)

abbrev pub delete_events : List String → Db → Db
delete_events ids db = record db { events = update_rows (is_among ids) bury_row db.events }

abbrev pub start_of_first : List Event → Option ℕ
start_of_first [] = none
start_of_first (e ∷ es) = some e.start_date

-- The start of the first service.
abbrev pub anchor_start_date : SidebarPayload → List Event → Group → ℕ
anchor_start_date p existing g = or_else p.start_date (
    or_else (start_of_first (keep (is_among (named_ids p.services)) existing))
      (or_else (start_of_first existing) g.start_date))

-- `_buildEventData` on a row that is there, and on a new one.
abbrev pub place_service : SidebarPayload → SidebarService → String → ℕ → ℕ → Event → Event
place_service p s id_group start end e = record e {
  id_group = id_group;
  id_company = p.id_company;
  id_service = some s.id_service;
  id_user_platform = present s.id_worker;
  start_date = start;
  end_date = end;
  title = s.name;
  service_name = some s.name;
  service_duration = some s.duration;
}

abbrev pub blank_event : String → Event
blank_event id = record {
  id = id;
  id_group = "";
  id_company = "";
  id_service = none;
  id_user_platform = none;
  start_date = 0;
  end_date = 0;
  deleted = false;
  title = "";
  service_name = none;
  service_duration = none;
  service_max_participants = some 1;
}

-- Has the service a row: an identifier that does not begin with `new-`?
unfoldable pub has_row : SidebarService → Bool
has_row s = is_present s.id_event && not (str_eq (take_text 4 s.id_event) "new-")

abbrev pub stored_service :
    Makers → SidebarPayload → SidebarService → String → ℕ → List Event → Option (Event × List Event)
stored_service makers p s id_group start events =
    let end = add_minutes start s.duration in
    let made = place_service p s id_group start end (blank_event (makers.fresh_event events)) in
    if has_row s
    then update_event s.id_event (place_service p s id_group start end) events
    else some (made, events ++ made ∷ [])

-- The loop over the services, each from the end of the one before it.
unfoldable pub upsert_services :
    Makers
    → SidebarPayload
    → String
    → List SidebarService
    → ℕ
    → List Event
    → Option (List Event × List Event)
upsert_services makers p id_group [] start events = some ([], events)
upsert_services makers p id_group (s ∷ services) start events =
    elim (stored_service makers p s id_group start events) [
      | none ↦ none
      | some (e, events') ↦
          elim (upsert_services makers p id_group services (add_minutes start s.duration) events') [
            | none ↦ none
            | some (es, final) ↦ some (e ∷ es, final)
          ]
    ]

-- `_upsertParticipants`
abbrev pub seat_of : String → SidebarClient → Participant
seat_of id_group c = record {
  id_group = id_group;
  id_client = c.id_client;
  id_client_workspace = c.id_client_workspace;
  status = pending;
  deleted = false;
}

unfoldable pub upsert_participants :
    String → List SidebarClient → List Participant → List Participant
upsert_participants id_group clients ps =
    update_rows (is_seated id_group) bury_seat ps ++ map (seat_of id_group) clients

-- A failure is a thrown error, and leaves the database `old`.
abbrev pub finished :
    SidebarPayload → String → Db → Db → Option (List Event × List Event) → UpsertResult × Db
finished p id_group old db none = (event_row_missing, old)
finished p id_group old db (some (es, events)) = (
  upserted es,
  sync_group_start_end_dates id_group (record db {
    events = events;
    participants = upsert_participants id_group p.clients db.participants;
  }),
)

-- The steps from the group on.
abbrev pub with_group :
    Makers → SidebarPayload → Option String → Db → Option (Group × Db) → UpsertResult × Db
with_group makers p given old none = (start_missing, old)
with_group makers p given old (some (g, db)) =
    let existing = events_by_group given g.id db in
    let kept = delete_events (obsolete_ids p.services existing) db in
    finished p g.id old kept
      (upsert_services makers p g.id p.services (anchor_start_date p existing g) kept.events)

abbrev pub emptied : Option String → Db → Db
emptied none db = db
emptied (some id) db = soft_delete_group_cascade id db

abbrev pub upsert_some : Makers → SidebarPayload → List SidebarService → Db → UpsertResult × Db
upsert_some makers p [] db = (upserted [], emptied (normalize_group_id makers p) db)
upsert_some makers p (s ∷ services) db =
    with_group makers p (normalize_group_id makers p) db
      (ensure_group_events makers p (normalize_group_id makers p) db)

unfoldable pub upsert_event : Makers → SidebarPayload → Db → UpsertResult × Db
upsert_event makers p db =
    if p.is_event then upsert_some makers p p.services db else (unsupported_type, db)
