-- ===== src/Platform/UpdateById.antt =====
-- The update of one event by the business, or its move into a booking of its own
-- (src/features/event-platform/services/use-cases/update-event-by-id.use-case.ts). The function that
-- makes the identifier of a new group is a parameter. Fields of a row that no model reads are left out.
use ms_calendar_service.Base.{
  ℕ, String, Option, none, some, Bool, true, false, not, ◌&&◌, ◌||◌, List, [], ◌∷◌, keep, find,
  length, if◌then◌else◌, ltb, leb,
}
use ms_calendar_service.Base.Sets.{add_all}
use ms_calendar_service.WebBooking.Policies.{is_present}
use ms_calendar_service.Booking.{or_else}
use ms_calendar_service.Booking.Rows.{Event, Group, Db, is_seated, group_by_id}
use ms_calendar_service.Update.Persist.{update_rows, has_id}
use ms_calendar_service.Platform.Split.{
  CloneSource, active_events, clone_group_with_participants, set_id_group,
  split_original_group_if_needed, sync_group_window,
}

-- A field that is not sent is `none`; a nullable one is sent as `some none`.
pub data DateInput : Type 0 where
  not_sent not_a_date : DateInput
  date : ℕ → DateInput

pub record UpdateEventInput : Type 0 where
  pub id : String
  pub start_date : DateInput
  pub end_date : DateInput
  pub title : Option String
  pub id_user_platform : Option (Option String)
  pub id_service : Option (Option String)
  pub service_name : Option (Option String)
  pub service_duration : Option (Option ℕ)
  pub service_max_participants : Option (Option ℕ)

pub record UpdatedSingle : Type 0 where
  pub old_group_id : String
  pub old_group_services_count : ℕ
  pub affected_group_ids : List String
  pub updated_event : Event

pub record MovedEvent : Type 0 where
  pub old_group_id : String
  pub new_group_id : String
  pub old_group_services_count : ℕ
  pub old_group_had_more_than_two_services : Bool
  pub moved_was_last_in_original_group : Bool
  pub old_group_was_split : Bool
  pub old_group_has_active_events : Bool
  pub split_group_ids : List String
  pub affected_group_ids : List String
  pub updated_event : Event

pub data ByIdResult : Type 0 where
  id_required dates_required date_invalid event_not_found group_not_found order_invalid : ByIdResult
  updated_single : UpdatedSingle → ByIdResult
  moved_event : MovedEvent → ByIdResult

abbrev pub is_sent : DateInput → Bool
is_sent not_sent = false
is_sent not_a_date = true
is_sent (date n) = true

-- `_toDateOrThrow` on what is sent.
abbrev pub is_invalid : DateInput → Bool
is_invalid not_sent = false
is_invalid not_a_date = true
is_invalid (date n) = false

abbrev pub date_or : DateInput → ℕ → ℕ
date_or not_sent d = d
date_or not_a_date d = d
date_or (date n) d = n

-- The row with the data of the update.
abbrev pub build_event_update_data : UpdateEventInput → Event → Event
build_event_update_data u e = record e {
  start_date = date_or u.start_date e.start_date;
  end_date = date_or u.end_date e.end_date;
  title = or_else u.title e.title;
  id_user_platform = or_else u.id_user_platform e.id_user_platform;
  id_service = or_else u.id_service e.id_service;
  service_name = or_else u.service_name e.service_name;
  service_duration = or_else u.service_duration e.service_duration;
  service_max_participants = or_else u.service_max_participants e.service_max_participants;
}

-- `_updateSingleEvent`
abbrev pub update_single : UpdateEventInput → Event → Db → ByIdResult × Db
update_single u e db =
    let before = active_events e.id_group db in
    let edited = record db {
      events = update_rows (has_id u.id) (build_event_update_data u) db.events;
    } in
    (
      updated_single (record {
        old_group_id = e.id_group;
        old_group_services_count = length before;
        affected_group_ids = e.id_group ∷ [];
        updated_event = build_event_update_data u e;
      }),
      (sync_group_window e.id_group edited).1,
    )

abbrev pub is_last : String → List Event → Bool
is_last id [] = false
is_last id (e ∷ []) = has_id id e
is_last id (e ∷ f ∷ es) = is_last id (f ∷ es)

-- The event in its new group, whose row stands already.
abbrev pub moved_row : UpdateEventInput → String → Event → Event
moved_row u id e = set_id_group id (build_event_update_data u e)

abbrev pub move_row : UpdateEventInput → String → Db → Db
move_row u id db = record db { events = update_rows (has_id u.id) (moved_row u id) db.events }

abbrev pub with_move : UpdateEventInput → String → CloneSource → ℕ → ℕ → Db → Db
with_move u id source start end db =
    move_row u id (clone_group_with_participants source id start end db)

module _ (fresh_group : List Group → String) where
  -- `_updateManyEvent`
  abbrev pub update_many_event :
      UpdateEventInput → ℕ → ℕ → Event → CloneSource → Db → ByIdResult × Db
  update_many_event u start end e source db =
      let before = active_events e.id_group db in
      let id = fresh_group db.groups in
      let split =
        split_original_group_if_needed fresh_group source e.id_group
          (with_move u id source start end db) in
      let sync = sync_group_window e.id_group split.1 in
      if leb end start then (order_invalid, db) else (
        moved_event (record {
          old_group_id = e.id_group;
          new_group_id = id;
          old_group_services_count = length before;
          old_group_had_more_than_two_services = ltb 2 (length before);
          moved_was_last_in_original_group = is_last u.id before;
          old_group_was_split = ltb 0 (length split.0);
          old_group_has_active_events = sync.0;
          split_group_ids = split.0;
          affected_group_ids = add_all [] (e.id_group ∷ id ∷ split.0);
          updated_event = moved_row u id e;
        }),
        sync.1,
      )

  abbrev pub in_context : UpdateEventInput → Bool → Event → Option Group → Db → ByIdResult × Db
  in_context u is_many e none db = (group_not_found, db)
  in_context u is_many e (some g) db =
      let source : CloneSource = record {
        group = g;
        seats = keep (is_seated e.id_group) db.participants;
      } in
      if is_many
      then update_many_event u (date_or u.start_date 0) (date_or u.end_date 0) e source db
      else update_single u e db

  -- `_loadContext`
  abbrev pub on_event : UpdateEventInput → Bool → Option Event → Db → ByIdResult × Db
  on_event u is_many none db = (event_not_found, db)
  on_event u is_many (some e) db =
      if e.deleted
      then (event_not_found, db)
      else in_context u is_many e (group_by_id db e.id_group) db

  unfoldable pub update_event_by_id : UpdateEventInput → Bool → Db → ByIdResult × Db
  update_event_by_id u is_many db =
      if not (is_present u.id)
      then (id_required, db)
      else (if is_many && not (is_sent u.start_date && is_sent u.end_date)
          then (dates_required, db)
          else (if is_invalid u.start_date || is_invalid u.end_date
              then (date_invalid, db)
              else on_event u is_many (find (has_id u.id) db.events) db))
