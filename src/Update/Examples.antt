-- ===== src/Update/Examples.antt =====
-- Updates on a small database, and the theorems at them.
use ms_calendar_service.Base.Sets.{add_all}
use ms_calendar_service.Base.{
  ℕ, ◌≡◌, ◌+◌, ◌++◌, String, none, some, true, false, List, [], ◌∷◌, refl, arith, All, any, find,
}
use text.Mathlib.Text.{◌==◌ as str_eq}
use ms_calendar_service.Base.Sort.{sort_by}
use ms_calendar_service.Availability.Windows.{
  carve, clipped, merge_from, subtract_busy_from_shift, merge_touching_windows,
}
use ms_calendar_service.Availability.Shifts.{
  biz_shifts, worker_shifts, work_shifts, local_window, shifts_of_user, free_of_shifts,
  free_of_shift, free_windows,
}
use ms_calendar_service.Availability.Assign.{Segment}
use ms_calendar_service.Booking.{
  Service, Request, created, joined, is_exact, is_overlapping, join_existing, ensure_group,
  sync_group_start_end_dates, create_event, create_or_join_group_event,
}
use ms_calendar_service.Booking.Rows.{
  accepted, cancelled, Status, Event, Group, Participant, Db, span_of, date_group, take_text,
  is_client,
}
use ms_calendar_service.WebBooking.Policies.{matches}
use ms_calendar_service.WebBooking.Start.{
  validate_add_from_web_input, compute_slot_config, resolve_start_context,
}
use ms_calendar_service.WebBooking.Context.{
  build_user_ids_by_service, build_weights_map, all_user_ids, build_availability_context,
}
use ms_calendar_service.Update.Persist.{
  GroupEdit, SingleResult, updated_in_place, single_failed, has_id, update_rows, update_event,
  update_group_row, is_conflict, update_single_event,
}
use ms_calendar_service.Update.Strategy.{can_handle, resolve_update_flow_strategy}
use ms_calendar_service.Update.Single.{IsFree, IsPlaced, update_single_event-IsPlaced}
use ms_calendar_service.Update.Rebuild.{
  RebuildInput, RebuildResult, rebuilt, rebuild_failed, is_foreign_conflict, update_kept,
  create_rest, drop, soft_delete, ensure_participant, any_conflict, ids_to_delete, rebuild_rows,
  rebuild_booking,
}
use ms_calendar_service.Update.Rebuild.Laws.{IsRebuilt, rebuild_booking-IsRebuilt}
use ms_calendar_service.Update.Move.{
  MoveResult, moved, move_failed, close_class, leave_class, settle_target, leave_and_join,
  move_single_participant,
}
use ms_calendar_service.Update.Move.Laws.{
  after_leaving, move_to_new_event_stays, move_to_joined_event_breaks,
}
use ms_calendar_service.Update.Flows.{
  fast_path_in, run_fast_path_single_flow, choose_segments, rebuild_in, run_rebuild_booking_flow,
  run_pure_class_edit_flow,
}
use ms_calendar_service.Update.Original.{
  busy_of, build_context, original_events, same_set, is_authorised,
}
use ms_calendar_service.Update.Entry.{
  run_class, run_single, run_flow, run_edit, run_original, run_start, update_event_from_web,
}

update_run : Unit {0}
unfolding carve clipped merge_from subtract_busy_from_shift merge_touching_windows sort_by
    biz_shifts worker_shifts work_shifts local_window shifts_of_user free_of_shifts free_of_shift
    free_windows is_exact is_overlapping join_existing ensure_group sync_group_start_end_dates
    create_event create_or_join_group_event span_of date_group take_text matches
    validate_add_from_web_input compute_slot_config resolve_start_context build_user_ids_by_service
    build_weights_map all_user_ids build_availability_context update_rows update_event
    update_group_row is_conflict update_single_event can_handle resolve_update_flow_strategy
    is_foreign_conflict update_kept create_rest drop add_all soft_delete ensure_participant
    any_conflict ids_to_delete rebuild_rows rebuild_booking close_class leave_class settle_target
    leave_and_join move_single_participant fast_path_in run_fast_path_single_flow choose_segments
    rebuild_in run_rebuild_booking_flow run_pure_class_edit_flow busy_of build_context
    original_events same_set is_authorised run_class run_single run_flow run_edit run_original
    run_start update_event_from_web
update_run = tt

abbrev pub yoga : Service
yoga = record { id = "yoga"; name = some "Yoga"; duration = some 10; max_participants = some 3 }

abbrev pub cut : Service
cut = record { id = "cut"; name = some "Cut"; duration = some 10; max_participants = none }

abbrev pub event : String → String → String → ℕ → ℕ → Event
event id id_group service start end = record {
  id = id;
  id_group = id_group;
  id_company = "co";
  id_service = some service;
  id_user_platform = some "ana";
  start_date = start;
  end_date = end;
  deleted = false;
  title = "Title";
  service_name = none;
  service_duration = none;
  service_max_participants = none;
}

abbrev pub group : String → Status → Group
group id status = record {
  id = id;
  id_company = "co";
  id_workspace = "ws";
  title = "Title";
  start_date = 0;
  end_date = 600000;
  comment_client = none;
  is_comment_read = false;
  deleted = false;
  status = status;
  time_zone = "UTC";
}

abbrev pub seat : String → String → Participant
seat id_group client = record {
  id_group = id_group;
  id_client = client;
  id_client_workspace = client;
  status = accepted;
  deleted = false;
}

-- Dora and Eva attend the first class, Flo the second; Gil's later haircut was cancelled.
abbrev pub db : Db
db = record {
  events =
      event "e1" "g1" "yoga" 0 600000
      ∷ event "e2" "g2" "yoga" 6000000 6600000
      ∷ event "e3" "g3" "cut" 9000000 9600000
      ∷ [];
  groups = group "g1" accepted ∷ group "g2" accepted ∷ group "g3" cancelled ∷ [];
  participants = seat "g1" "dora" ∷ seat "g1" "eva" ∷ seat "g2" "flo" ∷ seat "g3" "gil" ∷ [];
}

abbrev pub segment : String → ℕ → ℕ → Segment
segment service start end = record {
  service_id = service;
  user_id = "ana";
  start = start;
  end = end;
}

abbrev request : ℕ → ℕ → Request
request start end = record {
  id_company = "co";
  id_workspace = "ws";
  id_group = some "g1";
  seg = segment "yoga" start end;
  svc = yoga;
  time_zone_workspace = "UTC";
  note = none;
  is_comment_read = none;
  customer_id = "dora";
  customer_workspace = "dora";
  auto_confirm = true;
  new_group_id = "g9";
  new_event_id = "e9";
}

abbrev move_to : ℕ → ℕ → MoveResult
move_to start end = move_single_participant "g1" "e1" (request start end) db

abbrev event_of : MoveResult → Event
event_of (moved e a deleted db') = e
event_of (move_failed why) = event "" "" "" 0 0

abbrev db_of : MoveResult → Db
db_of (moved e a deleted db') = db'
db_of (move_failed why) = db

moved_to_new :
    move_to 3000000 3600000
    ≡ moved (event_of (move_to 3000000 3600000)) created [] (db_of (move_to 3000000 3600000))
unfolding update_run
moved_to_new = refl

moved_to_joined :
    move_to 6000000 6600000
    ≡ moved (event_of (move_to 6000000 6600000)) joined [] (db_of (move_to 6000000 6600000))
unfolding update_run
moved_to_joined = refl

move_new_example :
    ((event_of (move_to 3000000 3600000)).id_group ≡ "g1")
    × ((db_of (move_to 3000000 3600000)).events
        ≡ db.events ++ event_of (move_to 3000000 3600000) ∷ [])
    × (any (is_client "g1" "dora") (db_of (move_to 3000000 3600000)).participants ≡ true)
move_new_example =
    move_to_new_event_stays "g1" "e1" (request 3000000 3600000) (group "g1" accepted) db
      (event_of (move_to 3000000 3600000)) [] (db_of (move_to 3000000 3600000))
      (λ h. omega (arith, h)) refl refl moved_to_new

move_joined_example :
    (x : Event) × (find
        (is_exact (request 6000000 6600000) (after_leaving "g1" (request 6000000 6600000) db))
        (after_leaving "g1" (request 6000000 6600000) db).events
      ≡ some x)
    × ((event_of (move_to 6000000 6600000)).id_group ≡ "g1")
    × (any (is_client x.id_group "dora") (db_of (move_to 6000000 6600000)).participants ≡ true)
    × (str_eq x.id_group "g1" ≡ false
        → All
            (λ y. has_id x.id y ≡ true → y.id_group ≡ "g1")
            (db_of (move_to 6000000 6600000)).events)
move_joined_example =
    move_to_joined_event_breaks "g1" "e1" (request 6000000 6600000) db
      (event_of (move_to 6000000 6600000)) [] (db_of (move_to 6000000 6600000)) moved_to_joined

abbrev edit : GroupEdit
edit = record {
  group_id = "g1";
  id_workspace = "ws";
  note = none;
  is_comment_read = none;
  time_zone = "UTC";
}

abbrev single : SingleResult
single = update_single_event edit (segment "cut" 3000000 3600000) (some cut) "e1" db

abbrev single_event : SingleResult → Event
single_event (updated_in_place e db') = e
single_event (single_failed why) = event "" "" "" 0 0

abbrev single_db : SingleResult → Db
single_db (updated_in_place e db') = db'
single_db (single_failed why) = db

single_ok : single ≡ updated_in_place (single_event single) (single_db single)
unfolding update_run
single_ok = refl

single-IsPlaced_example :
    All (IsFree edit (segment "cut" 3000000 3600000) "e1" db) db.events
    × IsPlaced edit
        (segment "cut" 3000000 3600000)
        (some cut)
        "e1"
        db
        (single_event single)
        (single_db single)
single-IsPlaced_example =
    update_single_event-IsPlaced edit (segment "cut" 3000000 3600000) (some cut) "e1" db
      (single_event single) (single_db single) single_ok

-- Two segments for a booking of one event; nothing is deleted.
abbrev rebuild : ℕ → RebuildInput
rebuild start = record {
  edit = edit;
  id_company = "co";
  customer_id = "dora";
  customer_workspace = "dora";
  chosen_segments =
      segment "cut" start (start + 600000) ∷ segment "yoga" (start + 600000) (start + 1200000) ∷ [];
  original_ids = "e1" ∷ [];
  originals_kept = "e1" ∷ [];
  explicit_delete_ids = [];
  services = λ s. some yoga;
  fresh = λ rows. "e9";
}

abbrev rebuilt_parts : RebuildResult → List Event × List Event × List String × Db
rebuilt_parts (rebuilt updated made deleted db') = (updated, made, deleted, db')
rebuilt_parts (rebuild_failed why) = ([], [], [], db)

abbrev parts : List Event × List Event × List String × Db
parts = rebuilt_parts (rebuild_booking (rebuild 3000000) db)

rebuild_ok : rebuild_booking (rebuild 3000000) db ≡ rebuilt parts.0 parts.1 parts.2 parts.3
unfolding update_run
rebuild_ok = refl

rebuild-IsRebuilt_example : IsRebuilt (rebuild 3000000) db parts.0 parts.1 parts.2 parts.3
rebuild-IsRebuilt_example =
    rebuild_booking-IsRebuilt (rebuild 3000000) db parts.0 parts.1 parts.2 parts.3 rebuild_ok
