-- ===== src/Update/Entry/Examples.antt =====
-- An update from the web from its request on, and the theorems at it.
use mathlib.Core.List.{Memᴰ}
use ms_calendar_service.Base.Sets.{add_all}
use ms_calendar_service.Base.{
  ◌≡◌, ◌⊎◌, ◌*◌, ◌/◌, none, some, false, List, [], ◌∷◌, refl, find, if◌then◌else◌,
}
use text.Mathlib.Text.{◌==◌ as str_eq}
use ms_calendar_service.Base.Sort.{sort_by}
use ms_calendar_service.Availability.Zone.{Zone, utc}
use ms_calendar_service.Availability.Windows.{
  window, carve, clipped, merge_from, subtract_busy_from_shift, merge_touching_windows,
}
use ms_calendar_service.Availability.Shifts.{
  open_at, missing, biz_shifts, worker_shifts, work_shifts, local_window, shifts_of_user,
  free_of_shifts, free_of_shift, free_windows,
}
use ms_calendar_service.Availability.Assign.{Attendee, Segment}
use ms_calendar_service.Booking.{
  is_exact, is_overlapping, join_existing, ensure_group, sync_group_start_end_dates, create_event,
  create_or_join_group_event,
}
use ms_calendar_service.Booking.Rows.{Event, Db, span_of, date_group, take_text}
use ms_calendar_service.WebBooking.Policies.{matches}
use ms_calendar_service.WebBooking.Start.{
  WebInput, Calendar, validate_add_from_web_input, compute_slot_config, resolve_start_context,
}
use ms_calendar_service.WebBooking.Context.{
  Sources, AvailabilityContext, build_user_ids_by_service, build_weights_map, all_user_ids,
  build_availability_context,
}
use ms_calendar_service.Update.Persist.{
  has_id, update_rows, update_event, update_group_row, is_conflict, update_single_event,
}
use ms_calendar_service.Update.Strategy.{can_handle, resolve_update_flow_strategy}
use ms_calendar_service.Update.Rebuild.{
  is_foreign_conflict, update_kept, create_rest, drop, soft_delete, ensure_participant,
  any_conflict, ids_to_delete, rebuild_rows, rebuild_booking,
}
use ms_calendar_service.Update.Move.{
  close_class, leave_class, settle_target, leave_and_join, move_single_participant,
}
use ms_calendar_service.Update.Flows.{
  Choose, FlowResult, chosen, fast_path_in, run_fast_path_single_flow, choose_segments, rebuild_in,
  run_rebuild_booking_flow, run_pure_class_edit_flow,
}
use ms_calendar_service.Update.Flows.Chain.{IsChained, choose_segments-IsChained}
use ms_calendar_service.Update.Original.{
  busy_of, build_context, original_events, same_set, is_authorised,
}
use ms_calendar_service.Update.Entry.{
  UpdateDeps, run_class, run_single, run_flow, run_edit, run_original, run_start,
  update_event_from_web,
}
use ms_calendar_service.Update.Entry.Authorised.{
  IsDone, IsAuthorised, update_event_from_web-IsAuthorised,
}
use ms_calendar_service.Assignment.Single.{IsChosenAmong}
use ms_calendar_service.Update.Examples.{cut, db, segment}

update_run : Unit {0}
unfolding carve clipped merge_from subtract_busy_from_shift merge_touching_windows sort_by
    biz_shifts worker_shifts work_shifts local_window shifts_of_user free_of_shifts free_of_shift
    free_windows is_exact is_overlapping join_existing ensure_group sync_group_start_end_dates
    create_event create_or_join_group_event span_of date_group take_text matches
    validate_add_from_web_input compute_slot_config resolve_start_context build_user_ids_by_service
    build_weights_map all_user_ids build_availability_context update_rows update_event
    update_group_row is_conflict update_single_event can_handle resolve_update_flow_strategy
    is_foreign_conflict update_kept create_rest drop add_all soft_delete ensure_participant
    any_conflict ids_to_delete rebuild_rows rebuild_booking close_class leave_class settle_target
    leave_and_join move_single_participant fast_path_in run_fast_path_single_flow choose_segments
    rebuild_in run_rebuild_booking_flow run_pure_class_edit_flow busy_of build_context
    original_events same_set is_authorised run_class run_single run_flow run_edit run_original
    run_start update_event_from_web
update_run = tt

-- Dora moves her class to a free time of a day with hours from the first to the last minute.
abbrev zone : Zone
zone = record utc { at = λ date time. if str_eq time "00" then 0 else 86340000 }

abbrev calendar : Calendar
calendar = record {
  start_of_day = λ m. m / 86400000 * 86400000;
  date_of = λ m. "2026-05-04";
  week_day_of = λ m. "MONDAY";
}

abbrev first_staff : Choose (Unit {0})
first_staff s a b [] w = (none, w)
first_staff s a b (u ∷ us) w = (some u, w)

first_staff-IsChosenAmong : IsChosenAmong utc first_staff
first_staff-IsChosenAmong s a b [] w u h = cc
first_staff-IsChosenAmong s a b (v ∷ us) w u h = Memᴰ.head cc

abbrev input : WebInput
input = record {
  id_company = "co";
  id_workspace = "ws";
  time_zone_client = "UTC";
  start_local_iso = "2026-05-04T10:00:00";
  customer_id = "dora";
  customer_workspace = "dora";
  exclude_event_id = none;
  note = none;
  is_comment_read = none;
}

abbrev sources : Sources
sources = record {
  users_who_can_perform = λ s. "ana" ∷ [];
  business_hours = λ d. open_at (("00", "23") ∷ []);
  worker_hours_map = λ u d. missing;
  temporary_hours_map = λ u d. missing;
  busy_by_user = λ u. [];
  services_snapshot = λ s. some cut;
  resource_weights = [];
}

abbrev deps : UpdateDeps
deps = record {
  time_zone_workspace = "UTC";
  parsed = some 3000000;
  now = 0;
  mode_group = false;
  max_per_booking = 5;
  sources = sources;
  day_events = [];
  fresh = λ rows. "e9";
  new_ids = ("g9", "e9");
}

abbrev haircut : Attendee
haircut = record { service_id = "cut"; duration_min = 10 }

abbrev updated : FlowResult × Unit {0} × Db
updated =
    update_event_from_web zone calendar (λ weights. first_staff) input deps "e1" []
      (record { attendee = haircut; staff_id = none } ∷ []) tt db

updated_in_db : IsDone updated.0
unfolding update_run
updated_in_db = (_, _, _, _, refl)

update-IsAuthorised_example :
    (updated.2 ≡ db)
    ⊎ (IsDone updated.0
        × ((e : Event) × (find (has_id "e1") db.events ≡ some e) × IsAuthorised input db e))
update-IsAuthorised_example =
    update_event_from_web-IsAuthorised zone calendar (λ weights. first_staff) input deps "e1" []
      (record { attendee = haircut; staff_id = none } ∷ []) tt db

abbrev context : AvailabilityContext
context = record {
  user_ids_by_service = λ s. some ("ana" ∷ []);
  free_windows_by_user = λ u. window 0 6000000 ∷ [];
  service_by_id = λ s. some cut;
  weights_map = λ u. none;
}

abbrev two_segments : List Segment
two_segments = segment "cut" 3000000 3600000 ∷ segment "cut" 3600000 4200000 ∷ []

chosen_ok :
    (choose_segments utc first_staff context (λ s. some cut) (haircut ∷ haircut ∷ []) 3000000 tt).0
    ≡ chosen two_segments
unfolding update_run
chosen_ok = refl

chosen-IsChained_example :
    IsChained utc first_staff context (λ s. some cut) 3000000 (haircut ∷ haircut ∷ []) two_segments
chosen-IsChained_example =
    choose_segments-IsChained utc first_staff context (λ s. some cut) first_staff-IsChosenAmong
      (haircut ∷ haircut ∷ []) 3000000 tt two_segments chosen_ok
