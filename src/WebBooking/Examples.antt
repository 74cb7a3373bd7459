-- ===== src/WebBooking/Examples.antt =====
-- A request from the web on a small database, and the theorems at it.
use ms_calendar_service.Base.{
  ℕ, ◌≡◌, ◌/◌, ◌*◌, String, Option, none, some, true, false, List, [], ◌∷◌, refl, length,
  if◌then◌else◌,
}
use text.Mathlib.Text.{◌==◌ as str_eq}
use ms_calendar_service.Base.Int.{ℤ}
use ms_calendar_service.Base.Sort.{sort_by}
use ms_calendar_service.Availability.Zone.{Zone, utc}
use ms_calendar_service.Availability.Windows.{
  carve, clipped, merge_from, subtract_busy_from_shift, merge_touching_windows,
}
use ms_calendar_service.Availability.Shifts.{
  open_at, missing, biz_shifts, worker_shifts, work_shifts, local_window, shifts_of_user,
  free_of_shifts, free_of_shift, free_windows,
}
use ms_calendar_service.Availability.Assign.{Attendee, Segment}
use ms_calendar_service.Assignment.{
  get_assignment_mode, settle_single, execute_single_individual, execute_single_group,
}
use ms_calendar_service.Booking.{
  Service, Request, failed, professional_busy, is_exact, is_overlapping, join_existing,
  ensure_group, sync_group_start_end_dates, create_event, create_or_join_group_event,
}
use ms_calendar_service.Booking.Rows.{accepted, Event, Group, Db, span_of, date_group, take_text}
use ms_calendar_service.WebBooking.Policies.{matches}
use ms_calendar_service.WebBooking.Start.{
  WebInput, Calendar, validate_add_from_web_input, compute_slot_config, resolve_start_context,
}
use ms_calendar_service.WebBooking.Join.{
  Party, is_candidate, find_overlapping_group_candidates, pick_candidate, settle_pick,
  try_join_existing_group_assignment,
}
use ms_calendar_service.WebBooking.Create.{
  booked, rolled_back, create_segment, create_segments, update_group, sync_group_id,
  create_assignments_and_sync_group_id,
}
use ms_calendar_service.WebBooking.Context.{
  WebAttendee, Sources, build_user_ids_by_service, build_weights_map, all_user_ids,
  build_availability_context,
}
use ms_calendar_service.WebBooking.{
  Deps, Outcome, execute_mode, resolve_assignment, response_of, finish, create_for, book, book_from,
  add_event_from_web,
}
use ms_calendar_service.WebBooking.Grouped.{IsGrouped, create_assignments-IsGrouped}

web_run : Unit {0}
unfolding carve clipped merge_from subtract_busy_from_shift merge_touching_windows sort_by
    biz_shifts worker_shifts work_shifts local_window shifts_of_user free_of_shifts free_of_shift
    free_windows get_assignment_mode settle_single execute_single_individual execute_single_group
    is_exact is_overlapping join_existing ensure_group sync_group_start_end_dates create_event
    create_or_join_group_event span_of date_group take_text matches validate_add_from_web_input
    compute_slot_config resolve_start_context is_candidate find_overlapping_group_candidates
    pick_candidate settle_pick try_join_existing_group_assignment create_segment create_segments
    update_group sync_group_id create_assignments_and_sync_group_id build_user_ids_by_service
    build_weights_map all_user_ids build_availability_context execute_mode resolve_assignment
    response_of finish create_for book book_from add_event_from_web
web_run = tt

abbrev yoga : Service
yoga = record { id = "yoga"; name = some "Yoga"; duration = some 10; max_participants = some 2 }

abbrev party : Party
party = record {
  id_workspace = "ws";
  customer_id = "dora";
  customer_workspace = "dora";
  exclude_event_id = none;
}

abbrev yoga_event : Event
yoga_event = record {
  id = "e1";
  id_group = "g1";
  id_company = "co";
  id_service = some "yoga";
  id_user_platform = some "ana";
  start_date = 60000;
  end_date = 660000;
  deleted = false;
  title = "Yoga";
  service_name = some "Yoga";
  service_duration = some 10;
  service_max_participants = some 2;
}

abbrev yoga_group : Group
yoga_group = record {
  id = "g1";
  id_company = "co";
  id_workspace = "ws";
  title = "Yoga";
  start_date = 60000;
  end_date = 660000;
  comment_client = none;
  is_comment_read = false;
  deleted = false;
  status = accepted;
  time_zone = "UTC";
}

abbrev yoga_db : Db
yoga_db = record { events = yoga_event ∷ []; groups = yoga_group ∷ []; participants = [] }

abbrev class_of : Attendee
class_of = record { service_id = "yoga"; duration_min = 10 }

abbrev late_segment : Segment
late_segment = record { service_id = "yoga"; user_id = "ana"; start = 120000; end = 720000 }

abbrev request_for : Segment → Service → Db → Request
request_for seg svc db = record {
  id_company = "co";
  id_workspace = "ws";
  id_group = none;
  seg = seg;
  svc = svc;
  time_zone_workspace = "UTC";
  note = none;
  is_comment_read = none;
  customer_id = "dora";
  customer_workspace = "dora";
  auto_confirm = true;
  new_group_id = "g2";
  new_event_id = "e2";
}

-- The class began a minute before the requested start, so the nearest pick is not exact.
late_join :
    try_join_existing_group_assignment utc party
      (some yoga)
      ("ana" ∷ "berta" ∷ [])
      class_of
      120000
      yoga_db
    ≡ late_segment ∷ []
unfolding web_run
late_join = refl

late_join_fails :
    create_or_join_group_event (request_for late_segment yoga yoga_db) yoga_db
    ≡ failed professional_busy
unfolding web_run
late_join_fails = refl

abbrev empty_db : Db
empty_db = record { events = []; groups = []; participants = [] }

abbrev class_segment : Segment
class_segment = record { service_id = "yoga"; user_id = "ana"; start = 60000; end = 660000 }

abbrev input : WebInput
input = record {
  id_company = "co";
  id_workspace = "ws";
  time_zone_client = "UTC";
  start_local_iso = "2026-05-04T10:00:00";
  customer_id = "dora";
  customer_workspace = "dora";
  exclude_event_id = none;
  note = none;
  is_comment_read = none;
}

abbrev deps : Deps
deps = record {
  time_zone_workspace = "UTC";
  auto_confirm = true;
  parsed = some 600000;
  now = 0;
  shared_group_id = "shared";
  new_ids = λ db. ("g2", "e2");
}

abbrev calendar : Calendar
calendar = record {
  start_of_day = λ m. m / 86400000 * 86400000;
  date_of = λ m. "2026-05-04";
  week_day_of = λ m. "MONDAY";
}

abbrev sources : Sources
sources = record {
  users_who_can_perform = λ s. "ana" ∷ [];
  business_hours = λ d. open_at (("10", "20") ∷ []);
  worker_hours_map = λ u d. missing;
  temporary_hours_map = λ u d. missing;
  busy_by_user = λ u. [];
  services_snapshot = λ s. some yoga;
  resource_weights = [];
}

abbrev first_staff :
    (String → Option ℤ) → String → ℕ → ℕ → List String → Unit {0} → Option String × Unit {0}
first_staff weights s a b [] w = (none, w)
first_staff weights s a b (u ∷ us) w = (some u, w)

abbrev zone : Zone
zone = record utc { at = λ date time. if str_eq time "10" then 0 else 86400000 }

abbrev classes : List WebAttendee
classes = record { attendee = class_of; staff_id = none } ∷ []

abbrev result : Outcome × Unit {0} × Db
result = add_event_from_web zone calendar first_staff sources input deps classes tt empty_db

abbrev class_services : String → Option Service
class_services s = some yoga

abbrev stored_item : Event
stored_item = record yoga_event { id = "e2"; id_group = "g2" }

abbrev stored_db : Db
stored_db =
    elim (create_assignments_and_sync_group_id class_services request_for (class_segment ∷ [])
      empty_db) [ booked items db ↦ db | rolled_back why ↦ empty_db ]

web_stored :
    create_assignments_and_sync_group_id class_services request_for (class_segment ∷ []) empty_db
    ≡ booked (stored_item ∷ []) stored_db
unfolding web_run
web_stored = refl

web-IsGrouped_example :
    (length (stored_item ∷ []) ≡ length (class_segment ∷ []))
    × ((target : String) × IsGrouped target (stored_item ∷ []) stored_db)
web-IsGrouped_example =
    create_assignments-IsGrouped class_services request_for (class_segment ∷ []) empty_db stored_db
      (stored_item ∷ []) web_stored
