-- ===== src/Update/Entry.antt =====
-- `updateEventFromWebBase`: the checks of an update, the choice of its flow, and the flow.
pub mod Authorised
mod Examples
use text.Mathlib.Text.{◌==◌ as str_eq}
use ms_calendar_service.Base.Sets.{add_all}
use ms_calendar_service.Base.{
  ℕ, String, Option, none, some, Bool, true, false, not, ◌&&◌, List, [], ◌∷◌, ◌++◌, if◌then◌else◌,
  ltb, leb, any, find, keep, map, length, max, ◌==◌,
}
use ms_calendar_service.Base.Int.{ℤ}
use ms_calendar_service.Base.Sort.{sort_by}
use ms_calendar_service.Availability.Zone.{Zone}
use ms_calendar_service.Availability.Windows.{Window, window}
use ms_calendar_service.Availability.Assign.{Attendee, Segment}
use ms_calendar_service.Booking.{Service, Request, capacity}
use ms_calendar_service.Booking.Rows.{
  Event, Group, Participant, Db, group_by_id, holds_of_group, is_seated,
}
use ms_calendar_service.WebBooking.Policies.{
  is_owner, belongs_to_workspace, can_edit, is_day_in_past,
}
use ms_calendar_service.WebBooking.Start.{
  WebInput, Calendar, StartContext, validate_add_from_web_input, resolve_start_context,
}
use ms_calendar_service.WebBooking.Context.{
  WebAttendee, Sources, AvailabilityContext, build_availability_context, build_weights_map,
}
use ms_calendar_service.Update.Persist.{GroupEdit, has_id}
use ms_calendar_service.Update.Strategy.{
  UpdateFlow, pure_class_edit, rebuild_booking, FlowContext, resolve_update_flow_strategy,
  update_flow_strategies,
}
use ms_calendar_service.Update.Rebuild.{RebuildInput}
use ms_calendar_service.Update.Flows.{
  Choose, Refusal, day_in_past, time_passed, service_changed_on_edit, FlowResult, flow_refused,
  flow_thrown, run_fast_path_single_flow, run_rebuild_booking_flow, run_pure_class_edit_flow,
}
use ms_calendar_service.Update.Original.{
  BusyEvent, build_context, original_events, ids_of, services_of, requested, same_set, is_class,
  plain_attendees, is_authorised, explicit_deletes,
}

-- What the request and its surroundings give. `mode_group` is the mode of a group update.
pub record UpdateDeps : Type 0 where
  pub time_zone_workspace : String
  pub parsed : Option ℕ
  pub now : ℕ
  pub mode_group : Bool
  pub max_per_booking : ℕ
  pub sources : Sources
  pub day_events : List BusyEvent
  pub fresh : List Event → String
  pub new_ids : String × String

abbrev pub edit_of : WebInput → UpdateDeps → Event → GroupEdit
edit_of input deps e = record {
  group_id = e.id_group;
  id_workspace = input.id_workspace;
  note = input.note;
  is_comment_read = input.is_comment_read;
  time_zone = deps.time_zone_workspace;
}

-- What the flows share, once the original event is authorised.
pub record Edit : Type 0 where
  pub original : Event
  pub originals : List Event
  pub deletes : List String
  pub services : String → Option Service
  pub weights : String → Option ℤ
  pub edit : GroupEdit

abbrev pub edit_for : WebInput → UpdateDeps → List String → Db → Event → Edit
edit_for input deps deleted db e =
    let originals = original_events input.id_workspace db e in
    record {
      original = e;
      originals = originals;
      deletes = explicit_deletes deleted originals;
      services = deps.sources.services_snapshot;
      weights = build_weights_map deps.sources.resource_weights (λ u. none);
      edit = edit_of input deps e;
    }

-- `attendees.length === 1 && originalEvents.length === 1 && explicitDeletes.size === 0`
abbrev pub is_single : Edit → List WebAttendee → Bool
is_single ed attendees = length attendees == 1 && length ed.originals == 1 && length ed.deletes == 0

abbrev pub flow_context : Edit → List WebAttendee → FlowContext
flow_context ed attendees = record {
  is_pure_class_edit =
      is_class ed.services (add_all [] (requested attendees)) && is_single ed attendees;
  fast_path_single = is_single ed attendees;
}

abbrev request_for : WebInput → UpdateDeps → Edit → Service → Segment → Request
request_for input deps ed svc seg = record {
  id_company = input.id_company;
  id_workspace = input.id_workspace;
  id_group = some ed.original.id_group;
  seg = seg;
  svc = svc;
  time_zone_workspace = deps.time_zone_workspace;
  note = input.note;
  is_comment_read = none;
  customer_id = input.customer_id;
  customer_workspace = input.customer_workspace;
  auto_confirm = true;
  new_group_id = (deps.new_ids).0;
  new_event_id = (deps.new_ids).1;
}

abbrev rebuild_input : WebInput → UpdateDeps → Edit → RebuildInput
rebuild_input input deps ed = record {
  edit = ed.edit;
  id_company = input.id_company;
  customer_id = input.customer_id;
  customer_workspace = input.customer_workspace;
  chosen_segments = [];
  original_ids = add_all [] (ids_of ed.originals);
  originals_kept = keep (λ id. not (any (str_eq id) ed.deletes)) (ids_of ed.originals);
  explicit_delete_ids = ed.deletes;
  services = ed.services;
  fresh = deps.fresh;
}

module _ {W : Type 0} (z : Zone) (cal : Calendar) (choose : (String → Option ℤ) → Choose W) where
  -- The flow for one attendee is never run for another number of them.
  unfoldable pub run_class :
      WebInput
      → UpdateDeps
      → Edit
      → StartContext
      → List WebAttendee
      → Option Service
      → W
      → Db
      → FlowResult × W × Db
  run_class input deps ed start (a ∷ []) (some svc) w db =
      run_pure_class_edit_flow z (choose ed.weights) deps.sources.users_who_can_perform (some svc)
        (request_for input deps ed svc) ed.original.id_group ed.original.id start.start_ws a w db
  run_class input deps ed start (a ∷ []) none w db = (flow_thrown, w, db)
  run_class input deps ed start [] svc w db = (flow_thrown, w, db)
  run_class input deps ed start (a ∷ b ∷ rest) svc w db = (flow_thrown, w, db)

  abbrev snapshot_for : Edit → List WebAttendee → Option Service
  snapshot_for ed [] = none
  snapshot_for ed (a ∷ rest) = ed.services a.attendee.service_id

  unfoldable pub run_single :
      UpdateDeps → Edit → StartContext → List WebAttendee → W → Db → FlowResult × W × Db
  run_single deps ed start (a ∷ []) w db =
      run_fast_path_single_flow z (choose ed.weights)
        (build_context z deps.sources deps.day_events (ed.original.id ∷ ids_of ed.originals)
          (a ∷ []) start)
        ed.edit (ed.services a.attendee.service_id) ed.original.id start.start_ws a.attendee w db
  run_single deps ed start [] w db = (flow_thrown, w, db)
  run_single deps ed start (a ∷ b ∷ rest) w db = (flow_thrown, w, db)

  unfoldable pub run_flow :
      WebInput
      → UpdateDeps
      → Edit
      → StartContext
      → List WebAttendee
      → Option UpdateFlow
      → W
      → Db
      → FlowResult × W × Db
  run_flow input deps ed start attendees none w db = (flow_thrown, w, db)
  run_flow input deps ed start attendees (some pure_class_edit) w db =
      run_class input deps ed start attendees (snapshot_for ed attendees) w db
  run_flow input deps ed start attendees (some UpdateFlow.fast_path_single) w db =
      run_single deps ed start attendees w db
  run_flow input deps ed start attendees (some UpdateFlow.rebuild_booking) w db =
      run_rebuild_booking_flow z (choose ed.weights)
        (build_context z deps.sources deps.day_events (ids_of ed.originals ++ ed.deletes) attendees
          start)
        (rebuild_input input deps ed) deps.max_per_booking (length attendees) start.start_ws
        (plain_attendees attendees) w db

  -- With the original event found and authorised.
  unfoldable pub run_edit :
      WebInput → UpdateDeps → Edit → StartContext → List WebAttendee → W → Db → FlowResult × W × Db
  run_edit input deps ed start attendees w db =
      if can_edit deps.mode_group (same_set (services_of ed.originals) (requested attendees))
      then run_flow input deps ed start attendees
          (resolve_update_flow_strategy update_flow_strategies (flow_context ed attendees)) w db
      else (flow_refused service_changed_on_edit, w, db)

  unfoldable pub run_original :
      WebInput
      → UpdateDeps
      → List String
      → StartContext
      → List WebAttendee
      → Option Event
      → W
      → Db
      → FlowResult × W × Db
  run_original input deps deleted start attendees none w db = (flow_thrown, w, db)
  run_original input deps deleted start attendees (some e) w db =
      if is_authorised input db e
      then run_edit input deps (edit_for input deps deleted db e) start attendees w db
      else (flow_thrown, w, db)

  unfoldable pub run_start :
      WebInput
      → UpdateDeps
      → String
      → List String
      → List WebAttendee
      → ℕ
      → W
      → Db
      → FlowResult × W × Db
  run_start input deps id_event deleted attendees start w db =
      elim (resolve_start_context z cal start deps.now) [
        | none ↦ (
          flow_refused (
              if is_day_in_past (cal.start_of_day start) (cal.start_of_day deps.now)
              then day_in_past
              else time_passed),
          w,
          db,
        )
        | some ctx ↦
            run_original input deps deleted ctx attendees (find (has_id id_event) db.events) w db
      ]

  unfoldable pub update_event_from_web :
      WebInput → UpdateDeps → String → List String → List WebAttendee → W → Db → FlowResult × W × Db
  update_event_from_web input deps id_event deleted attendees w db =
      if str_eq id_event ""
      then (flow_thrown, w, db)
      else elim (validate_add_from_web_input input attendees deps.time_zone_workspace) [
        | some why ↦ (flow_thrown, w, db)
        | none ↦ elim (deps.parsed) [
          | none ↦ (flow_thrown, w, db)
          | some start ↦ run_start input deps id_event deleted attendees start w db
        ]
      ]
