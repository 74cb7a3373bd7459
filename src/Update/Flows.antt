-- ===== src/Update/Flows.antt =====
-- The three flows of an update
-- (src/features/event-client/services/update-event/flows). `choose` is `chooseStaffWithRR` over the
-- store `W`. `durationMin` is required by the type of a request.
pub mod Chain
use text.Mathlib.Text.{◌==◌ as str_eq}
use ms_calendar_service.Base.Sets.{add_all}
use ms_calendar_service.Base.{
  ℕ, String, Option, none, some, Bool, true, false, not, ◌&&◌, List, [], ◌∷◌, ◌++◌, if◌then◌else◌,
  leb, any, keep, map,
}
use ms_calendar_service.Base.Int.{ℤ}
use ms_calendar_service.Availability.Zone.{Zone, add_minutes}
use ms_calendar_service.Availability.Windows.{Window}
use ms_calendar_service.Availability.Assign.{Attendee, Segment}
use ms_calendar_service.Booking.{Service, Request, Action, created, joined, already_in}
use ms_calendar_service.Booking.Rows.{Event, Db}
use ms_calendar_service.WebBooking.Policies.{has_any, has_window_of, is_within_limit}
use ms_calendar_service.WebBooking.Context.{WebAttendee, AvailabilityContext, users_of}
use ms_calendar_service.Update.Persist.{
  GroupEdit, SingleResult, updated_in_place, single_failed, update_single_event,
}
use ms_calendar_service.Update.Rebuild.{
  RebuildInput, RebuildResult, rebuilt, rebuild_failed, rebuild_booking,
}
use ms_calendar_service.Update.Move.{MoveResult, moved, move_failed, move_single_participant}

-- The codes of `{ ok: false }`.
pub data Refusal : Type 0 where
  day_in_past time_passed service_changed_on_edit : Refusal
  no_eligible_staff no_available_window rr_no_candidate : Refusal
  multi_segment_does_not_fit multi_rr_no_candidate : Refusal

-- Done, with the segments, the events that were updated and created, and the identifiers of those
-- that were deleted.
pub data FlowResult : Type 0 where
  flow_done : List Segment → List Event → List Event → List String → FlowResult
  flow_refused : Refusal → FlowResult
  flow_thrown : FlowResult

abbrev pub eligible_in : AvailabilityContext → String → List String
eligible_in ctx service = elim (ctx.user_ids_by_service service) [ none ↦ [] | some us ↦ us ]

-- The professional has a free window around the interval.
abbrev pub has_fit : AvailabilityContext → ℕ → ℕ → String → Bool
has_fit ctx s e u = any (λ (w : Window). leb w.start s && leb e w.end) (ctx.free_windows_by_user u)

-- `StaffAssignablePolicy.canAssign` on the choice.
abbrev pub assignable : Option String → Option String
assignable none = none
assignable (some u) = if str_eq u "" then none else some u

abbrev pub Choose : Type 0 → Type 0
Choose W = String → ℕ → ℕ → List String → W → Option String × W

abbrev pub after_single : Segment → Db → SingleResult → FlowResult × Db
after_single s db (updated_in_place e db') = (flow_done (s ∷ []) (e ∷ []) [] [], db')
after_single s db (single_failed why) = (flow_thrown, db)

abbrev pub segment_at : Zone → String → ℕ → ℕ → String → Segment
segment_at z service start end u = record {
  service_id = service;
  user_id = u;
  start = z.whole_minute start;
  end = z.whole_minute end;
}

-- Once the round robin has answered.
abbrev pub store_single :
    Zone
    → GroupEdit
    → Option Service
    → String
    → String
    → ℕ
    → ℕ
    → Option String
    → Db
    → FlowResult × Db
store_single z edit svc original_id service start end none db = (flow_refused rr_no_candidate, db)
store_single z edit svc original_id service start end (some u) db =
    let s = segment_at z service start end u in
    after_single s db (update_single_event edit s svc original_id db)

-- With the availability context.
unfoldable pub fast_path_in :
    {W : Type 0}
    → Zone
    → Choose W
    → AvailabilityContext
    → GroupEdit
    → Option Service
    → String
    → ℕ
    → Attendee
    → W
    → Db
    → FlowResult × W × Db
fast_path_in z choose ctx edit svc original_id start a w db =
    let end = add_minutes start a.duration_min in
    let eligible = eligible_in ctx a.service_id in
    let available = keep (has_fit ctx start end) eligible in
    let (staff, w') = choose a.service_id start end available w in
    let (result, db') =
      store_single z edit svc original_id a.service_id start end (assignable staff) db in
    if has_window_of eligible ctx.free_windows_by_user a.duration_min && has_any available
    then (result, w', db')
    else (flow_refused no_available_window, w, db)

-- `runFastPathSingleFlow`, for a request of one attendee.
unfoldable pub run_fast_path_single_flow :
    {W : Type 0}
    → Zone
    → Choose W
    → Option AvailabilityContext
    → GroupEdit
    → Option Service
    → String
    → ℕ
    → Attendee
    → W
    → Db
    → FlowResult × W × Db
run_fast_path_single_flow z choose ctx edit none original_id start a w db = (flow_thrown, w, db)
run_fast_path_single_flow z choose none edit (some svc) original_id start a w db =
    (flow_refused no_eligible_staff, w, db)
run_fast_path_single_flow z choose (some ctx) edit (some svc) original_id start a w db =
    fast_path_in z choose ctx edit (some svc) original_id start a w db

-- How the loop over the attendees of a rebuild ends.
pub data Chosen : Type 0 where
  chosen : List Segment → Chosen
  not_chosen : Refusal → Chosen
  no_snapshot : Chosen

abbrev pub chosen_with : Segment → Chosen → Chosen
chosen_with s (chosen segs) = chosen (s ∷ segs)
chosen_with s (not_chosen why) = not_chosen why
chosen_with s no_snapshot = no_snapshot

-- One round: the snapshot, the free windows and the choice, in this order. `w` is the store before
-- the choice, `w'` after it, and `later` is the rest of the loop.
abbrev pub chosen_step :
    {W : Type 0}
    → Option Service
    → Bool
    → Option String
    → (String → Segment)
    → W
    → W
    → Chosen × W
    → Chosen × W
chosen_step none fits staff seg w w' later = (no_snapshot, w)
chosen_step (some svc) false staff seg w w' later = (not_chosen multi_segment_does_not_fit, w)
chosen_step (some svc) true none seg w w' later = (not_chosen multi_rr_no_candidate, w')
chosen_step (some svc) true (some u) seg w w' later = (chosen_with (seg u) later.0, later.1)

abbrev pub chosen_segment : String → ℕ → ℕ → String → Segment
chosen_segment service start end u = record {
  service_id = service;
  user_id = u;
  start = start;
  end = end;
}

module _ {W : Type 0} (z : Zone) (choose : Choose W) (ctx : AvailabilityContext)
    (services : String → Option Service) where
  -- The loop from `cursor`, with its early returns; the segments already chosen come before these.
  unfoldable pub choose_segments : List Attendee → ℕ → W → Chosen × W
  choose_segments [] cursor w = (chosen [], w)
  choose_segments (a ∷ rest) cursor w =
      let start = z.whole_minute cursor in
      let end = z.whole_minute (add_minutes cursor a.duration_min) in
      let eligible = eligible_in ctx a.service_id in
      let available = keep (has_fit ctx start end) eligible in
      let fits =
        has_window_of eligible ctx.free_windows_by_user a.duration_min && has_any available in
      let (staff, w') = choose a.service_id start end available w in
      let later = choose_segments rest end w' in
      chosen_step (services a.service_id) fits (assignable staff)
        (chosen_segment a.service_id start end) w w' later

abbrev pub after_rebuild : List Segment → Db → RebuildResult → FlowResult × Db
after_rebuild segs db (rebuilt updated made deleted db') =
    (flow_done segs updated made deleted, db')
after_rebuild segs db (rebuild_failed why) = (flow_thrown, db)

abbrev pub store_rebuild : RebuildInput → Db → Chosen → FlowResult × Db
store_rebuild input db (chosen segs) =
    after_rebuild segs db (rebuild_booking (record input { chosen_segments = segs }) db)
store_rebuild input db (not_chosen why) = (flow_refused why, db)
store_rebuild input db no_snapshot = (flow_thrown, db)

unfoldable pub rebuild_in :
    {W : Type 0}
    → Zone
    → Choose W
    → Option AvailabilityContext
    → RebuildInput
    → ℕ
    → List Attendee
    → W
    → Db
    → FlowResult × W × Db
rebuild_in z choose none input start attendees w db = (flow_refused no_eligible_staff, w, db)
rebuild_in z choose (some ctx) input start attendees w db =
    let (segs, w') = choose_segments z choose ctx input.services attendees start w in
    let (result, db') = store_rebuild input db segs in (result, w', db')

-- `runRebuildBookingFlow`; `count` is the number of attendees.
unfoldable pub run_rebuild_booking_flow :
    {W : Type 0}
    → Zone
    → Choose W
    → Option AvailabilityContext
    → RebuildInput
    → ℕ
    → ℕ
    → ℕ
    → List Attendee
    → W
    → Db
    → FlowResult × W × Db
run_rebuild_booking_flow z choose ctx input max_per_booking count start attendees w db =
    if is_within_limit count max_per_booking
    then rebuild_in z choose ctx input start attendees w db
    else (flow_thrown, w, db)

abbrev pub created_of : Action → Event → List Event
created_of created e = e ∷ []
created_of joined e = []
created_of already_in e = []

abbrev pub updated_of : Action → Event → List Event
updated_of created e = []
updated_of joined e = e ∷ []
updated_of already_in e = e ∷ []

abbrev pub after_move : Segment → Db → MoveResult → FlowResult × Db
after_move s db (moved e action deleted db') =
    (flow_done (s ∷ []) (updated_of action e) (created_of action e) deleted, db')
after_move s db (move_failed why) = (flow_thrown, db)

-- `request` makes the parameters of `createOrJoinGroupEvent` for the segment.
abbrev pub store_move :
    Zone
    → (Segment → Request)
    → String
    → String
    → String
    → ℕ
    → ℕ
    → Option String
    → Db
    → FlowResult × Db
store_move z request group_id original_id service start end none db =
    (flow_refused rr_no_candidate, db)
store_move z request group_id original_id service start end (some u) db =
    let s = segment_at z service start end u in
    after_move s db (move_single_participant group_id original_id (request s) db)

-- `runPureClassEditFlow`; `users` is what `getUsersWhoCanPerformService_SPECIAL` returns.
unfoldable pub run_pure_class_edit_flow :
    {W : Type 0}
    → Zone
    → Choose W
    → (String → List String)
    → Option Service
    → (Segment → Request)
    → String
    → String
    → ℕ
    → WebAttendee
    → W
    → Db
    → FlowResult × W × Db
run_pure_class_edit_flow z choose users none request group_id original_id start a w db =
    (flow_thrown, w, db)
run_pure_class_edit_flow z choose users (some svc) request group_id original_id start a w db =
    let service = a.attendee.service_id in
    let end = add_minutes start a.attendee.duration_min in
    let eligible = add_all [] (users_of users service a.staff_id) in
    let (staff, w') = choose service start end eligible w in
    let (result, db') =
      store_move z request group_id original_id service start end (assignable staff) db in
    if has_any eligible then (result, w', db') else (flow_refused no_eligible_staff, w, db)
