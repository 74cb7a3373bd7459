-- ===== src/WebBooking.antt =====
-- A booking from the web: the helpers of `addEventFromWeb` and their composition
-- (src/features/event-client/services/create-event/event-client-write.service.ts), with the
-- policies that they ask (src/features/event-client/domain/policies) and the writes of
-- src/features/event-client/services/persistence/booking.persistence.ts.
-- `W` is the store of `chooseStaffWithRR`. Logs and the texts of errors are left out.
pub mod Policies
pub mod Start
pub mod Context
pub mod Join
pub mod Create
pub mod Joined
pub mod Grouped
pub mod Outcomes
mod Examples
use ms_calendar_service.Base.{
  ℕ, String, Option, none, some, Bool, true, false, ◌&&◌, List, [], ◌∷◌, ◌++◌, map, if◌then◌else◌,
  max,
}
use text.Mathlib.Text.{◌==◌ as str_eq}
use ms_calendar_service.Base.Int.{ℤ, pos}
use ms_calendar_service.Availability.Zone.{Zone, add_minutes}
use ms_calendar_service.Availability.Windows.{Window}
use ms_calendar_service.Availability.Shifts.{DayHours, ShiftsInput, shifts_of_user, free_windows}
use ms_calendar_service.Availability.Assign.{Attendee, Segment, sum_durations}
use ms_calendar_service.Assignment.{
  Snapshot, Mode, single_group, single_individual, multi_individual, Result, assigned, refused,
  Input, get_assignment_mode, execute_single_individual, execute_single_group,
  execute_multi_individual,
}
use ms_calendar_service.Booking.{Service, Request}
use ms_calendar_service.Booking.Rows.{Event, Db}
use ms_calendar_service.WebBooking.Policies.{has_any}
use ms_calendar_service.WebBooking.Start.{
  Invalid, WebInput, Calendar, StartContext, validate_add_from_web_input, resolve_start_context,
}
use ms_calendar_service.WebBooking.Join.{try_join_existing_group_assignment}
use ms_calendar_service.WebBooking.Create.{
  Booked, booked, rolled_back, create_assignments_and_sync_group_id,
}
use ms_calendar_service.WebBooking.Context.{
  WebAttendee, Sources, AvailabilityContext, build_availability_context,
}

abbrev pub snapshot_of : Option Service → Option Snapshot
snapshot_of none = none
snapshot_of (some s) =
    some (record { id = s.id; duration = s.duration; max_participants = s.max_participants })

abbrev pub strategy_input : StartContext → List Attendee → AvailabilityContext → Input
strategy_input start attendees ctx = record {
  start_ws = start.start_ws;
  attendees = attendees;
  service_by_id = λ s. snapshot_of (ctx.service_by_id s);
  user_ids_by_service = ctx.user_ids_by_service;
  free_windows_by_user = ctx.free_windows_by_user;
}

-- `strategies[mode].execute(strategyInput)`
unfoldable pub execute_mode :
    {W : Type 0}
    → Zone
    → (String → ℕ → ℕ → List String → W → Option String × W)
    → Mode
    → Input
    → W
    → Result × W
execute_mode z choose single_group input w = execute_single_group z choose input input.attendees w
execute_mode z choose single_individual input w =
    execute_single_individual z choose input input.attendees w
execute_mode z choose multi_individual input w = (execute_multi_individual z input, w)

-- The assignment of a group that exists, or of the strategy if there is none.
unfoldable pub resolve_assignment :
    {W : Type 0}
    → Zone
    → (String → ℕ → ℕ → List String → W → Option String × W)
    → List Segment
    → Input
    → W
    → Result × W
resolve_assignment z choose (s ∷ ss) input w = (assigned (s ∷ ss), w)
resolve_assignment z choose [] input w =
    execute_mode z choose (get_assignment_mode input.attendees input.service_by_id) input w

-- What `addEventFromWeb` comes to.
pub data Outcome : Type 0 where
  invalid : Invalid → Outcome
  rejected : Outcome  -- `{ ok: false }`
  thrown : Outcome
  created : List Segment → List Event → ℕ → Option String → Outcome

-- `coreEventsForGroup[0].idGroup`
abbrev pub group_of : List Event → Option String
group_of [] = none
group_of (e ∷ es) = some e.id_group

-- The times and zones around a request: `parsed` is the start text in the client's zone, if it is
-- valid, and `new_ids` makes the identifiers of the rows.
pub record Deps : Type 0 where
  pub time_zone_workspace : String
  pub auto_confirm : Bool
  pub parsed : Option ℕ
  pub now : ℕ
  pub shared_group_id : String
  pub new_ids : Db → String × String

-- Only a booking of several services has a group identifier of its own.
abbrev pub shared_group : Mode → String → Option String
shared_group multi_individual id = some id
shared_group single_group id = none
shared_group single_individual id = none

abbrev pub request_of : WebInput → Deps → Option String → Segment → Service → Db → Request
request_of input deps id_group seg svc db = record {
  id_company = input.id_company;
  id_workspace = input.id_workspace;
  id_group = id_group;
  seg = seg;
  svc = svc;
  time_zone_workspace = deps.time_zone_workspace;
  note = input.note;
  is_comment_read = input.is_comment_read;
  customer_id = input.customer_id;
  customer_workspace = input.customer_workspace;
  auto_confirm = deps.auto_confirm;
  new_group_id = (deps.new_ids db).0;
  new_event_id = (deps.new_ids db).1;
}

-- `_tryJoinExistingGroupAssignment`, which only the mode of one group service calls.
abbrev pub existing_group :
    Zone → WebInput → Mode → AvailabilityContext → ℕ → List Attendee → Db → List Segment
existing_group z input single_group ctx start (a ∷ rest) db =
    try_join_existing_group_assignment z
      (record {
        id_workspace = input.id_workspace;
        customer_id = input.customer_id;
        customer_workspace = input.customer_workspace;
        exclude_event_id = input.exclude_event_id;
      })
      (ctx.service_by_id a.service_id)
      (elim (ctx.user_ids_by_service a.service_id) [ none ↦ [] | some us ↦ us ]) a start db
existing_group z input single_group ctx start [] db = []
existing_group z input single_individual ctx start attendees db = []
existing_group z input multi_individual ctx start attendees db = []

-- The core of `_buildAddFromWebResponse`: the end of the booking and the group of the first event.
unfoldable pub response_of : List Attendee → ℕ → List Segment → List Event → Outcome
response_of attendees start segs events =
    created segs events (add_minutes start (sum_durations attendees)) (group_of events)

unfoldable pub finish : List Attendee → ℕ → List Segment → Booked → Db → Outcome × Db
finish attendees start segs (booked events db') db = (response_of attendees start segs events, db')
finish attendees start segs (rolled_back why) db = (thrown, db)

-- The creation of the events of an assignment, or the rejection.
unfoldable pub create_for :
    WebInput → Deps → Mode → AvailabilityContext → List Attendee → ℕ → Result → Db → Outcome × Db
create_for input deps mode ctx attendees start (refused why) db = (rejected, db)
create_for input deps mode ctx attendees start (assigned segs) db =
    finish attendees start segs
      (create_assignments_and_sync_group_id ctx.service_by_id
        (request_of input deps (shared_group mode deps.shared_group_id)) segs db)
      db

-- From the availability context on. `choose` is `chooseStaffWithRR` with the weights of the context.
unfoldable pub book :
    {W : Type 0}
    → Zone
    → ((String → Option ℤ) → String → ℕ → ℕ → List String → W → Option String × W)
    → WebInput
    → Deps
    → List Attendee
    → StartContext
    → Option AvailabilityContext
    → W
    → Db
    → Outcome × W × Db
book z choose input deps attendees start none w db = (rejected, w, db)
book z choose input deps attendees start (some ctx) w db =
    let asked = strategy_input start attendees ctx in
    let mode = get_assignment_mode attendees asked.service_by_id in
    let (result, w') =
      resolve_assignment z (choose ctx.weights_map)
        (existing_group z input mode ctx start.start_ws attendees db) asked w in
    let (outcome, db') = create_for input deps mode ctx attendees start.start_ws result db in
    (outcome, w', db')

abbrev attendees_of : List WebAttendee → List Attendee
attendees_of [] = []
attendees_of (a ∷ rest) = a.attendee ∷ attendees_of rest

-- After the validation and the parse, whose failures throw.
unfoldable pub book_from :
    {W : Type 0}
    → Zone
    → Calendar
    → ((String → Option ℤ) → String → ℕ → ℕ → List String → W → Option String × W)
    → Sources
    → WebInput
    → Deps
    → List WebAttendee
    → ℕ
    → W
    → Db
    → Outcome × W × Db
book_from z cal choose src input deps attendees start w db =
    elim (resolve_start_context z cal start deps.now) [
      | none ↦ (rejected, w, db)
      | some ctx ↦
          book z choose input deps (attendees_of attendees) ctx
            (build_availability_context z src attendees ctx) w db
    ]

unfoldable pub add_event_from_web :
    {W : Type 0}
    → Zone
    → Calendar
    → ((String → Option ℤ) → String → ℕ → ℕ → List String → W → Option String × W)
    → Sources
    → WebInput
    → Deps
    → List WebAttendee
    → W
    → Db
    → Outcome × W × Db
add_event_from_web z cal choose src input deps attendees w db =
    elim (validate_add_from_web_input input attendees deps.time_zone_workspace) [
      | some why ↦ (invalid why, w, db)
      | none ↦ elim deps.parsed [
        | none ↦ (thrown, w, db)
        | some start ↦ book_from z cal choose src input deps attendees start w db
      ]
    ]
