-- ===== src/Assignment.antt =====
-- The assignment strategies of a web booking (src/features/event-client/domain/strategy/assignment).
-- `chooseStaffWithRR` is an argument, a function from the store `W` that it changes.
-- `durationMin` is required by the type of a request, so its fallback to the service is never read.
pub mod Single
pub mod Multi
mod Examples
use Prim.Native.String
use ms_calendar_service.Base.{
  ℕ, ◌/◌, ◌-◌, String, Option, none, some, Bool, true, false, not, ◌&&◌, List, [], ◌∷◌,
  if◌then◌else◌, ltb, leb, any, keep, max, ◌==◌, length,
}
use ms_calendar_service.Availability.Zone.{Zone, add_minutes, minute_ms}
use ms_calendar_service.Availability.Windows.{Window}
use ms_calendar_service.Availability.Assign.{Attendee, Segment, Buffers, assign_sequentially}
use ms_calendar_service.Availability.Assign.Booking.{empty_buffers}

pub record Snapshot : Type 0 where
  pub id : String
  pub duration : Option ℕ
  pub max_participants : Option ℕ

pub data Mode : Type 0 where
  single_group single_individual multi_individual : Mode

pub data Reason : Type 0 where
  invalid_input no_staff no_window no_availability : Reason

pub data Result : Type 0 where
  assigned : List Segment → Result
  refused : Reason → Result

pub record Input : Type 0 where
  pub start_ws : ℕ
  pub attendees : List Attendee
  pub service_by_id : String → Option Snapshot
  pub user_ids_by_service : String → Option (List String)
  pub free_windows_by_user : String → List Window

-- `singleService?.maxParticipants ?? 1`
abbrev pub max_participants_of : Option Snapshot → ℕ
max_participants_of none = 1
max_participants_of (some s) = elim (s.max_participants) [ none ↦ 1 | some n ↦ n ]

unfoldable pub get_assignment_mode : List Attendee → (String → Option Snapshot) → Mode
get_assignment_mode (a ∷ []) service_by_id =
    if ltb 1 (max 1 (max_participants_of (service_by_id a.service_id)))
    then single_group
    else single_individual
get_assignment_mode [] service_by_id = multi_individual
get_assignment_mode (a ∷ b ∷ rest) service_by_id = multi_individual

-- `input.userIdsByService.get(…) ?? []`
abbrev pub eligible_for : Input → String → List String
eligible_for input service = elim (input.user_ids_by_service service) [ none ↦ [] | some us ↦ us ]

-- Does a free window hold the interval?
abbrev pub has_window : Input → ℕ → ℕ → String → Bool
has_window input s e u = any (λ w. leb w.start s && leb e w.end) (input.free_windows_by_user u)

module _ {W : Type 0} (z : Zone)
    (choose : String → ℕ → ℕ → List String → W → Option String × W) where
  abbrev pub segment_of : Input → Attendee → String → Segment
  segment_of input a u = record {
    service_id = a.service_id;
    user_id = u;
    start = z.whole_minute input.start_ws;
    end = z.whole_minute (add_minutes input.start_ws a.duration_min);
  }

  abbrev pub eligible_available : Input → Attendee → List String
  eligible_available input a =
      keep (has_window input input.start_ws (add_minutes input.start_ws a.duration_min))
        (eligible_for input a.service_id)

  -- `if (!selectedStaff)` also refuses the empty text.
  unfoldable pub settle_single : Input → Attendee → Option String → Result
  settle_single input a none = refused no_staff
  settle_single input a (some String.[]) = refused no_staff
  settle_single input a (some (String.◌∷◌ ch s)) =
      assigned (segment_of input a (String.◌∷◌ ch s) ∷ [])

  -- `execute` of the strategy for one individual service.
  unfoldable pub execute_single_individual : Input → List Attendee → W → Result × W
  execute_single_individual input (a ∷ []) w =
      let (staff, w') =
        choose a.service_id input.start_ws (add_minutes input.start_ws a.duration_min)
          (eligible_available input a) w in
      (settle_single input a staff, w')
  execute_single_individual input [] w = (refused invalid_input, w)
  execute_single_individual input (a ∷ b ∷ rest) w = (refused invalid_input, w)

  -- The strategy for one group service has the same text.
  unfoldable pub execute_single_group : Input → List Attendee → W → Result × W
  execute_single_group input attendees w = execute_single_individual input attendees w

-- `window.end.diff(window.start, "minutes") >= attendee.durationMin`; a window ends after its start.
abbrev pub is_long : ℕ → Window → Bool
is_long duration w = leb duration ((w.end - w.start) / minute_ms)

abbrev pub has_any_available_window : Input → Attendee → Bool
has_any_available_window input a =
    any (λ u. any (is_long a.duration_min) (input.free_windows_by_user u))
      (eligible_for input a.service_id)

-- The first loop of the strategy for several services.
unfoldable pub all_have_windows : Input → List Attendee → Bool
all_have_windows input [] = true
all_have_windows input (a ∷ rest) =
    if has_any_available_window input a then all_have_windows input rest else false

unfoldable pub execute_multi_individual : Zone → Input → Result
execute_multi_individual z input =
    let (ok, buffers) =
      assign_sequentially z (z.whole_minute input.start_ws) (eligible_for input)
        input.free_windows_by_user [] input.attendees empty_buffers in
    let searched = if ok then assigned buffers.assignment else refused no_availability in
    if all_have_windows input input.attendees then searched else refused no_window
