-- ===== src/Slots/Answer/Examples.antt =====
-- A request for one service and one for two, and the theorems at them.
use mathlib.Core.List.{Memᴰ}
use text.Mathlib.Text.{◌==◌ as str_eq}
use ms_calendar_service.Base.{
  ℕ, ◌≡◌, inl, inr, String, Option, none, some, true, false, [], ◌∷◌, if◌then◌else◌, ◌==◌, refl,
  arith, Bool-cases, All, ◌*◌, ◌/◌,
}
use ms_calendar_service.RoundRobin.Texts.{text_le}
use ms_calendar_service.Base.Sets.{add_all}
use ms_calendar_service.Base.Sort.{sort_by}
use ms_calendar_service.Availability.Zone.{Zone, IsZone, utc}
use ms_calendar_service.Availability.Windows.{
  carve, clipped, subtract_busy_from_shift, merge_from, merge_touching_windows,
}
use ms_calendar_service.Availability.Shifts.{
  open_at, missing, biz_shifts, worker_shifts, work_shifts, local_window, shifts_of_user,
  free_of_shift, free_of_shifts, free_windows,
}
use ms_calendar_service.Availability.Assign.{
  sum_durations, drop_last, clashes, try_candidates, window_contains, assign_sequentially,
}
use ms_calendar_service.Availability.Assign.Booking.{StartsWhole}
use ms_calendar_service.WebBooking.Policies.{matches}
use ms_calendar_service.WebBooking.Start.{Calendar, compute_slot_config}
use ms_calendar_service.Slots.{
  Clock, slot_of, align_to_grid_ceil, grid_loop, dedupe, insert_slot, sort_slots,
}
use ms_calendar_service.Slots.Single.{
  keyed_event, group_slot, group_windows, slots_of_windows, single_slots,
}
use ms_calendar_service.Slots.Multi.{
  keys_of_window, keys_of_windows, keys_of_users, candidates_of, planned_slots, multi_slots,
  has_gaps,
}
use ms_calendar_service.Slots.Day.{
  Answer, answered, available, SlotAttendee, SlotsInput, BookingConfig, ServiceSnapshot, EventRow,
  SlotsDeps, get_events_overlapping_range, sum_requested, step_of, user_ids_by_service,
  requested_user_ids, busy_windows_of, eligible_for,
}
use ms_calendar_service.Slots.Answer.{
  validate_slots_input, shifts_by_user, slots_for, slots_with, public_get_available_time_slots,
  free_by_user, booking_window, service_day, today,
}
use ms_calendar_service.Slots.Individual.{IsGoodSlot}
use ms_calendar_service.Slots.Answer.Laws.{
  IsAnswer, step_of-positive, public_get_available_time_slots-IsAnswer,
}
use ms_calendar_service.Slots.Answer.Utc.{public_get_available_time_slots_ignores}
use ms_calendar_service.Slots.Answer.Bookable.{public_get_available_time_slots-IsGoodSlot}

abbrev clock_text : ℕ → String
clock_text t = if t == 0 then "00" else if t == 1800000 then "30" else "60"

abbrev clock : Clock
clock = record {
  client_iso = clock_text;
  client_label = clock_text;
  local_iso = clock_text;
  parse_local = λ s. if str_eq s "00" then 0 else if str_eq s "30" then 1800000 else 3600000;
}

-- The shift is the first hour of the day.
abbrev zone : Zone
zone = record utc { at = λ date time. if str_eq time "00" then 0 else 3600000 }

abbrev days : Calendar
days = record {
  start_of_day = λ t. t / 86400000 * 86400000;
  date_of = λ t. "";
  week_day_of = λ t. "";
}

abbrev config : BookingConfig
config = record {
  max_advance_days = 60;
  min_lead_time_min = 0;
  is_service_aligned = false;
  step_minutes = 30;
  professional_allowed = "ana" ∷ [];
  use_biz_fallback = true;
}

abbrev late_event : EventRow
late_event = record { user_id = "ana"; start = 90000000; end = 93600000 }

abbrev half_hour : String → Option ServiceSnapshot
half_hour s = some (record { duration_min = 30; max_participants = 1 })

abbrev deps : SlotsDeps
deps = record {
  local_day = λ d. (0, 86399999);
  utc_day = λ d. (0, 86399999);
  end_of_day_after = λ now n. 86399999;
  now = 0;
  snapshots = some half_hour;
  users_of = λ s. "ana" ∷ [];
  week_day = λ d. "MONDAY";
  business_hours = λ d. open_at (("00", "60") ∷ []);
  worker_hours_map = λ u d. missing;
  temporary_hours_map = λ u d. missing;
  events = [];
  group_events = [];
}

abbrev haircut : SlotAttendee
haircut = record { service_id = "cut"; staff_id = none; duration_min = 30 }

abbrev input : SlotsInput
input = record {
  id_company = "c";
  id_workspace = "w";
  time_zone_workspace = "UTC";
  time_zone_client = "UTC";
  date = "1970-01-01";
  attendees = haircut ∷ [];
  id_client = none;
}

abbrev answer : SlotsInput → Answer
answer i = public_get_available_time_slots zone days clock config deps i

answer_example : IsAnswer (answer input)
answer_example = public_get_available_time_slots-IsAnswer zone days clock config deps input

late_example :
    public_get_available_time_slots zone days clock config
      (record deps { events = late_event ∷ [] })
      input
    ≡ answer input
late_example =
    public_get_available_time_slots_ignores zone days clock config deps input late_event
      (inl (omega arith))

answer_run : Unit {0}
unfolding align_to_grid_ceil grid_loop dedupe insert_slot sort_slots text_le keyed_event group_slot
    group_windows slots_of_windows single_slots sort_by add_all carve clipped
    subtract_busy_from_shift merge_from merge_touching_windows biz_shifts worker_shifts work_shifts
    local_window shifts_of_user free_of_shift free_of_shifts free_windows compute_slot_config
    keys_of_window keys_of_windows keys_of_users candidates_of planned_slots multi_slots has_gaps
    get_events_overlapping_range sum_requested step_of user_ids_by_service requested_user_ids
    validate_slots_input shifts_by_user slots_for slots_with matches public_get_available_time_slots
    sum_durations drop_last clashes try_candidates window_contains assign_sequentially
answer_run = tt

single_test :
    answer input
    ≡ answered (slot_of clock 0 1800000 none ∷ slot_of clock 1800000 3600000 none ∷ []) available
unfolding answer_run
single_test = refl

-- Two services fill the hour.
double_test :
    answer (record input { attendees = haircut ∷ haircut ∷ [] })
    ≡ answered (slot_of clock 0 3600000 none ∷ []) available
unfolding answer_run
double_test = refl

-- The first half of the hour is taken.
abbrev busy : EventRow
busy = record { user_id = "ana"; start = 0; end = 1800000 }

abbrev busy_deps : SlotsDeps
busy_deps = record deps { events = busy ∷ [] }

whole_windows :
    (u : String)
    → All StartsWhole (
        free_by_user zone days clock config busy_deps input
          (get_events_overlapping_range (busy_deps.utc_day input.date) busy_deps.events)
          u)
unfolding answer_run
whole_windows u = elim (Bool-cases (str_eq "ana" u)) [
  | inl e ↦ rw e (refl, tt)
  | inr e ↦ rw e (refl, tt)
]

busy_test :
    public_get_available_time_slots zone days clock config busy_deps input
    ≡ answered (slot_of clock 1800000 3600000 none ∷ []) available
unfolding answer_run
busy_test = refl

zone-IsZone : IsZone zone
zone-IsZone = record {
  whole_minute_lem = λ m. refl;
  minute_of-lt = λ m. omega arith;
  hour_of-lt = λ m. omega arith;
  minute_of_lem = λ m. refl;
}

bookable_example :
    IsGoodSlot zone zone-IsZone clock
      (booking_window zone days clock config busy_deps input)
      (service_day zone days clock config busy_deps input half_hour haircut)
      (step_of-positive config input.attendees)
      refl
      refl
      (today zone days clock config busy_deps input).1
      (busy_windows_of (get_events_overlapping_range (0, 86399999) (busy ∷ [])))
      (shifts_by_user zone days clock config busy_deps input)
      []
      (eligible_for config busy_deps input.attendees "cut")
      (slot_of clock 1800000 3600000 none)
bookable_example =
    public_get_available_time_slots-IsGoodSlot (slot_of clock 1800000 3600000 none)
      (slot_of clock 1800000 3600000 none ∷ []) available (Memᴰ.head refl) zone days clock config
      busy_deps input zone-IsZone half_hour refl haircut refl refl refl whole_windows busy_test
