-- ===== src/Slots/Answer.antt =====
-- The answer of `publicGetAvailableTimeSlots_SPECIAL` of src/services/@database/event/event-
-- times.service.ts: the validations, the early answers and the two ways to the slots.
pub mod Laws
pub mod Bookable
pub mod Utc
mod Examples
use text.Mathlib.Text.{◌==◌ as str_eq}
use ms_calendar_service.Base.{
  ℕ, String, Option, none, some, Bool, true, false, ◌&&◌, ◌||◌, List, [], ◌∷◌, map, if◌then◌else◌,
  ltb, max, any,
}
use ms_calendar_service.Availability.Zone.{Zone, add_minutes}
use ms_calendar_service.Availability.Windows.{Window}
use ms_calendar_service.Availability.Shifts.{shifts_of_user, free_windows}
use ms_calendar_service.Availability.Assign.{Attendee}
use ms_calendar_service.WebBooking.Policies.{matches}
use ms_calendar_service.WebBooking.Start.{Calendar, compute_slot_config}
use ms_calendar_service.Slots.{Clock, TimeSlot, BookingWindow, dedupe_and_sort_slots}
use ms_calendar_service.Slots.Single.{ServiceDay, single_slots}
use ms_calendar_service.Slots.Multi.{MultiDay, multi_slots, has_gaps}
use ms_calendar_service.Slots.Day.{
  DayStatus, available, completed, past, out_of_window, no_staff, no_services, SlotsError,
  missing_ids, missing_workspace_zone, missing_client_zone, bad_date, missing_snapshot,
  group_combined, Answer, failed, answered, unfinished, SlotAttendee, SlotsInput, BookingConfig,
  ServiceSnapshot, EventRow, SlotsDeps, get_events_overlapping_range, busy_windows_of,
  snapshot_duration, snapshot_participants, step_of, eligible_for, requested_user_ids,
}

abbrev pub status_of : List TimeSlot → DayStatus
status_of [] = completed
status_of (s ∷ slots) = available

abbrev pub answer_slots : Option (List TimeSlot) → Answer
answer_slots none = unfinished
answer_slots (some raw) =
    answered (dedupe_and_sort_slots raw) (status_of (dedupe_and_sort_slots raw))

-- `/^\d{4}-\d{2}-\d{2}$/`
abbrev pub is_date_text : String → Bool
is_date_text date = matches "0000-00-00" date

unfoldable pub validate_slots_input : SlotsInput → Option SlotsError
validate_slots_input input =
    if str_eq input.id_company "" || str_eq input.id_workspace ""
    then some missing_ids
    else (if str_eq input.time_zone_workspace ""
        then some missing_workspace_zone
        else (if str_eq input.time_zone_client ""
            then some missing_client_zone
            else (if is_date_text input.date then none else some bad_date)))

module _ (z : Zone) (cal : Calendar) (clock : Clock) (config : BookingConfig) (deps : SlotsDeps)
    (input : SlotsInput) where
  abbrev pub day_start : ℕ
  day_start = (deps.local_day input.date).0

  abbrev pub booking_window : BookingWindow
  booking_window = record {
    earliest = z.whole_minute (add_minutes deps.now config.min_lead_time_min);
    latest = deps.end_of_day_after deps.now config.max_advance_days;
  }

  -- The three answers without a look at the services.
  abbrev pub early_status : Option DayStatus
  early_status =
      if ltb (cal.start_of_day day_start) (cal.start_of_day deps.now)
      then some past
      else (if ltb booking_window.latest day_start
            || ltb (deps.local_day input.date).1 booking_window.earliest
          then some out_of_window
          else none)

  abbrev pub step_minutes : ℕ
  step_minutes = step_of config input.attendees

  abbrev pub today : Bool × ℕ
  today = compute_slot_config z cal step_minutes day_start deps.now

  unfoldable pub shifts_by_user : String → List Window
  shifts_by_user uid =
      shifts_of_user z
        (record {
          user_ids = [];
          date = input.date;
          week_day = deps.week_day input.date;
          business_hours = deps.business_hours;
          worker_hours_map = deps.worker_hours_map;
          temporary_hours_map = deps.temporary_hours_map;
          use_biz_fallback = config.use_biz_fallback;
        })
        uid

  -- `freeWindowsByUser`, for an eligible professional, over the events that were read.
  abbrev pub free_by_user : List EventRow → String → List Window
  free_by_user events uid =
      free_windows today.0 today.1 (busy_windows_of events uid) (shifts_by_user uid)

  abbrev pub service_day : (String → Option ServiceSnapshot) → SlotAttendee → ServiceDay
  service_day snapshots a = record {
    duration = snapshot_duration snapshots a;
    capacity = max 1 (snapshot_participants snapshots a);
    step_minutes = step_minutes;
    day_start = day_start;
    is_today = today.0;
    rounded_now = today.1;
    id_client = input.id_client;
  }

  abbrev pub with_real_duration : (String → Option ServiceSnapshot) → SlotAttendee → Attendee
  with_real_duration snapshots a = record {
    service_id = a.service_id;
    duration_min = snapshot_duration snapshots a;
  }

  abbrev pub multi_day : (String → Option ServiceSnapshot) → List EventRow → MultiDay
  multi_day snapshots events = record {
    step_minutes = step_minutes;
    day_start = day_start;
    day_end = (deps.local_day input.date).1;
    attendees = map (with_real_duration snapshots) input.attendees;
    eligible = eligible_for config deps input.attendees;
    free = free_by_user events;
  }

  -- One service goes the fast way; several are pruned first.
  unfoldable pub slots_for :
      (String → Option ServiceSnapshot) → List EventRow → List SlotAttendee → Answer
  slots_for snapshots events [] = answered [] no_services
  slots_for snapshots events (a ∷ []) = answer_slots (
      single_slots z clock booking_window (service_day snapshots a) (free_by_user events)
        deps.group_events (eligible_for config deps input.attendees a.service_id))
  slots_for snapshots events (a ∷ b ∷ attendees) =
      let d = multi_day snapshots events in
      if has_gaps d d.attendees
      then answer_slots (multi_slots z clock booking_window d)
      else answered [] no_services

  abbrev pub is_group_service : (String → Option ServiceSnapshot) → SlotAttendee → Bool
  is_group_service snapshots a = elim (snapshots a.service_id) [
    | none ↦ false
    | some s ↦ ltb 1 s.max_participants
  ]

  abbrev pub is_combined : List SlotAttendee → Bool
  is_combined [] = false
  is_combined (a ∷ []) = false
  is_combined (a ∷ b ∷ attendees) = true

  abbrev pub if_staffed : List String → Answer → Answer
  if_staffed [] answer = answered [] no_staff
  if_staffed (uid ∷ uids) answer = answer

  -- From the snapshot of the services on.
  unfoldable pub slots_with : Option (String → Option ServiceSnapshot) → List EventRow → Answer
  slots_with none events = failed missing_snapshot
  slots_with (some snapshots) events =
      if any (is_group_service snapshots) input.attendees && is_combined input.attendees
      then failed group_combined
      else if_staffed
          (requested_user_ids (eligible_for config deps input.attendees) input.attendees)
          (slots_for snapshots events input.attendees)

  abbrev pub unless_early : Option DayStatus → Answer → Answer
  unless_early none answer = answer
  unless_early (some status) answer = answered [] status

  abbrev pub if_requested : List SlotAttendee → Answer → Answer
  if_requested [] answer = answered [] no_services
  if_requested (a ∷ attendees) answer = answer

  abbrev pub unless_invalid : Option SlotsError → Answer → Answer
  unless_invalid none answer = answer
  unless_invalid (some e) answer = failed e

  unfoldable pub public_get_available_time_slots : Answer
  public_get_available_time_slots = unless_invalid (validate_slots_input input) (
      if_requested input.attendees (
        if_staffed config.professional_allowed (
          unless_early early_status (
            slots_with deps.snapshots
              (get_events_overlapping_range (deps.utc_day input.date) deps.events)))))
