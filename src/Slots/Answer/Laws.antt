-- ===== src/Slots/Answer/Laws.antt =====
-- What the answer is made of.

use ms_calendar_service.Base.{
  ◌≡◌, ◌≢◌, ◌<◌, ◌⊎◌, inl, inr, String, some, none, Option, Bool, true, false, List, [], ◌∷◌, refl,
  arith, if◌then◌else◌,
}
use ms_calendar_service.Availability.Zone.{Zone}
use ms_calendar_service.WebBooking.Start.{Calendar}
use ms_calendar_service.Slots.{Clock, TimeSlot, dedupe_and_sort_slots}
use ms_calendar_service.Slots.Order.{IsInOrder}
use ms_calendar_service.Slots.Texts.{IsUnique, dedupe_and_sort_slots_lem}
use ms_calendar_service.Slots.Grid.{Collects}
use ms_calendar_service.Slots.Offered.{single_slots-Collects}
use ms_calendar_service.Slots.Multi.{has_gaps}
use ms_calendar_service.Slots.Sequence.{multi_slots-Collects}
use ms_calendar_service.Slots.Day.{
  DayStatus, available, past, out_of_window, no_services, no_staff, missing_snapshot,
  group_combined, SlotsError, Answer, failed, answered, SlotAttendee, SlotsInput, BookingConfig,
  ServiceSnapshot, EventRow, SlotsDeps, step_of, get_events_overlapping_range, eligible_for,
}
use ms_calendar_service.Slots.Answer.{
  answer_slots, status_of, if_staffed, if_requested, unless_early, unless_invalid, slots_for,
  slots_with, public_get_available_time_slots, service_day, free_by_user, booking_window, multi_day,
}

pub step_of-positive :
    (config : BookingConfig) (attendees : List SlotAttendee) → 0 < step_of config attendees
unfolding step_of
step_of-positive config attendees = ground arith

-- The status goes with the slots, and the slots are in order and without repetition.
abbrev pub IsSound : List TimeSlot → DayStatus → Type 0
IsSound slots status =
    IsUnique slots
    × IsInOrder slots
    × (slots ≢ [] → status ≡ available)
    × (status ≡ available → slots ≢ [])

abbrev pub IsAnswer : Answer → Type 0
IsAnswer a =
    ((e : SlotsError) × (a ≡ failed e))
    ⊎ ((slots : List TimeSlot) × (status : DayStatus) × (a ≡ answered slots status)
        × IsSound slots status)

nothing-IsAnswer : (status : DayStatus) → status ≢ available → IsAnswer (answered [] status)
nothing-IsAnswer status h =
    inr ([], status, refl, (tt, tt, λ n. absurd (n refl), λ e. absurd (h e)))

status_of-IsSound :
    (slots : List TimeSlot) → IsUnique slots → IsInOrder slots → IsSound slots (status_of slots)
status_of-IsSound [] u o = (tt, tt, λ n. absurd (n refl), λ e. cc)
status_of-IsSound (s ∷ slots) u o = (u, o, λ n. refl, λ e k. cc)

answer_slots-IsAnswer :
    {P : TimeSlot → Type 0} (r : Option (List TimeSlot)) → Collects P r → IsAnswer (answer_slots r)
answer_slots-IsAnswer r (xs, e, h) =
    let (u, o, _, _) = dedupe_and_sort_slots_lem xs in
    rw e (
      inr (
        dedupe_and_sort_slots xs,
        status_of (dedupe_and_sort_slots xs),
        refl,
        status_of-IsSound (dedupe_and_sort_slots xs) u o,
      ))

if_IsAnswer : (b : Bool) (x y : Answer) → IsAnswer x → IsAnswer y → IsAnswer (if b then x else y)
if_IsAnswer true x y p q = p
if_IsAnswer false x y p q = q

module _ (z : Zone) (cal : Calendar) (clock : Clock) (config : BookingConfig) (deps : SlotsDeps)
    (input : SlotsInput) where
  positive : 0 < step_of config input.attendees
  positive = step_of-positive config input.attendees

  slots_for-IsAnswer :
      (snapshots : String → Option ServiceSnapshot) (events : List EventRow)
      (attendees : List SlotAttendee)
      → IsAnswer (slots_for z cal clock config deps input snapshots events attendees)
  unfolding slots_for
  slots_for-IsAnswer snapshots events [] = nothing-IsAnswer no_services (λ e. cc)
  slots_for-IsAnswer snapshots events (a ∷ []) = answer_slots-IsAnswer _ (
      single_slots-Collects z (service_day z cal clock config deps input snapshots a) positive clock
        (booking_window z cal clock config deps input)
        (free_by_user z cal clock config deps input events) deps.group_events
        (eligible_for config deps input.attendees a.service_id))
  slots_for-IsAnswer snapshots events (a ∷ b ∷ attendees) =
      let d = multi_day z cal clock config deps input snapshots events in
      if_IsAnswer (has_gaps d d.attendees) _ _
        (answer_slots-IsAnswer _
          (multi_slots-Collects z clock (booking_window z cal clock config deps input) d positive))
        (nothing-IsAnswer no_services (λ e. cc))

  if_staffed-IsAnswer :
      (uids : List String) (a : Answer)
      → IsAnswer a
      → IsAnswer (if_staffed z cal clock config deps input uids a)
  if_staffed-IsAnswer [] a h = nothing-IsAnswer no_staff (λ e. cc)
  if_staffed-IsAnswer (uid ∷ uids) a h = h

  slots_with-IsAnswer :
      (snapshots : Option (String → Option ServiceSnapshot)) (events : List EventRow)
      → IsAnswer (slots_with z cal clock config deps input snapshots events)
  unfolding slots_with
  slots_with-IsAnswer none events = inl (missing_snapshot, refl)
  slots_with-IsAnswer (some snapshots) events =
      if_IsAnswer _ _ _ (inl (group_combined, refl))
        (if_staffed-IsAnswer _ _ (slots_for-IsAnswer snapshots events input.attendees))

  early_IsAnswer :
      (late wide : Bool) (a : Answer)
      → IsAnswer a
      → IsAnswer (
          unless_early z cal clock config deps input
            (if late then some past else (if wide then some out_of_window else none))
            a)
  early_IsAnswer true wide a h = nothing-IsAnswer past (λ e. cc)
  early_IsAnswer false true a h = nothing-IsAnswer out_of_window (λ e. cc)
  early_IsAnswer false false a h = h

  if_requested-IsAnswer :
      (attendees : List SlotAttendee) (a : Answer)
      → IsAnswer a
      → IsAnswer (if_requested z cal clock config deps input attendees a)
  if_requested-IsAnswer [] a h = nothing-IsAnswer no_services (λ e. cc)
  if_requested-IsAnswer (b ∷ attendees) a h = h

  unless_invalid-IsAnswer :
      (e : Option SlotsError) (a : Answer)
      → IsAnswer a
      → IsAnswer (unless_invalid z cal clock config deps input e a)
  unless_invalid-IsAnswer none a h = h
  unless_invalid-IsAnswer (some e) a h = inl (e, refl)

  -- Every request is answered, whatever the step that is configured: with an error, or with slots
  -- in the order of their starts, no two with the same texts, and a status that is `available`
  -- exactly when there are slots.
  pub public_get_available_time_slots-IsAnswer :
      IsAnswer (public_get_available_time_slots z cal clock config deps input)
  unfolding public_get_available_time_slots
  public_get_available_time_slots-IsAnswer = unless_invalid-IsAnswer _ _ (
      if_requested-IsAnswer input.attendees _ (
        if_staffed-IsAnswer config.professional_allowed _ (
          early_IsAnswer _ _ _ (
            slots_with-IsAnswer deps.snapshots
              (get_events_overlapping_range (deps.utc_day input.date) deps.events)))))
