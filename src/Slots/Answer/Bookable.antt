-- ===== src/Slots/Answer/Bookable.antt =====
-- Every slot that is answered for one individual service can be booked.
use mathlib.Core.List.Memᴰ as Mem
use mathlib.Core.List.{Memᴰ}
use ms_calendar_service.Base.{
  ◌≡◌, ◌%◌, String, some, none, Option, Bool, true, false, List, [], ◌∷◌, subst, All, if◌then◌else◌,
}
use ms_calendar_service.Availability.Zone.{Zone, IsZone}
use ms_calendar_service.Availability.Assign.Booking.{StartsWhole}
use ms_calendar_service.WebBooking.Start.{Calendar}
use ms_calendar_service.Slots.{Clock, TimeSlot, dedupe_and_sort_slots}
use ms_calendar_service.Slots.Texts.{dedupe_and_sort_slots_lem}
use ms_calendar_service.Slots.Single.{is_group}
use ms_calendar_service.Slots.Individual.{IsGoodSlot, single_slots-IsGoodSlot}
use ms_calendar_service.Slots.Day.{
  DayStatus, SlotsError, Answer, failed, answered, SlotAttendee, SlotsInput, BookingConfig,
  ServiceSnapshot, EventRow, SlotsDeps, get_events_overlapping_range, busy_windows_of, eligible_for,
}
use ms_calendar_service.Slots.Answer.{
  answer_slots, if_staffed, if_requested, unless_early, unless_invalid, slots_for, slots_with,
  public_get_available_time_slots, service_day, shifts_by_user, free_by_user, booking_window, today,
  day_start,
}
use ms_calendar_service.Slots.Answer.Laws.{step_of-positive}

module _ (x : TimeSlot) (slots : List TimeSlot) (status : DayStatus) (m : Memᴰ x slots) where
  -- The answer is the one with the slot.
  abbrev Is : Answer → Type 0
  Is a = a ≡ answered slots status

  not-nothing : (s : DayStatus) → ¬ Is (answered [] s)
  not-nothing s h = let e : slots ≡ [] = cc in Mem.not-nil (subst (Memᴰ x) e m)

  answer_slots-Memᴰ : (raw : List TimeSlot) → Is (answer_slots (some raw)) → Memᴰ x raw
  answer_slots-Memᴰ raw h =
      let (_, _, only, _) = dedupe_and_sort_slots_lem raw in
      let e : slots ≡ dedupe_and_sort_slots raw = cc in only x (subst (Memᴰ x) e m)

  module _ (z : Zone) (cal : Calendar) (clock : Clock) (config : BookingConfig) (deps : SlotsDeps)
      (input : SlotsInput) where
    staffed-inv :
        (uids : List String) (a : Answer)
        → Is (if_staffed z cal clock config deps input uids a)
        → Is a
    staffed-inv [] a h = absurd (not-nothing _ h)
    staffed-inv (uid ∷ uids) a h = h

    requested-inv :
        (attendees : List SlotAttendee) (a : Answer)
        → Is (if_requested z cal clock config deps input attendees a)
        → Is a
    requested-inv [] a h = absurd (not-nothing _ h)
    requested-inv (b ∷ attendees) a h = h

    early-inv :
        (s : Option DayStatus) (a : Answer)
        → Is (unless_early z cal clock config deps input s a)
        → Is a
    early-inv none a h = h
    early-inv (some s) a h = absurd (not-nothing _ h)

    valid-inv :
        (e : Option SlotsError) (a : Answer)
        → Is (unless_invalid z cal clock config deps input e a)
        → Is a
    valid-inv none a h = h
    valid-inv (some e) a h = cc

    combined-inv : (b : Bool) (e : SlotsError) (a : Answer) → Is (if b then failed e else a) → Is a
    combined-inv true e a h = cc
    combined-inv false e a h = h

    abbrev read : List EventRow
    read = get_events_overlapping_range (deps.utc_day input.date) deps.events

    slots_with-inv :
        (snapshots : String → Option ServiceSnapshot)
        → Is (slots_with z cal clock config deps input (some snapshots) read)
        → Is (slots_for z cal clock config deps input snapshots read input.attendees)
    unfolding slots_with
    slots_with-inv snapshots h = staffed-inv _ _ (combined-inv _ _ _ h)

    public-inv :
        Is (public_get_available_time_slots z cal clock config deps input)
        → Is (slots_with z cal clock config deps input deps.snapshots read)
    unfolding public_get_available_time_slots
    public-inv h = early-inv _ _ (staffed-inv _ _ (requested-inv _ _ (valid-inv _ _ h)))

    module _ (lawful : IsZone z) (snapshots : String → Option ServiceSnapshot)
        (found : deps.snapshots ≡ some snapshots) (a : SlotAttendee)
        (one : input.attendees ≡ a ∷ [])
        (whole : day_start z cal clock config deps input % 60000 ≡ 0)
        (individual : is_group (service_day z cal clock config deps input snapshots a) ≡ false)
        (all : (u : String)
          → All StartsWhole (free_by_user z cal clock config deps input read u)) where
      -- If the answer for one individual service has the slot, then the slot shows a time on the
      -- grid of the day and in the booking window at each instant of which some eligible
      -- professional is inside a shift, outside the events that were read and, on the present day,
      -- not before the rounded present. The day and the free windows are to start on whole minutes.
      pub public_get_available_time_slots-IsGoodSlot :
          Is (public_get_available_time_slots z cal clock config deps input)
          → IsGoodSlot z lawful clock
              (booking_window z cal clock config deps input)
              (service_day z cal clock config deps input snapshots a)
              (step_of-positive config input.attendees)
              whole
              individual
              (today z cal clock config deps input).1
              (busy_windows_of read)
              (shifts_by_user z cal clock config deps input)
              deps.group_events
              (eligible_for config deps input.attendees a.service_id)
              x
      unfolding slots_for
      public_get_available_time_slots-IsGoodSlot h =
          let found_one =
            subst (λ l. Is (slots_for z cal clock config deps input snapshots read l)) one
              (slots_with-inv snapshots (
                subst (λ s. Is (slots_with z cal clock config deps input s read)) found
                  (public-inv h))) in
          let (xs, run, good) =
            single_slots-IsGoodSlot z lawful clock (booking_window z cal clock config deps input)
              (service_day z cal clock config deps input snapshots a)
              (step_of-positive config input.attendees) whole individual
              (today z cal clock config deps input).1 (busy_windows_of read)
              (shifts_by_user z cal clock config deps input) deps.group_events
              (eligible_for config deps input.attendees a.service_id) all in
          good x (answer_slots-Memᴰ xs (rw run at found_one))
