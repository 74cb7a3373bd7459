-- ===== src/Slots/Answer/Utc.antt =====
-- The events that the answer takes into account.
use ms_calendar_service.Base.{ℕ, ◌≡◌, ◌≤◌, ◌⊎◌, List, ◌∷◌, refl, arith, ltb, false, ◌&&◌}
use ms_calendar_service.Availability.Zone.{Zone}
use ms_calendar_service.WebBooking.Start.{Calendar}
use ms_calendar_service.Slots.{Clock}
use ms_calendar_service.Slots.Day.{
  SlotsInput, BookingConfig, EventRow, SlotsDeps, user_ids_by_service, get_events_overlapping_range,
}
use ms_calendar_service.Slots.Answer.{
  public_get_available_time_slots, slots_with, slots_for, shifts_by_user,
}

-- The event meets no instant of the range.
abbrev pub IsOutside : ℕ × ℕ → EventRow → Type 0
IsOutside (day_start, day_end) e = (day_end ≤ e.start) ⊎ (e.end ≤ day_start)

outside-drops :
    (day : ℕ × ℕ) (e : EventRow) (events : List EventRow)
    → IsOutside day e
    → get_events_overlapping_range day (e ∷ events) ≡ get_events_overlapping_range day events
unfolding get_events_overlapping_range
outside-drops (day_start, day_end) e events h =
    let out : ltb e.start day_end && ltb day_start e.end ≡ false = ground arith in rw out refl

-- An event that meets no instant of the day of UTC with the requested date changes no answer,
-- whatever the day with that date is in the workspace's zone.
pub public_get_available_time_slots_ignores :
    (z : Zone) (cal : Calendar) (clock : Clock) (config : BookingConfig) (deps : SlotsDeps)
    (input : SlotsInput) (e : EventRow)
    → IsOutside (deps.utc_day input.date) e
    → public_get_available_time_slots z cal clock config
        (record deps { events = e ∷ deps.events })
        input
      ≡ public_get_available_time_slots z cal clock config deps input
unfolding public_get_available_time_slots slots_with user_ids_by_service slots_for shifts_by_user
public_get_available_time_slots_ignores z cal clock config deps input e h =
    rw (outside-drops (deps.utc_day input.date) e deps.events h) refl
