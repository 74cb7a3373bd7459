-- ===== src/DaySlots.antt =====
-- Whether a day has a slot for a service (`hasAnySlotForDay` of
-- src/services/@database/event/util/event-availability.ts). The loop over the slots of a shift runs
-- on fuel, and `none` is a run out of it. The day is given by its first and last instants.
pub mod Shift
mod Examples
use ms_calendar_service.Base.{
  ℕ, zero, suc, ◌+◌, ◌-◌, ◌*◌, ◌/◌, ◌%◌, String, Option, none, some, Bool, true, false, not, ◌&&◌,
  List, [], ◌∷◌, if◌then◌else◌, ltb, any, keep,
}
use text.Mathlib.Text.{◌==◌ as str_eq}
use ms_calendar_service.Availability.Zone.{Zone, add_minutes, minute_ms}
use ms_calendar_service.Availability.Windows.{Window}
use ms_calendar_service.Availability.Shifts.{ShiftsInput, biz_shifts, shifts_of_user}

pub record DayEvent : Type 0 where
  pub user_id : String
  pub start : ℕ
  pub end : ℕ

pub record DayInput : Type 0 where
  pub hours : ShiftsInput  -- with the fallback to the business hours
  pub day_start : ℕ
  pub day_end : ℕ
  pub now : ℕ
  pub is_today : Bool
  pub service_duration : ℕ
  pub interval_minutes : ℕ
  pub events : List DayEvent

-- `slotStartUTC` and `slotEndUTC` are those of the shift.
abbrev pub overlaps_shift : Window → DayEvent → Bool
overlaps_shift shift e = ltb shift.start e.end && ltb e.start shift.end

-- The `while` loop from a slot. `step` is the interval in milliseconds.
unfoldable pub slot_loop : ℕ → ℕ → Window → List DayEvent → ℕ → ℕ → Option Bool
slot_loop step duration shift events zero slot = none
slot_loop step duration shift events (suc fuel) slot =
    let later = slot_loop step duration shift events fuel (slot + step) in
    let tested = if not (any (overlaps_shift shift) events) then some true else later in
    let fitted = if ltb shift.end (add_minutes slot duration) then some false else tested in
    if ltb slot shift.end then fitted else some false

-- `minute(Math.ceil(minute / interval) * interval).second(0)`, which keeps the milliseconds.
unfoldable pub round_now : Zone → ℕ → ℕ → ℕ
round_now z interval now =
    add_minutes (z.whole_minute now - z.minute_of now * minute_ms)
      ((z.minute_of now + interval - 1) / interval * interval)
    + now % 1000

unfoldable pub first_slot : Zone → DayInput → Window → ℕ
first_slot z p shift =
    if p.is_today && ltb shift.start p.now
    then round_now z p.interval_minutes p.now
    else shift.start

abbrev pub events_of : DayInput → String → List DayEvent
events_of p uid =
    keep (λ (e : DayEvent). str_eq e.user_id uid && ltb e.start p.day_end && ltb p.day_start e.end)
      p.events

-- The code returns at the first slot found, and goes on if there is none.
abbrev pub or_next : Option Bool → Option Bool → Option Bool
or_next none next = none
or_next (some true) next = some true
or_next (some false) next = next

unfoldable pub any_shift : Zone → DayInput → List DayEvent → List Window → Option Bool
any_shift z p events [] = some false
any_shift z p events (shift ∷ shifts) =
    or_next
      (slot_loop (p.interval_minutes * minute_ms) p.service_duration shift events (suc shift.end)
        (first_slot z p shift))
      (any_shift z p events shifts)

unfoldable pub any_user : Zone → DayInput → List String → Option Bool
any_user z p [] = some false
any_user z p (uid ∷ uids) =
    or_next (any_shift z p (events_of p uid) (shifts_of_user z p.hours uid)) (any_user z p uids)

abbrev pub if_open : List (String × String) → Option Bool → Option Bool
if_open [] found = some false
if_open (s ∷ ss) found = found

unfoldable pub has_any_slot_for_day : Zone → DayInput → Option Bool
has_any_slot_for_day z p =
    if_open (biz_shifts (p.hours.business_hours p.hours.week_day)) (any_user z p p.hours.user_ids)
