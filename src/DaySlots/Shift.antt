-- ===== src/DaySlots/Shift.antt =====
-- What the search for a slot of a day finds.
use ms_calendar_service.Base.{
  ℕ, zero, suc, ◌≡◌, ◌≤◌, ◌<◌, ◌+◌, ◌*◌, String, some, Bool, true, false, not, ◌&&◌, ◌||◌, List, [],
  ◌∷◌, refl, arith, ltb, leb, any,
}
use ms_calendar_service.Availability.Zone.{Zone, add_minutes, minute_ms}
use ms_calendar_service.Availability.Windows.{Window}
use ms_calendar_service.Availability.Shifts.{biz_shifts, shifts_of_user}
use ms_calendar_service.DaySlots.{
  DayEvent, DayInput, overlaps_shift, slot_loop, first_slot, events_of, any_shift, any_user,
  or_next, if_open, has_any_slot_for_day,
}

-- The first slot fits in the shift, and no event of the professional meets the shift.
abbrev pub has_slot : ℕ → Window → List DayEvent → ℕ → Bool
has_slot duration shift events slot =
    ltb slot shift.end
    && leb (add_minutes slot duration) shift.end
    && not (any (overlaps_shift shift) events)

slot_loop_lem :
    (step duration : ℕ) (shift : Window) (events : List DayEvent) (fuel slot : ℕ)
    → 0 < step
    → shift.end ≤ slot + fuel
    → slot_loop step duration shift events (suc fuel) slot
      ≡ some (has_slot duration shift events slot)
unfolding slot_loop
slot_loop_lem step duration shift events zero slot h k = ground arith
slot_loop_lem step duration shift events (suc fuel) slot h k =
    ground (arith, slot_loop_lem step duration shift events fuel (slot + step) h (omega arith))

or_next_lem : (b c : Bool) → or_next (some b) (some c) ≡ some (b || c)
or_next_lem true c = refl
or_next_lem false c = refl

module _ (z : Zone) (p : DayInput) (positive : 0 < p.interval_minutes) where
  abbrev pub has_shift : List DayEvent → Window → Bool
  has_shift events shift = has_slot p.service_duration shift events (first_slot z p shift)

  any_shift_lem :
      (events : List DayEvent) (shifts : List Window)
      → any_shift z p events shifts ≡ some (any (has_shift events) shifts)
  unfolding any_shift
  any_shift_lem events [] = refl
  any_shift_lem events (shift ∷ shifts) =
      let run =
        slot_loop_lem (p.interval_minutes * minute_ms) p.service_duration shift events shift.end
          (first_slot z p shift) (omega arith) (omega arith) in
      rw (run, any_shift_lem events shifts) (or_next_lem (has_shift events shift) _)

  abbrev pub has_user : String → Bool
  has_user uid = any (has_shift (events_of p uid)) (shifts_of_user z p.hours uid)

  any_user_lem : (uids : List String) → any_user z p uids ≡ some (any has_user uids)
  unfolding any_user
  any_user_lem [] = refl
  any_user_lem (uid ∷ uids) =
      let run = any_shift_lem (events_of p uid) (shifts_of_user z p.hours uid) in
      rw (run, any_user_lem uids) (or_next_lem (has_user uid) _)

  -- With a positive interval the search for a slot ends. It finds none on a day without business
  -- hours, and on another day it finds one exactly if some professional has a shift that no event
  -- of the day meets and whose first slot ends within it: an event anywhere in a shift takes the
  -- whole shift away.
  pub has_any_slot_for_day_lem :
      has_any_slot_for_day z p
      ≡ if_open
          (biz_shifts (p.hours.business_hours p.hours.week_day))
          (some (any has_user p.hours.user_ids))
  unfolding has_any_slot_for_day
  has_any_slot_for_day_lem = rw (any_user_lem p.hours.user_ids) refl
