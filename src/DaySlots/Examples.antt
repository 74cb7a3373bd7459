-- ===== src/DaySlots/Examples.antt =====
-- A day of one shift and one event, and the theorem at it.
use ms_calendar_service.Base.{◌≡◌, some, true, false, [], ◌∷◌, if◌then◌else◌, any, refl, arith}
use text.Mathlib.Text.{◌==◌ as str_eq}
use ms_calendar_service.Availability.Zone.{Zone, utc}
use ms_calendar_service.Availability.Shifts.{
  open_at, missing, biz_shifts, worker_shifts, work_shifts, local_window, shifts_of_user,
}
use ms_calendar_service.DaySlots.{
  DayInput, if_open, slot_loop, round_now, first_slot, any_shift, any_user, has_any_slot_for_day,
}
use ms_calendar_service.DaySlots.Shift.{has_user, has_any_slot_for_day_lem}

abbrev zone : Zone
zone = record utc { at = λ date time. if str_eq time "10" then 0 else 600000 }

-- A shift of ten minutes, a service of two, and an event in the last one.
abbrev day : DayInput
day = record {
  hours = record {
    user_ids = "ana" ∷ [];
    date = "2026-05-04";
    week_day = "MONDAY";
    business_hours = λ d. open_at (("10", "20") ∷ []);
    worker_hours_map = λ u d. missing;
    temporary_hours_map = λ u d. missing;
    use_biz_fallback = true;
  };
  day_start = 0;
  day_end = 86399999;
  now = 0;
  is_today = false;
  service_duration = 2;
  interval_minutes = 5;
  events = record { user_id = "ana"; start = 540000; end = 600000 } ∷ [];
}

day_lem_example :
    has_any_slot_for_day zone day
    ≡ if_open
        (biz_shifts (open_at (("10", "20") ∷ [])))
        (some (any (has_user zone day (omega arith)) ("ana" ∷ [])))
day_lem_example = has_any_slot_for_day_lem zone day (omega arith)

day_run : Unit {0}
unfolding biz_shifts worker_shifts work_shifts local_window shifts_of_user slot_loop round_now
    first_slot any_shift any_user has_any_slot_for_day
day_run = tt

-- The first nine minutes are free, and no slot is found.
full_day_test : has_any_slot_for_day zone (record day { service_duration = 6 }) ≡ some false
unfolding day_run
full_day_test = refl
