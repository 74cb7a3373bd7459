-- ===== src/WebBooking/Outcomes.antt =====
-- When `addEventFromWeb` creates a booking.
use ms_calendar_service.Base.{ℕ, ◌≡◌, ◌≤◌, ◌<◌, ◌+◌, ◌%◌, String, Option, List}
use ms_calendar_service.Availability.Zone.{Zone}
use ms_calendar_service.Availability.Assign.{Segment}
use ms_calendar_service.Booking.Rows.{Event}
use ms_calendar_service.WebBooking.Start.{Calendar}
use ms_calendar_service.WebBooking.{Outcome}

abbrev pub IsCreated : Outcome → Type 0
IsCreated o =
    (segs : List Segment) × (es : List Event) × (end : ℕ) × (group : Option String) × (o
      ≡ Outcome.created segs es end group)

-- What the documentation says of the days of a zone: the first instant of a day is on that day, and so
-- are the instants of one minute.
pub record IsCalendar (z : Zone) (cal : Calendar) : Type 0 where
  pub start_of_day_lem : (t : ℕ) → cal.start_of_day (cal.start_of_day t) ≡ cal.start_of_day t
  pub minute_of_day : (t : ℕ) → cal.start_of_day (z.whole_minute t) ≡ cal.start_of_day t

-- The start is on the day of the present or later and, on that day, not before a time of a whole
-- multiple of five minutes that is not before the minute of the present.
abbrev pub IsTimely : Zone → Calendar → ℕ → ℕ → Type 0
IsTimely z cal now start =
    (cal.start_of_day now ≤ cal.start_of_day start)
    × (cal.start_of_day start ≡ cal.start_of_day now
        → (mark : ℕ) × (mark % 60000 ≡ 0)
          × (z.minute_of mark % 5 ≡ 0)
          × (now < mark + 60000)
          × (mark ≤ start))
