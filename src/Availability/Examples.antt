-- ===== src/Availability/Examples.antt =====
-- Runs of the availability code on small inputs, and its theorems at such inputs.
use ms_calendar_service.Base.{◌≡◌, ◌↔◌, String, List, [], ◌∷◌, true, false, not, ◌&&◌, refl, All}
use ms_calendar_service.Base.Sort.{sort_by}
use ms_calendar_service.Availability.Zone.{utc, utc-IsZone}
use ms_calendar_service.Availability.Windows.Merge.{merge_touching_windows-covers}
use ms_calendar_service.Availability.Windows.{
  Window, window, holds, covers, carve, clipped, merge_from, subtract_busy_from_shift,
  merge_touching_windows,
}
use ms_calendar_service.Availability.Windows.Subtract.{subtract_busy_from_shift-covers}
use ms_calendar_service.Availability.Shifts.{free_of_shifts, free_of_shift, free_windows}
use ms_calendar_service.Availability.Shifts.Laws.{not_past, free_windows-covers}
use ms_calendar_service.Availability.Assign.{
  Attendee, Segment, assign_sequentially, try_candidates, window_contains, clashes, sum_durations,
  drop_last,
}
use ms_calendar_service.Availability.Assign.Plan.{IsPlan}
use ms_calendar_service.Availability.Assign.Booking.{
  empty_buffers, IsBookable, assign_sequentially_iff, assign_sequentially-IsBookable,
}

-- Two overlapping events and one outside the shift, in no order.
abbrev busy_day : List Window
busy_day = window 50 70 ∷ window 200 300 ∷ window 20 30 ∷ window 25 40 ∷ []

windows_run : Unit {0}
unfolding carve clipped merge_from subtract_busy_from_shift merge_touching_windows sort_by
windows_run = tt

subtract_test :
    subtract_busy_from_shift 10 100 busy_day ≡ window 10 20 ∷ window 40 50 ∷ window 70 100 ∷ []
unfolding windows_run
subtract_test = refl

merge_test :
    merge_touching_windows (window 5 9 ∷ window 1 3 ∷ window 3 4 ∷ [])
    ≡ window 1 4 ∷ window 5 9 ∷ []
unfolding windows_run
merge_test = refl

subtract_covers_example :
    covers (subtract_busy_from_shift 10 100 busy_day) 45
    ≡ (holds 45 (window 10 100) && not (covers busy_day 45))
subtract_covers_example = subtract_busy_from_shift-covers 10 100 45 busy_day

free_covers_example :
    covers (free_windows true 15 busy_day (window 10 100 ∷ [])) 45
    ≡ (not_past true 15 45 && covers (window 10 100 ∷ []) 45 && not (covers busy_day 45))
free_covers_example = free_windows-covers true 15 busy_day (window 10 100 ∷ []) 45

-- One hour of shift from minute 0, busy from minute 30 to 40 for everyone.
abbrev hour_shift : String → List Window
hour_shift u = window 0 3600000 ∷ []

abbrev half_busy : String → List Window
half_busy u = window 1800000 2400000 ∷ []

abbrev hour_free : String → List Window
hour_free u = free_windows false 0 (half_busy u) (hour_shift u)

abbrev staff : String → List String
staff service = "ana" ∷ "bob" ∷ []

abbrev cut_and_wash : List Attendee
cut_and_wash =
    record { service_id = "cut"; duration_min = 20 }
    ∷ record { service_id = "wash"; duration_min = 10 }
    ∷ []

search_run : Unit {0}
unfolding windows_run free_windows free_of_shifts free_of_shift assign_sequentially try_candidates
    window_contains clashes sum_durations drop_last
search_run = tt

search_ok : (assign_sequentially utc 0 staff hour_free [] cut_and_wash empty_buffers).0 ≡ true
unfolding search_run
search_ok = refl

search_late :
    (assign_sequentially utc 60000 staff hour_free [] cut_and_wash empty_buffers).0 ≡ false
unfolding search_run
search_late = refl

search_iff_example :
    ((assign_sequentially utc 0 staff hour_free [] cut_and_wash empty_buffers).0 ≡ true)
    ↔ ((segs : List Segment) × IsPlan utc 0 staff hour_free [] cut_and_wash [] segs)
search_iff_example = assign_sequentially_iff utc 0 staff hour_free cut_and_wash empty_buffers

search-IsBookable_example :
    All
      (IsBookable false 0 half_busy hour_shift)
      (assign_sequentially utc 0 staff hour_free [] cut_and_wash empty_buffers).1.assignment
unfolding search_run
search-IsBookable_example =
    assign_sequentially-IsBookable utc utc-IsZone 0 refl staff false 0 half_busy hour_shift
      cut_and_wash (λ u. (refl, (refl, tt))) search_ok

merge_covers_example : covers (merge_touching_windows busy_day) 35 ≡ covers busy_day 35
merge_covers_example = merge_touching_windows-covers busy_day 35
