-- ===== src/Availability/Shifts.antt =====
-- The shifts of a professional on a day, and what is free of them
-- (src/services/@database/event/availability-special.service.ts, buildShiftsByUser_SPECIAL, and the
-- loops of src/features/event-client/services/availability/event-client-availability.service.ts).
pub mod Laws
use ms_calendar_service.Base.{ℕ, String, List, [], ◌∷◌, ◌++◌, map, Bool, ltb, if◌then◌else◌, max}
use ms_calendar_service.Availability.Zone.{Zone}
use ms_calendar_service.Availability.Windows.{
  Window, window, subtract_busy_from_shift, merge_touching_windows,
}

-- An entry of an hours map: missing, `null`, or an array of pairs of clock times.
pub data DayHours : Type 0 where
  missing : DayHours
  closed : DayHours
  open_at : List (String × String) → DayHours

-- `biz === null ? [] : Array.isArray(biz) ? biz : []`
unfoldable pub biz_shifts : DayHours → List (String × String)
biz_shifts (open_at shifts) = shifts
biz_shifts closed = []
biz_shifts missing = []

-- The branch on the worker's weekday, with the fallback to the business hours.
unfoldable pub worker_shifts : Bool → DayHours → List (String × String) → List (String × String)
worker_shifts use_biz_fallback closed biz = []
worker_shifts use_biz_fallback (open_at (s ∷ ss)) biz = s ∷ ss
worker_shifts use_biz_fallback (open_at []) biz = if use_biz_fallback then biz else []
worker_shifts use_biz_fallback missing biz = if use_biz_fallback then biz else []

-- Temporary hours first, then the worker's, then those of the business.
unfoldable pub work_shifts :
    Bool → DayHours → DayHours → List (String × String) → List (String × String)
work_shifts use_biz_fallback closed worker biz = []
work_shifts use_biz_fallback (open_at (s ∷ ss)) worker biz = s ∷ ss
work_shifts use_biz_fallback (open_at []) worker biz = worker_shifts use_biz_fallback worker biz
work_shifts use_biz_fallback missing worker biz = worker_shifts use_biz_fallback worker biz

-- What `buildShiftsByUser_SPECIAL` is given; an absent key of a map is `missing`.
pub record ShiftsInput : Type 0 where
  pub user_ids : List String
  pub date : String
  pub week_day : String
  pub business_hours : String → DayHours
  pub worker_hours_map : String → String → DayHours
  pub temporary_hours_map : String → String → DayHours
  pub use_biz_fallback : Bool

module _ (z : Zone) where
  unfoldable pub local_window : String → String × String → Window
  local_window date (s, e) = window (z.at date s) (z.at date e)

  unfoldable pub shifts_of_user : ShiftsInput → String → List Window
  shifts_of_user p uid = map (local_window p.date) (
      work_shifts p.use_biz_fallback (p.temporary_hours_map uid p.date)
        (p.worker_hours_map uid p.week_day) (biz_shifts (p.business_hours p.week_day)))

  unfoldable pub build_shifts_by_user : ShiftsInput → List String → List (String × List Window)
  build_shifts_by_user p [] = []
  build_shifts_by_user p (uid ∷ uids) = (uid, shifts_of_user p uid) ∷ build_shifts_by_user p uids

-- The body of the loop over a user's shifts in `buildContext`.
unfoldable pub free_of_shift : Bool → ℕ → List Window → Window → List Window
free_of_shift is_today rounded_now busy shift =
    let start_clamped = if is_today then max shift.start rounded_now else shift.start in
    if ltb start_clamped shift.end
    then subtract_busy_from_shift start_clamped shift.end busy
    else []

unfoldable pub free_of_shifts : Bool → ℕ → List Window → List Window → List Window
free_of_shifts is_today rounded_now busy [] = []
free_of_shifts is_today rounded_now busy (shift ∷ shifts) =
    free_of_shift is_today rounded_now busy shift ++ free_of_shifts is_today rounded_now busy shifts

-- `freeWindowsByUser[userId]`
unfoldable pub free_windows : Bool → ℕ → List Window → List Window → List Window
free_windows is_today rounded_now busy shifts =
    merge_touching_windows (free_of_shifts is_today rounded_now busy shifts)
