-- ===== src/Availability/Shifts/Laws.antt =====
-- When an instant is free for a professional.
use ms_calendar_service.Base.{
  ℕ, ◌≡◌, List, [], ◌∷◌, Bool, true, false, not, ◌&&◌, arith, leb, ◌∙◌, any-append, if◌then◌else◌,
  max,
}
use ms_calendar_service.Availability.Windows.{Window, holds, covers}
use ms_calendar_service.Availability.Windows.Subtract.{subtract_busy_from_shift-covers}
use ms_calendar_service.Availability.Windows.Merge.{merge_touching_windows-covers}
use ms_calendar_service.Availability.Shifts.{free_of_shift, free_of_shifts, free_windows}

-- On the present day nothing before the rounded present is offered.
abbrev pub not_past : Bool → ℕ → ℕ → Bool
not_past is_today rounded_now t = if is_today then leb rounded_now t else true

free_of_shift-covers :
    (is_today : Bool) (now : ℕ) (busy : List Window) (shift : Window) (t : ℕ)
    → covers (free_of_shift is_today now busy shift) t
      ≡ (not_past is_today now t && holds t shift && not (covers busy t))
unfolding free_of_shift
free_of_shift-covers true now busy shift t =
    ground (arith, subtract_busy_from_shift-covers (max shift.start now) shift.end t busy)
free_of_shift-covers false now busy shift t =
    ground (arith, subtract_busy_from_shift-covers shift.start shift.end t busy)

free_of_shifts-covers :
    (is_today : Bool) (now : ℕ) (busy shifts : List Window) (t : ℕ)
    → covers (free_of_shifts is_today now busy shifts) t
      ≡ (not_past is_today now t && covers shifts t && not (covers busy t))
unfolding free_of_shifts
free_of_shifts-covers is_today now busy [] t = ground arith
free_of_shifts-covers is_today now busy (shift ∷ shifts) t = ground (
  arith,
  any-append (holds t) (free_of_shift is_today now busy shift)
      (free_of_shifts is_today now busy shifts),
  free_of_shift-covers is_today now busy shift t,
  free_of_shifts-covers is_today now busy shifts t,
)

-- A professional is free at an instant exactly when it is inside one of the shifts, outside every
-- busy range and, if the day is the present one, not before the rounded present.
pub free_windows-covers :
    (is_today : Bool) (now : ℕ) (busy shifts : List Window) (t : ℕ)
    → covers (free_windows is_today now busy shifts) t
      ≡ (not_past is_today now t && covers shifts t && not (covers busy t))
unfolding free_windows
free_windows-covers is_today now busy shifts t =
    merge_touching_windows-covers (free_of_shifts is_today now busy shifts) t
    ∙ free_of_shifts-covers is_today now busy shifts t
