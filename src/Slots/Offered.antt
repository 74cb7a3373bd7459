-- ===== src/Slots/Offered.antt =====
-- What the fast path for one service offers.
use mathlib.Core.List.Memᴰ as Mem
use mathlib.Core.List.{Memᴰ}
use ms_calendar_service.Base.{
  ℕ, suc, ◌<◌, ◌*◌, ◌⊎◌, inl, inr, String, List, [], ◌∷◌, refl, arith, subst,
}
use ms_calendar_service.Availability.Zone.{Zone, minute_ms}
use ms_calendar_service.Availability.Windows.{Window}
use ms_calendar_service.Slots.{Clock, TimeSlot, BookingWindow}
use ms_calendar_service.Slots.Grid.{
  Collects, join_all-Collects, nothing-Collects, IsEmitted, grid_loop-Collects,
}
use ms_calendar_service.Slots.Single.{
  ServiceDay, GroupEvent, windows_for, emit_in, first_start, slots_of_windows, single_slots,
}

module _ (z : Zone) (d : ServiceDay) (positive : 0 < d.step_minutes) where
  -- Some start on the grid of a window, from which the service ends within it, emits the slot.
  abbrev pub IsEmittedIn : (ℕ → List TimeSlot) → Window → TimeSlot → Type 0
  IsEmittedIn emit w x =
      IsEmitted (d.step_minutes * minute_ms) (d.duration * minute_ms) w.end emit (omega arith)
        (first_start z d w) x

  abbrev pub IsOffered : (ℕ → List TimeSlot) → List Window → TimeSlot → Type 0
  IsOffered emit ws x = (w : Window) × Memᴰ w ws × IsEmittedIn emit w x

  IsOffered-split :
      (emit : ℕ → List TimeSlot) (w : Window) (ws : List Window) (x : TimeSlot)
      → IsOffered emit (w ∷ ws) x
      → IsEmittedIn emit w x ⊎ IsOffered emit ws x
  IsOffered-split emit w ws x (v, Memᴰ.head e, h) = inl (subst (λ u. IsEmittedIn emit u x) e h)
  IsOffered-split emit w ws x (v, Memᴰ.tail m, h) = inr (v, m, h)

  slots_of_windows-Collects :
      (emit : ℕ → List TimeSlot) (ws : List Window)
      → Collects (IsOffered emit ws) (slots_of_windows z d emit ws)
  unfolding slots_of_windows
  slots_of_windows-Collects emit [] =
      nothing-Collects (IsOffered emit []) (λ x (w, m, h). Mem.not-nil m)
  slots_of_windows-Collects emit (w ∷ ws) =
      join_all-Collects (IsEmittedIn emit w) (IsOffered emit ws) (IsOffered emit (w ∷ ws)) _ _
        (grid_loop-Collects (d.step_minutes * minute_ms) (d.duration * minute_ms) w.end emit
          (omega arith) (suc w.end) (first_start z d w) (omega arith))
        (slots_of_windows-Collects emit ws)
        (λ x. (
          λ h. (w, Memᴰ.head refl, h),
          λ (v, m, h). (v, Memᴰ.tail m, h),
          IsOffered-split emit w ws x,
        ))

  module _ (clock : Clock) (b : BookingWindow) (free : String → List Window)
      (events : List GroupEvent) where
    -- What one professional offers.
    abbrev pub IsOfferedBy : String → TimeSlot → Type 0
    IsOfferedBy uid =
        IsOffered (emit_in z clock b d uid events) (windows_for z d uid events (free uid))

    abbrev pub IsSingle : List String → TimeSlot → Type 0
    IsSingle uids x = (uid : String) × Memᴰ uid uids × IsOfferedBy uid x

    IsSingle-split :
        (uid : String) (uids : List String) (x : TimeSlot)
        → IsSingle (uid ∷ uids) x
        → IsOfferedBy uid x ⊎ IsSingle uids x
    IsSingle-split uid uids x (v, Memᴰ.head e, h) = inl (subst (λ u. IsOfferedBy u x) e h)
    IsSingle-split uid uids x (v, Memᴰ.tail m, h) = inr (v, m, h)

    -- With a positive step every loop over a grid ends. The slots that are pushed are exactly those
    -- that an eligible professional offers: a start on the grid of one of the windows, from which
    -- the service ends within the window, and at which the round of the loop pushes the slot.
    pub single_slots-Collects :
        (uids : List String) → Collects (IsSingle uids) (single_slots z clock b d free events uids)
    unfolding single_slots
    single_slots-Collects [] = nothing-Collects (IsSingle []) (λ x (u, m, h). Mem.not-nil m)
    single_slots-Collects (uid ∷ uids) =
        join_all-Collects (IsOfferedBy uid) (IsSingle uids) (IsSingle (uid ∷ uids)) _ _
          (slots_of_windows-Collects (emit_in z clock b d uid events)
            (windows_for z d uid events (free uid)))
          (single_slots-Collects uids)
          (λ x. (
            λ h. (uid, Memᴰ.head refl, h),
            λ (v, m, h). (v, Memᴰ.tail m, h),
            IsSingle-split uid uids x,
          ))
