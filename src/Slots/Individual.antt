-- ===== src/Slots/Individual.antt =====
-- The slots of an individual service can be booked.
use mathlib.Core.List.Memᴰ as Mem
use mathlib.Core.List.{Memᴰ}
use ms_calendar_service.Base.{
  ℕ, ◌≡◌, ◌≤◌, ◌<◌, ◌+◌, ◌*◌, ◌%◌, String, some, none, true, false, List, arith, max, All,
  Bool-cases, inl, inr,
}
use ms_calendar_service.Base.Members.{Memᴰ→any, All-Memᴰ}
use ms_calendar_service.Availability.Zone.{Zone, IsZone, add_minutes, minute_ms}
use ms_calendar_service.Availability.Windows.{Window, holds, covers}
use ms_calendar_service.Availability.Shifts.{free_windows}
use ms_calendar_service.Availability.Shifts.Laws.{free_windows-covers}
use ms_calendar_service.Availability.Assign.{Segment}
use ms_calendar_service.Availability.Assign.Booking.{StartsWhole, IsBookable}
use ms_calendar_service.Slots.{Clock, TimeSlot, slot_of, BookingWindow, within_booking_window}
use ms_calendar_service.Slots.Grid.{align_to_grid_ceil-least}
use ms_calendar_service.Slots.Single.{
  ServiceDay, GroupEvent, is_group, emit_in, individual_slot, first_start, single_slots,
}
use ms_calendar_service.Slots.Offered.{IsSingle, single_slots-Collects}

-- The booking of a professional from a start.
abbrev pub booking : ServiceDay → String → ℕ → Segment
booking d uid t = record {
  service_id = "";
  user_id = uid;
  start = t;
  end = add_minutes t d.duration;
}

module _ (z : Zone) (lawful : IsZone z) (clock : Clock) (b : BookingWindow) (d : ServiceDay)
    (positive : 0 < d.step_minutes) (whole : d.day_start % 60000 ≡ 0)
    (individual : is_group d ≡ false) (now : ℕ) (busy shifts : String → List Window)
    (events : List GroupEvent) where
  abbrev free_of : String → List Window
  free_of u = free_windows d.is_today now (busy u) (shifts u)

  -- What is wanted of an offered slot: it shows a time on the grid of the day and in the booking
  -- window, for which an eligible professional is in a shift and not busy.
  abbrev pub IsGoodSlot : List String → TimeSlot → Type 0
  IsGoodSlot uids x =
      (uid : String) × (t : ℕ) × Memᴰ uid uids
      × (x ≡ slot_of clock t (add_minutes t d.duration) none)
      × (within_booking_window b t ≡ true)
      × ((q : ℕ) × (t ≡ d.day_start + q * (d.step_minutes * minute_ms)))
      × IsBookable d.is_today now busy shifts (booking d uid t)

  emitted-individual :
      (uid : String) (t : ℕ) (x : TimeSlot)
      → Memᴰ x (emit_in z clock b d uid events t)
      → (within_booking_window b t ≡ true) × (x ≡ slot_of clock t (add_minutes t d.duration) none)
  emitted-individual uid t x m = elim (Bool-cases (within_booking_window b t)) [
    | inl e ↦ (e, only (rw (e, individual) at m))
    | inr e ↦ absurd (Mem.not-nil (rw e at m))
  ]
    where
      only :
          Memᴰ x (individual_slot clock d t) → x ≡ slot_of clock t (add_minutes t d.duration) none
      only (Memᴰ.head e) = e
      only (Memᴰ.tail l) = absurd (Mem.not-nil l)

  inside-covers :
      (uid : String) (w : Window) (t i : ℕ)
      → Memᴰ w (free_of uid)
      → w.start ≤ t
      → add_minutes t d.duration ≤ w.end
      → t ≤ i
      → i < add_minutes t d.duration
      → covers (free_of uid) i ≡ true
  inside-covers uid w t i m p q h k = Memᴰ→any (holds i) m (ground arith)

  started-IsGoodSlot :
      (uids : List String) (x : TimeSlot) (uid : String) (w : Window) (k : ℕ)
      → Memᴰ uid uids
      → Memᴰ w (free_of uid)
      → w.start % 60000 ≡ 0
      → first_start z d w + k * (d.step_minutes * minute_ms) + d.duration * minute_ms ≤ w.end
      → Memᴰ x
          (emit_in z clock b d uid events (first_start z d w + k * (d.step_minutes * minute_ms)))
      → IsGoodSlot uids x
  started-IsGoodSlot uids x uid w k m mw p fits emitted =
      let t = first_start z d w + k * (d.step_minutes * minute_ms) in
      let (within, e) = emitted-individual uid t x emitted in
      let (least, small, (q, grid)) =
        align_to_grid_ceil-least z lawful (max w.start d.day_start) d.step_minutes d.day_start
          positive (omega arith) (omega arith) whole in
      (
        uid,
        t,
        m,
        e,
        within,
        (q + k, grind (arith, grid)),
        λ i h l. ground (
          arith,
          inside-covers uid w t i mw (omega (arith, least)) fits h l,
          free_windows-covers d.is_today now (busy uid) (shifts uid) i,
        ),
      )

  single-IsGoodSlot :
      (uids : List String) (x : TimeSlot)
      → ((u : String) → All StartsWhole (free_of u))
      → IsSingle z d positive clock b free_of events uids x
      → IsGoodSlot uids x
  single-IsGoodSlot uids x all (uid, m, (w, mw, (k, fits, emitted))) =
      let mine : Memᴰ w (free_of uid) = rw individual at mw in
      started-IsGoodSlot uids x uid w k m mine (All-Memᴰ StartsWhole (free_of uid) (all uid) mine)
        fits emitted

  -- For an individual service, a positive step, a day that starts on a whole minute and free
  -- windows of the availability context that do, the fast path ends, and each slot it pushes is a
  -- time on the grid of the day and in the booking window at each instant of which some eligible
  -- professional is inside a shift, outside the busy ranges and, on the present day, not before the
  -- rounded present.
  pub single_slots-IsGoodSlot :
      (uids : List String)
      → ((u : String) → All StartsWhole (free_of u))
      → (xs : List TimeSlot) × (single_slots z clock b d free_of events uids ≡ some xs)
        × ((x : TimeSlot) → Memᴰ x xs → IsGoodSlot uids x)
  single_slots-IsGoodSlot uids all =
      let (xs, e, h) = single_slots-Collects z d positive clock b free_of events uids in
      (xs, e, λ x m. single-IsGoodSlot uids x all ((h x).0 m))
