-- ===== src/Slots/Sequence.antt =====
-- The slots of several services against the plans of their professionals.
use mathlib.Core.List.Memᴰ as Mem
use mathlib.Core.List.{Memᴰ}
use ms_calendar_service.Base.{
  ℕ, ◌≡◌, ◌<◌, inl, inr, String, true, ◌&&◌, List, [], ◌∷◌, refl, arith, Bool-cases, subst, sym,
}
use ms_calendar_service.Availability.Zone.{Zone}
use ms_calendar_service.Availability.Assign.{Segment}
use ms_calendar_service.Availability.Assign.Booking.{empty_buffers, assign_sequentially_iff}
use ms_calendar_service.Availability.Assign.Plan.{IsPlan}
use ms_calendar_service.Slots.{Clock, TimeSlot, BookingWindow, within_booking_window}
use ms_calendar_service.Slots.Grid.{Collects}
use ms_calendar_service.Slots.Multi.{
  MultiDay, candidates_of, is_planned, multi_slot, planned_slots, multi_slots, seeds,
}
use ms_calendar_service.Slots.Planned.{
  IsKey, keys_of_users-Collects, candidates_of-to, candidates_of-from,
}

module _ (z : Zone) (clock : Clock) (b : BookingWindow) (d : MultiDay) where
  -- The loop pushes the slot of a start.
  abbrev pub IsPushedAt : TimeSlot → ℕ → Type 0
  IsPushedAt x t =
      (within_booking_window b t && is_planned z d t ≡ true) × (x ≡ multi_slot clock d t)

  planned_slots-from :
      (x : TimeSlot) (starts : List ℕ)
      → Memᴰ x (planned_slots z clock b d starts)
      → (t : ℕ) × Memᴰ t starts × IsPushedAt x t
  unfolding planned_slots
  planned_slots-from x [] m = absurd (Mem.not-nil m)
  planned_slots-from x (t ∷ starts) m =
      elim (Bool-cases (within_booking_window b t && is_planned z d t)) [
        | inl e ↦ at_head e (rw e at m) (planned_slots-from x starts)
        | inr e ↦ later (planned_slots-from x starts (rw e at m))
      ]
    where
      later :
          (u : ℕ) × Memᴰ u starts × IsPushedAt x u → (u : ℕ) × Memᴰ u (t ∷ starts) × IsPushedAt x u
      later (u, k, h) = (u, Memᴰ.tail k, h)

      at_head :
          within_booking_window b t && is_planned z d t ≡ true
          → Memᴰ x (multi_slot clock d t ∷ planned_slots z clock b d starts)
          → (Memᴰ x (planned_slots z clock b d starts) → (u : ℕ) × Memᴰ u starts × IsPushedAt x u)
          → (u : ℕ) × Memᴰ u (t ∷ starts) × IsPushedAt x u
      at_head e (Memᴰ.head same) f = (t, Memᴰ.head refl, (e, same))
      at_head e (Memᴰ.tail k) f = later (f k)

  planned_slots-to :
      (x : TimeSlot) (t : ℕ) (starts : List ℕ)
      → Memᴰ t starts
      → IsPushedAt x t
      → Memᴰ x (planned_slots z clock b d starts)
  unfolding planned_slots
  planned_slots-to x t [] m h = absurd (Mem.not-nil m)
  planned_slots-to x t (u ∷ starts) (Memᴰ.head e) (ok, same) =
      rw (subst (λ v. within_booking_window b v && is_planned z d v ≡ true) e ok)
        (Memᴰ.head (subst (λ v. x ≡ multi_slot clock d v) e same))
  planned_slots-to x t (u ∷ starts) (Memᴰ.tail m) h =
      elim (Bool-cases (within_booking_window b u && is_planned z d u)) [
        | inl e ↦ rw e (Memᴰ.tail (planned_slots-to x t starts m h))
        | inr e ↦ rw e (planned_slots-to x t starts m h)
      ]

  -- A plan from the start: back-to-back segments, each with an eligible professional who is free.
  abbrev pub HasPlan : ℕ → Type 0
  HasPlan t = (segs : List Segment) × IsPlan z t d.eligible d.free [] d.attendees [] segs

  module _ (positive : 0 < d.step_minutes) where
    -- A start that is read back from a key, in the booking window, with a plan.
    abbrev pub IsMultiSlot : TimeSlot → Type 0
    IsMultiSlot x =
        (k : String) × IsKey z clock d positive (seeds d d.attendees) k
        × (within_booking_window b (clock.parse_local k) ≡ true)
        × HasPlan (clock.parse_local k)
        × (x ≡ multi_slot clock d (clock.parse_local k))

    pushed→slot :
        (x : TimeSlot) (k : String) (t : ℕ)
        → clock.parse_local k ≡ t
        → IsKey z clock d positive (seeds d d.attendees) k
        → IsPushedAt x t
        → IsMultiSlot x
    pushed→slot x k t e key (ok, same) =
        let within : within_booking_window b t ≡ true = ground arith in
        let planned : is_planned z d t ≡ true = ground arith in
        let plan =
          (assign_sequentially_iff z t d.eligible d.free d.attendees empty_buffers).0 planned in
        (
          k,
          key,
          subst (λ v. within_booking_window b v ≡ true) (sym e) within,
          subst HasPlan (sym e) plan,
          subst (λ v. x ≡ multi_slot clock d v) (sym e) same,
        )

    slot→pushed :
        (x : TimeSlot) (k : String)
        → within_booking_window b (clock.parse_local k) ≡ true
        → HasPlan (clock.parse_local k)
        → x ≡ multi_slot clock d (clock.parse_local k)
        → IsPushedAt x (clock.parse_local k)
    slot→pushed x k within plan same =
        let t = clock.parse_local k in
        let planned =
          (assign_sequentially_iff z t d.eligible d.free d.attendees empty_buffers).1 plan in
        (rw (within, planned) refl, same)

    -- For several services and a positive step the loops over the grid end. The slots that are
    -- pushed are exactly those of the starts that stand on the grid in the range of a free window
    -- of a professional of the first service, lie in the booking window when they are read back
    -- from their texts, and have a plan: back-to-back segments, each with an eligible professional
    -- who is free for it.
    pub multi_slots-Collects : Collects IsMultiSlot (multi_slots z clock b d)
    unfolding multi_slots
    multi_slots-Collects =
        let (keys, e, h) = keys_of_users-Collects z clock d positive (seeds d d.attendees) in
        rw e (
          planned_slots z clock b d (candidates_of clock keys),
          refl,
          λ x. (
            λ m.
                let (t, n, pushed) = planned_slots-from x (candidates_of clock keys) m in
                let (k, l, same) = candidates_of-from clock t keys n in
                pushed→slot x k t same ((h k).0 l) pushed,
            λ (k, key, within, plan, same).
                planned_slots-to x (clock.parse_local k) (candidates_of clock keys)
                  (candidates_of-to clock k keys ((h k).1 key)) (slot→pushed x k within plan same),
          ),
        )
