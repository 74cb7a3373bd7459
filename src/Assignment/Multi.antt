-- ===== src/Assignment/Multi.antt =====
-- What the strategy for several services assigns, against the plans of the search.
use ms_calendar_service.Base.{
  ℕ, ◌≡◌, ◌%◌, ◌*◌, ◌+◌, ◌↔◌, String, Bool, true, List, [], ◌∷◌, ◌++◌, refl, arith, ap, inl, inr,
  Bool-cases, All, any,
}
use ms_calendar_service.Base.Members.{Memᴰ→any, All-Memᴰ}
use ms_calendar_service.Availability.Zone.{Zone, IsZone}
use ms_calendar_service.Availability.Assign.{Attendee, Segment, Used, assign_sequentially}
use ms_calendar_service.Availability.Assign.Plan.{IsPlan, used_of, Fits}
use ms_calendar_service.Availability.Assign.Booking.{
  empty_buffers, assign_sequentially_iff, StartsWhole,
}
use ms_calendar_service.Assignment.{
  Input, assigned, eligible_for, is_long, all_have_windows, execute_multi_individual,
}

module _ (z : Zone) (lawful : IsZone z) (input : Input)
    (all : (u : String) → All StartsWhole (input.free_windows_by_user u)) where
  abbrev start : ℕ
  start = z.whole_minute input.start_ws

  abbrev Plan : List Attendee → List Attendee → List Used → List Segment → Type 0
  Plan = IsPlan z start (eligible_for input) input.free_windows_by_user

  Fits-is_long :
      (s : Segment) (duration : ℕ)
      → s.start % 60000 ≡ 0
      → s.end ≡ s.start + duration * 60000
      → Fits z start (eligible_for input) input.free_windows_by_user s
      → any (is_long duration) (input.free_windows_by_user s.user_id) ≡ true
  Fits-is_long s duration p q (w, m, h, k) =
      let r : w.start % 60000 ≡ 0 =
        All-Memᴰ StartsWhole (input.free_windows_by_user s.user_id) (all s.user_id) m in
      let long : is_long duration w ≡ true = ground (
        arith,
        lawful.whole_minute_lem w.start,
        lawful.whole_minute_lem s.start,
        lawful.whole_minute_lem w.end,
        lawful.whole_minute_lem s.end,
      ) in
      Memᴰ→any (is_long duration) m long

  Plan-has_windows :
      (done todo : List Attendee) (used : List Used) (segs : List Segment)
      → Plan done todo used segs
      → all_have_windows input todo ≡ true
  unfolding all_have_windows
  Plan-has_windows done [] used segs h = refl
  Plan-has_windows done (a ∷ todo) used [] h = absurd h
  Plan-has_windows done (a ∷ todo) used (s ∷ ss) (m, e, fits, apart, plan) =
      let rest = Plan-has_windows (done ++ a ∷ []) todo (used ++ used_of s ∷ []) ss plan in
      let start_eq = lawful.whole_minute_lem input.start_ws in
      let long =
        Fits-is_long s a.duration_min (omega (arith, ap (λ (x : Segment). x.start) e, start_eq))
          (omega (arith, ap (λ (x : Segment). x.start) e, ap (λ (x : Segment). x.end) e)) fits in
      rw (Memᴰ→any (λ u. any (is_long a.duration_min) (input.free_windows_by_user u)) m long) rest

  abbrev ok : Bool
  ok =
      (assign_sequentially z start (eligible_for input) input.free_windows_by_user []
        input.attendees empty_buffers).0

  searched : (ok ≡ true) ↔ ((segs : List Segment) × Plan [] input.attendees [] segs)
  searched =
      assign_sequentially_iff z start (eligible_for input) input.free_windows_by_user
        input.attendees empty_buffers

  -- Over free windows that start on whole minutes, the strategy for several services assigns
  -- segments exactly when the attendees have a plan from the requested minute: its first test,
  -- which refuses when some service has no free window of its length, refuses no request that has a
  -- plan.
  pub execute_multi_individual_iff :
      ((segs : List Segment) × (execute_multi_individual z input ≡ assigned segs)) ↔ (
        (segs : List Segment) × IsPlan z
          (z.whole_minute input.start_ws)
          (eligible_for input)
          input.free_windows_by_user
          []
          input.attendees
          []
          segs)
  unfolding execute_multi_individual
  execute_multi_individual_iff = (
    λ (segs, h). elim (Bool-cases (all_have_windows input input.attendees)) [
      | inr e ↦ cc
      | inl e ↦ elim (Bool-cases ok) [ inl k ↦ searched.0 k | inr k ↦ cc ]
    ],
    λ (segs, plan). (
      (assign_sequentially z start (eligible_for input) input.free_windows_by_user []
          input.attendees empty_buffers).1.assignment,
      rw (Plan-has_windows [] input.attendees [] segs plan, searched.1 (segs, plan)) refl,
    ),
  )
