-- ===== src/Update/Flows/Chain.antt =====
-- The segments that the rebuild of a booking chooses.
use mathlib.Core.List.{Memᴰ}
use text.Mathlib.Text.{◌==◌ as str_eq}
use ms_calendar_service.Base.{
  ℕ, ◌≡◌, String, Option, none, some, true, List, [], ◌∷◌, refl, sym, Bool-cases, Option-cases, inl,
  inr, subst, keep, ◌&&◌,
}
use ms_calendar_service.Base.Members.{keep-All, All-Memᴰ}
use ms_calendar_service.Availability.Zone.{Zone, add_minutes}
use ms_calendar_service.Availability.Assign.{Attendee, Segment}
use ms_calendar_service.Assignment.Single.{IsChosenAmong}
use ms_calendar_service.Booking.{Service}
use ms_calendar_service.WebBooking.Policies.{has_any, has_window_of}
use ms_calendar_service.WebBooking.Context.{AvailabilityContext}
use ms_calendar_service.Update.Flows.{
  Choose, Chosen, chosen, not_chosen, no_snapshot, chosen_with, chosen_segment, eligible_in,
  has_fit, assignable, choose_segments,
}

module _ {W : Type 0} (z : Zone) (choose : Choose W) (ctx : AvailabilityContext)
    (services : String → Option Service) where
  -- One segment for each attendee, back to back on whole minutes from `cursor`, each with an
  -- eligible professional who has a free window around it.
  abbrev pub IsChained : ℕ → List Attendee → List Segment → Type 0
  IsChained cursor [] [] = Unit
  IsChained cursor [] (s ∷ segs) = ⊥
  IsChained cursor (a ∷ rest) [] = ⊥
  IsChained cursor (a ∷ rest) (s ∷ segs) =
      (s.service_id ≡ a.service_id)
      × (s.start ≡ z.whole_minute cursor)
      × (s.end ≡ z.whole_minute (add_minutes cursor a.duration_min))
      × Memᴰ s.user_id (eligible_in ctx a.service_id)
      × (has_fit ctx s.start s.end s.user_id ≡ true)
      × IsChained s.end rest segs

  assignable-inv : (o : Option String) (u : String) → assignable o ≡ some u → o ≡ some u
  assignable-inv none u h = cc
  assignable-inv (some v) u h = elim (Bool-cases (str_eq v "")) [ inl t ↦ cc | inr t ↦ cc ]

  chosen_with-inv :
      (s : Segment) (later : Chosen) (segs : List Segment)
      → chosen_with s later ≡ chosen segs
      → (rest : List Segment) × (later ≡ chosen rest) × (segs ≡ s ∷ rest)
  chosen_with-inv s (chosen rest) segs h = (rest, refl, cc)
  chosen_with-inv s (not_chosen why) segs h = cc
  chosen_with-inv s no_snapshot segs h = cc

  -- If the round robin returns only professionals that it was given, then the segments that a
  -- rebuild chooses are one for each attendee in their order, back to back on whole minutes from
  -- the start, each with a professional of its service who has a free window around it.
  pub choose_segments-IsChained :
      (among : IsChosenAmong z choose) (attendees : List Attendee) (cursor : ℕ) (w : W)
      (segs : List Segment)
      → (choose_segments z choose ctx services attendees cursor w).0 ≡ chosen segs
      → IsChained cursor attendees segs
  unfolding choose_segments
  choose_segments-IsChained among [] cursor w [] h = tt
  choose_segments-IsChained among [] cursor w (s ∷ segs) h = cc
  choose_segments-IsChained among (a ∷ rest) cursor w segs h =
      let start = z.whole_minute cursor in
      let end = z.whole_minute (add_minutes cursor a.duration_min) in
      let eligible = eligible_in ctx a.service_id in
      let available = keep (has_fit ctx start end) eligible in
      let (staff, w') = choose a.service_id start end available w in
      elim (Option-cases (services a.service_id)) [
        | inl t ↦ cc
        | inr (svc, t) ↦
            elim (Bool-cases (
              has_window_of eligible ctx.free_windows_by_user a.duration_min
              && has_any available)) [
                | inr k ↦ cc
                | inl k ↦ elim (Option-cases (assignable staff)) [
                  | inl m ↦ cc
                  | inr (u, m) ↦
                      let s = chosen_segment a.service_id start end u in
                      let later = choose_segments z choose ctx services rest end w' in
                      let whole : chosen_with s later.0 ≡ chosen segs = rw (t, k, m) at h in
                      let (tail, ends, shape) = chosen_with-inv s later.0 segs whole in
                      let member =
                        among a.service_id start end available w u (assignable-inv staff u m) in
                      let (can, fits) =
                        All-Memᴰ (λ x. Memᴰ x eligible × (has_fit ctx start end x ≡ true)) available
                          (keep-All (has_fit ctx start end) eligible) member in
                      subst (IsChained cursor (a ∷ rest)) (sym shape) (
                        refl,
                        refl,
                        refl,
                        can,
                        fits,
                        choose_segments-IsChained among rest end w' tail ends,
                      )
                ]
              ]
      ]
