-- ===== src/Assignment/Single.antt =====
-- What the strategies for one service assign.

use mathlib.Core.List.{Memᴰ}
use ms_calendar_service.Base.{ℕ, ◌≡◌, String, Option, none, some, true, List, [], ◌∷◌, refl}
use ms_calendar_service.Base.Members.{keep-All, All-Memᴰ}
use ms_calendar_service.Availability.Zone.{Zone, add_minutes}
use ms_calendar_service.Availability.Assign.{Attendee, Segment}
use ms_calendar_service.Assignment.{
  Input, assigned, eligible_for, has_window, segment_of, eligible_available, settle_single,
  execute_single_individual,
}

module _ {W : Type 0} (z : Zone)
    (choose : String → ℕ → ℕ → List String → W → Option String × W) where
  -- The professional chosen is one of those that the caller names as eligible.
  abbrev pub IsChosenAmong : Type 0
  IsChosenAmong =
      (s : String) (a b : ℕ) (us : List String) (w : W) (u : String)
      → (choose s a b us w).0 ≡ some u
      → Memᴰ u us

  -- One segment, for the only attendee, by an eligible professional who has a free window around it.
  abbrev pub IsSettled : Input → List Attendee → List Segment → Type 0
  IsSettled input attendees segments =
      (a : Attendee) × (u : String) × (attendees ≡ a ∷ [])
      × (segments ≡ segment_of z choose input a u ∷ [])
      × Memᴰ u (eligible_for input a.service_id)
      × (has_window input input.start_ws (add_minutes input.start_ws a.duration_min) u ≡ true)

  settle_single-inv :
      (input : Input) (a : Attendee) (staff : Option String) (segments : List Segment)
      → settle_single z choose input a staff ≡ assigned segments
      → (u : String) × (staff ≡ some u) × (segments ≡ segment_of z choose input a u ∷ [])
  unfolding settle_single
  settle_single-inv input a none segments h = cc
  settle_single-inv input a (some String.[]) segments h = cc
  settle_single-inv input a (some (String.◌∷◌ ch s)) segments h = (String.◌∷◌ ch s, refl, cc)

  -- If the round robin returns only professionals it was given, then a strategy for one service that
  -- assigns was asked for exactly one attendee, and assigns it one segment by a professional of its
  -- service who has a free window from the start to the end of the booking.
  pub execute_single_individual-IsSettled :
      (among : IsChosenAmong) (input : Input) (attendees : List Attendee) (w : W)
      (segments : List Segment)
      → (execute_single_individual z choose input attendees w).0 ≡ assigned segments
      → IsSettled input attendees segments
  unfolding execute_single_individual
  execute_single_individual-IsSettled among input [] w segments h = cc
  execute_single_individual-IsSettled among input (a ∷ b ∷ rest) w segments h = cc
  execute_single_individual-IsSettled among input (a ∷ []) w segments h =
      let (u, chosen, shape) = settle_single-inv input a _ segments h in
      let fits = has_window input input.start_ws (add_minutes input.start_ws a.duration_min) in
      let m = among a.service_id _ _ (eligible_available z choose input a) w u chosen in
      let (e, k) =
        All-Memᴰ (λ x. Memᴰ x (eligible_for input a.service_id) × (fits x ≡ true)) _
          (keep-All fits (eligible_for input a.service_id)) m in
      (a, u, refl, shape, e, k)
