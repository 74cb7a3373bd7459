-- ===== src/Availability/Assign/Booking.antt =====
-- What a successful search books, over the free windows that the availability context computes.
use ms_calendar_service.Base.{
  ℕ, ◌≡◌, ◌≤◌, ◌<◌, ◌%◌, ◌↔◌, String, List, [], ◌∷◌, ◌++◌, Bool, true, false, arith, All, ap,
}
use ms_calendar_service.Base.Members.{Memᴰ→any, All-Memᴰ}
use ms_calendar_service.Availability.Zone.{Zone, IsZone}
use ms_calendar_service.Availability.Windows.{Window, holds, covers}
use ms_calendar_service.Availability.Shifts.{free_windows}
use ms_calendar_service.Availability.Shifts.Laws.{not_past, free_windows-covers}
use ms_calendar_service.Availability.Assign.{Attendee, Segment, Used, Buffers, assign_sequentially}
use ms_calendar_service.Availability.Assign.Plan.{
  IsPlan, Fits, used_of, assign_sound, assign_complete, assign-restores,
}

abbrev pub empty_buffers : Buffers
empty_buffers = record { used = []; assignment = [] }

-- The search succeeds exactly when the requested services have a plan: back-to-back segments from
-- the start, each with an eligible professional who is free for it and not in use elsewhere.
pub assign_sequentially_iff :
    (z : Zone) (start : ℕ) (eligible : String → List String) (free : String → List Window)
    (attendees : List Attendee) (b : Buffers)
    → ((assign_sequentially z start eligible free [] attendees b).0 ≡ true)
      ↔ ((segs : List Segment) × IsPlan z start eligible free [] attendees b.used segs)
assign_sequentially_iff z start eligible free attendees b = (
  λ h. let (segs, plan, _) = assign_sound z start eligible free [] attendees b h in (segs, plan),
  λ p. assign_complete z start eligible free [] attendees b p.0 p.1,
)

-- A search that fails leaves both buffers as it found them.
pub assign_sequentially-restores :
    (z : Zone) (start : ℕ) (eligible : String → List String) (free : String → List Window)
    (attendees : List Attendee) (b : Buffers)
    → (assign_sequentially z start eligible free [] attendees b).0 ≡ false
    → (assign_sequentially z start eligible free [] attendees b).1 ≡ b
assign_sequentially-restores z start eligible free attendees b =
    assign-restores z start eligible free [] attendees b

abbrev pub StartsWhole : Window → Type 0
StartsWhole w = w.start % 60000 ≡ 0

-- What is wanted of a segment: at each of its instants its professional is inside a shift, outside
-- every busy range and, on the present day, not before the rounded present.
abbrev pub IsBookable :
    Bool → ℕ → (String → List Window) → (String → List Window) → Segment → Type 0
IsBookable is_today now busy shifts s =
    (t : ℕ)
    → s.start ≤ t
    → t < s.end
    → (not_past is_today now t ≡ true)
      × (covers (shifts s.user_id) t ≡ true)
      × (covers (busy s.user_id) t ≡ false)

module _ (z : Zone) (lawful : IsZone z) (start : ℕ) (whole : start % 60000 ≡ 0)
    (eligible : String → List String) (is_today : Bool) (now : ℕ)
    (busy shifts : String → List Window) where
  abbrev free_of : String → List Window
  free_of u = free_windows is_today now (busy u) (shifts u)

  covered-IsBookable :
      (u : String) (t : ℕ)
      → covers (free_of u) t ≡ true
      → (not_past is_today now t ≡ true)
        × (covers (shifts u) t ≡ true)
        × (covers (busy u) t ≡ false)
  covered-IsBookable u t h = ground (arith, free_windows-covers is_today now (busy u) (shifts u) t)

  Fits-covers :
      (s : Segment) (t : ℕ)
      → s.start % 60000 ≡ 0
      → s.end % 60000 ≡ 0
      → All StartsWhole (free_of s.user_id)
      → Fits z start eligible free_of s
      → s.start ≤ t
      → t < s.end
      → covers (free_of s.user_id) t ≡ true
  Fits-covers s t p q all (w, m, h, k) h1 h2 =
      let r : w.start % 60000 ≡ 0 = All-Memᴰ StartsWhole (free_of s.user_id) all m in
      let inside : holds t w ≡ true = ground (
        arith,
        lawful.whole_minute_lem w.start,
        lawful.whole_minute_lem s.start,
        lawful.whole_minute_lem w.end,
        lawful.whole_minute_lem s.end,
      ) in
      Memᴰ→any (holds t) m inside

  plan-IsBookable :
      ((u : String) → All StartsWhole (free_of u))
      → (done todo : List Attendee) (used : List Used) (segs : List Segment)
      → IsPlan z start eligible free_of done todo used segs
      → All (IsBookable is_today now busy shifts) segs
  plan-IsBookable all done [] used [] h = tt
  plan-IsBookable all done [] used (s ∷ ss) h = absurd h
  plan-IsBookable all done (a ∷ todo) used [] h = absurd h
  plan-IsBookable all done (a ∷ todo) used (s ∷ ss) (m, e, fits, apart, plan) = (
    λ t p q. covered-IsBookable s.user_id t (
        Fits-covers s t (omega (arith, ap (λ (x : Segment). x.start) e))
          (omega (arith, ap (λ (x : Segment). x.end) e)) (all s.user_id) fits p q),
    plan-IsBookable all (done ++ a ∷ []) todo (used ++ used_of s ∷ []) ss plan,
  )

  -- No double booking: over the free windows of the availability context, whose starts are on whole
  -- minutes, and from a start on a whole minute, every instant of every segment that a successful
  -- search assigns is inside a shift of the segment's professional, outside the busy ranges of that
  -- professional and, on the present day, not before the rounded present.
  pub assign_sequentially-IsBookable :
      (attendees : List Attendee)
      → ((u : String) → All StartsWhole (free_of u))
      → (assign_sequentially z start eligible free_of [] attendees empty_buffers).0 ≡ true
      → All
          (IsBookable is_today now busy shifts)
          (assign_sequentially z start eligible free_of [] attendees empty_buffers).1.assignment
  assign_sequentially-IsBookable attendees all h =
      let (segs, plan, e) = assign_sound z start eligible free_of [] attendees empty_buffers h in
      rw e (plan-IsBookable all [] attendees [] segs plan)
