-- ===== src/Availability/Assign/Plan.antt =====
-- The search of `assignSequentially_SPECIAL` against the plans that it looks for.
use mathlib.Core.List.{Memᴰ, append_assoc, append-nil}
use ms_calendar_service.Base.{
  ℕ, ◌≡◌, ◌≤◌, ◌⊎◌, String, List, [], ◌∷◌, ◌++◌, Bool, true, false, refl, arith, All, any, ap, sym,
  eq_iff, subst, ◌∙◌,
}
use ms_calendar_service.Base.Members.{any→Memᴰ, Memᴰ→any, any_false→All, All→any_false, All-map}
use ms_calendar_service.Availability.Zone.{Zone}
use ms_calendar_service.Availability.Windows.{Window}
use ms_calendar_service.Availability.Assign.{
  Attendee, Segment, Used, Buffers, push, clashes, window_contains, segment_contained,
  segment_after, assign_sequentially,
}
use ms_calendar_service.Availability.Assign.Candidates.{try-restores, try_sound, try_complete}

-- The same professional is not at two places: one segment ends before the other begins.
abbrev pub Apart : Segment → Used → Type 0
Apart s u = u.user_id ≡ s.user_id → (u.end ≤ s.start) ⊎ (s.end ≤ u.start)

Apart→clashes : (s : Segment) (u : Used) → Apart s u → clashes s u ≡ false
unfolding clashes
Apart→clashes s u h = ground (arith, eq_iff u.user_id s.user_id)

clashes→Apart : (s : Segment) (u : Used) → clashes s u ≡ false → Apart s u
unfolding clashes
clashes→Apart s u h e = ground (arith, eq_iff u.user_id s.user_id)

abbrev pub used_of : Segment → Used
used_of s = record { user_id = s.user_id; start = s.start; end = s.end }

module _ (z : Zone) (start : ℕ) (eligible : String → List String)
    (free : String → List Window) where
  -- Some free window of the user holds the segment, to the minute.
  abbrev pub Fits : Segment → Type 0
  Fits s =
      (w : Window) × Memᴰ w (free s.user_id)
      × (z.whole_minute w.start ≤ z.whole_minute s.start)
      × (z.whole_minute s.end ≤ z.whole_minute w.end)

  -- A plan for `todo` after `done`: one segment for each service, back to back, each with an
  -- eligible professional who is free for it and not in use.
  abbrev pub IsPlan : List Attendee → List Attendee → List Used → List Segment → Type 0
  IsPlan done [] used [] = Unit
  IsPlan done [] used (s ∷ ss) = ⊥
  IsPlan done (a ∷ todo) used [] = ⊥
  IsPlan done (a ∷ todo) used (s ∷ ss) =
      Memᴰ s.user_id (eligible a.service_id)
      × (s ≡ segment_after z start eligible free done a s.user_id)
      × Fits s
      × All (Apart s) used
      × IsPlan (done ++ a ∷ []) todo (used ++ used_of s ∷ []) ss

  contained→Fits :
      (s : Segment) → any (λ w. segment_contained z w s) (free s.user_id) ≡ true → Fits s
  unfolding window_contains
  contained→Fits s h =
      let (w, m, k) = any→Memᴰ (λ w. segment_contained z w s) (free s.user_id) h in
      (w, m, ground arith, ground arith)

  Fits→contained :
      (s : Segment) → Fits s → any (λ w. segment_contained z w s) (free s.user_id) ≡ true
  unfolding window_contains
  Fits→contained s (w, m, p, q) = Memᴰ→any (λ w. segment_contained z w s) m (ground arith)

  abbrev search : List Attendee → List Attendee → Buffers → Bool × Buffers
  search = assign_sequentially z start eligible free

  pub assign-restores :
      (done todo : List Attendee) (b : Buffers)
      → (search done todo b).0 ≡ false
      → (search done todo b).1 ≡ b
  unfolding assign_sequentially
  assign-restores done [] b h = refl
  assign-restores done (a ∷ todo) b h =
      try-restores free (segment_contained z) (segment_after z start eligible free done a)
        (search (done ++ a ∷ []) todo) (assign-restores (done ++ a ∷ []) todo)
        (eligible a.service_id) b h

  -- A successful search appends a plan to the buffer of the assignment.
  pub assign_sound :
      (done todo : List Attendee) (b : Buffers)
      → (search done todo b).0 ≡ true
      → (segs : List Segment) × IsPlan done todo b.used segs
        × ((search done todo b).1.assignment ≡ b.assignment ++ segs)
  unfolding assign_sequentially
  assign_sound done [] b h = ([], tt, sym (append-nil _))
  assign_sound done (a ∷ todo) b h =
      let after = segment_after z start eligible free done a in
      let (uid, m, (fits, clear, ok), e) =
        try_sound free (segment_contained z) after (search (done ++ a ∷ []) todo)
          (assign-restores (done ++ a ∷ []) todo) (eligible a.service_id) b h in
      let (segs, plan, grown) = assign_sound (done ++ a ∷ []) todo (push (after uid) b) ok in
      (
        after uid ∷ segs,
        (
          m,
          refl,
          contained→Fits (after uid) fits,
          All-map (λ u. clashes (after uid) u ≡ false) (Apart (after uid)) b.used
              (clashes→Apart (after uid)) (any_false→All (clashes (after uid)) b.used clear),
          plan,
        ),
        ap (λ r. r.1.assignment) e ∙ grown ∙ append_assoc b.assignment (after uid ∷ []) segs,
      )

  -- If there is a plan, the search succeeds: backtracking misses none.
  pub assign_complete :
      (done todo : List Attendee) (b : Buffers) (segs : List Segment)
      → IsPlan done todo b.used segs
      → (search done todo b).0 ≡ true
  unfolding assign_sequentially
  assign_complete done [] b segs h = refl
  assign_complete done (a ∷ todo) b (s ∷ segs) (m, e, fits, apart, plan) =
      try_complete free (segment_contained z) (segment_after z start eligible free done a)
        (search (done ++ a ∷ []) todo) (assign-restores (done ++ a ∷ []) todo) s.user_id
        (eligible a.service_id) b m
        (subst
          (λ t.
            (any (λ w. segment_contained z w t) (free s.user_id) ≡ true)
            × (any (clashes t) b.used ≡ false)
            × ((search (done ++ a ∷ []) todo (push t b)).0 ≡ true))
          e
          (
            Fits→contained s fits,
            All→any_false (clashes s) b.used
                (All-map (Apart s) (λ u. clashes s u ≡ false) b.used (Apart→clashes s) apart),
            assign_complete (done ++ a ∷ []) todo (push s b) segs plan,
          ))
  assign_complete done (a ∷ todo) b [] h = absurd h
