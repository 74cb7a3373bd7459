-- ===== src/WebBooking/Joined.antt =====
-- What becomes of the assignment that `_tryJoinExistingGroupAssignment` makes.
use mathlib.Core.List.{Memᴰ}
use ms_calendar_service.Base.{
  ℕ, ◌≡◌, ◌%◌, ◌⊎◌, ◌∙◌, inl, inr, String, Option, none, some, Bool, true, List, [], ◌∷◌, refl,
  arith, All, Bool-cases, Option-cases, find, any, eq_refl, leb, ◌||◌, subst, ◌<◌,
}
use text.Mathlib.Text.{◌==◌ as str_eq}
use ms_calendar_service.Base.Members.{Memᴰ→any, keep-All}
use ms_calendar_service.Base.Sort.{sort_by, All-sort_by}
use ms_calendar_service.Availability.Zone.{Zone, IsZone, add_minutes}
use ms_calendar_service.Availability.Assign.{Attendee, Segment}
use ms_calendar_service.Booking.{
  Service, Request, failed, professional_busy, is_exact, is_overlapping, join_existing,
  create_or_join_group_event,
}
use ms_calendar_service.Booking.Rows.{Event, Db, seats_taken}
use ms_calendar_service.WebBooking.Join.{
  Party, is_candidate, is_same_minutes, minutes_apart, head_of, find_overlapping_group_candidates,
  pick_candidate, capacity_of, is_in, segment_for, settle_pick, try_join_existing_group_assignment,
}

module _ (P : Event → Type 0) where
  find-All : (p : Event → Bool) (es : List Event) (e : Event) → All P es → find p es ≡ some e → P e
  find-All p [] e h k = cc
  find-All p (x ∷ es) e (q, h) k = elim (Bool-cases (p x)) [
    | inl t ↦ let s : x ≡ e = cc in subst P s q
    | inr t ↦ find-All p es e h (rw t at k)
  ]

  head-All : (es : List Event) (e : Event) → All P es → head_of es ≡ some e → P e
  head-All [] e h k = cc
  head-All (x ∷ es) e (q, h) k = let s : x ≡ e = cc in subst P s q

  pick-All :
      (z : Zone) (start end : ℕ) (es : List Event) (e : Event)
      → All P es
      → pick_candidate z start end es ≡ some e
      → P e
  unfolding pick_candidate
  pick-All z start end es e h k = elim (Option-cases (find (is_same_minutes z start end) es)) [
    | inl t ↦
        head-All (sort_by (minutes_apart start) es) e (All-sort_by (minutes_apart start) P es h)
          (rw (t, pick_candidate) at k)
    | inr (x, t) ↦ find-All (is_same_minutes z start end) es e h (t ∙ rw (t, pick_candidate) at k)
  ]

settle_pick-inv :
    (z : Zone) (p : Party) (svc : Option Service) (a : Attendee) (start : ℕ) (db : Db)
    (picked : Option Event) (s : Segment) (ss : List Segment)
    → settle_pick z p svc a start db picked ≡ s ∷ ss
    → (e : Event) × (u : String) × (picked ≡ some e)
      × (e.id_user_platform ≡ some u)
      × (s ≡ segment_for z a start u)
      × (seats_taken e.id_group db.participants < capacity_of svc)
unfolding settle_pick
settle_pick-inv z p svc a start db none s ss h = cc
settle_pick-inv z p svc a start db (some e) s ss h = elim (Option-cases e.id_user_platform) [
  | inl t ↦ cc
  | inr (u, t) ↦
      elim (Bool-cases (
        str_eq u ""
        || leb (capacity_of svc) (seats_taken e.id_group db.participants)
        || any (is_in p e.id_group) db.participants)) [
          | inl k ↦ cc
          | inr k ↦ (e, u, refl, t, cc, ground arith)
        ]
]

module _ (z : Zone) (lawful : IsZone z) (p : Party) (svc : Option Service) (eligible : List String)
    (a : Attendee) (start : ℕ) (whole : start % 60000 ≡ 0) (db : Db) (r : Request)
    (workspace : r.id_workspace ≡ p.id_workspace) where
  overlaps :
      (e : Event) (u : String)
      → e.id_user_platform ≡ some u
      → r.seg ≡ segment_for z a start u
      → is_candidate p a.service_id eligible start (add_minutes start a.duration_min) db e ≡ true
      → is_overlapping r db e ≡ true
  unfolding is_candidate is_overlapping
  overlaps e u t q h = ground (
    arith,
    eq_refl u,
    lawful.whole_minute_lem start,
    lawful.whole_minute_lem (add_minutes start a.duration_min),
  )

  -- For a booking that starts on a whole minute, the segment that joins an existing group never
  -- makes a new event: creating it either fails because the professional is busy, with the picked
  -- event, or goes to the branch on an event with the same service, professional and times.
  pub try_join_never_creates :
      (ss : List Segment)
      → try_join_existing_group_assignment z p svc eligible a start db ≡ r.seg ∷ ss
      → (create_or_join_group_event r db ≡ failed professional_busy)
        ⊎ ((e : Event) × (find (is_exact r db) db.events ≡ some e)
            × (create_or_join_group_event r db ≡ join_existing r db e))
  unfolding try_join_existing_group_assignment find_overlapping_group_candidates
      create_or_join_group_event
  try_join_never_creates ss h =
      let end = add_minutes start a.duration_min in
      let among = is_candidate p a.service_id eligible start end db in
      let found = find_overlapping_group_candidates p a.service_id eligible start end db in
      let (e, u, picked, t, shape, _) = settle_pick-inv z p svc a start db _ r.seg ss h in
      let (m, k) =
        pick-All (λ x. Memᴰ x db.events × (among x ≡ true)) z start end found e
          (All-sort_by (λ (x : Event). x.start_date) (λ x. Memᴰ x db.events × (among x ≡ true)) _
            (keep-All among db.events))
          picked in
      let busy = Memᴰ→any (is_overlapping r db) m (overlaps e u t shape k) in
      elim (Option-cases (find (is_exact r db) db.events)) [
        | inl none_found ↦ inl (rw (none_found, create_or_join_group_event) (rw busy refl))
        | inr (x, some_found) ↦
            inr (x, some_found, rw (some_found, create_or_join_group_event) refl)
      ]
