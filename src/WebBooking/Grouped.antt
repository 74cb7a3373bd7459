-- ===== src/WebBooking/Grouped.antt =====
-- What the transaction that creates an assignment leaves in the database.
use ms_calendar_service.Base.{
  suc, ◌+◌, ◌≡◌, ◌⊎◌, String, Option, true, List, [], ◌∷◌, ◌++◌, map, refl, arith, All, ap,
  Bool-cases, Option-cases, inl, inr, length, length-append,
}
use ms_calendar_service.Availability.Assign.{Segment}
use ms_calendar_service.Booking.{
  Service, Request, Result, Failure, Action, create_or_join_group_event,
}
use ms_calendar_service.Booking.Rows.{Event, Db}
use ms_calendar_service.WebBooking.Create.{
  Booked, booked, rolled_back, Error, create_segment, create_segments, is_id_of, in_group,
  update_group, sync_group_id, create_assignments_and_sync_group_id,
}

-- The items all have the group, and so have the stored events with their identifiers.
abbrev pub IsGrouped : String → List Event → Db → Type 0
IsGrouped target items db =
    All (λ (e : Event). e.id_group ≡ target) items
    × All (λ (e : Event). is_id_of items e ≡ true → e.id_group ≡ target) db.events

in_group-All :
    (target : String) (es : List Event)
    → All (λ (e : Event). e.id_group ≡ target) (map (in_group target) es)
in_group-All target [] = tt
in_group-All target (e ∷ es) = (refl, in_group-All target es)

is_id_of-map :
    (target : String) (items : List Event) (e : Event)
    → is_id_of (map (in_group target) items) e ≡ is_id_of items e
is_id_of-map target [] e = refl
is_id_of-map target (c ∷ items) e = rw (is_id_of-map target items e) refl

is_id_of-in_group :
    (target : String) (items : List Event) (e : Event)
    → is_id_of items (in_group target e) ≡ is_id_of items e
is_id_of-in_group target [] e = refl
is_id_of-in_group target (c ∷ items) e = rw (is_id_of-in_group target items e) refl

update_group-All :
    (target : String) (items es : List Event)
    → All
        (λ (e : Event). is_id_of (map (in_group target) items) e ≡ true → e.id_group ≡ target)
        (update_group target items es)
unfolding update_group
update_group-All target items [] = tt
update_group-All target items (e ∷ es) =
    let rest = update_group-All target items es in
    elim (Bool-cases (is_id_of items e)) [
      | inl t ↦ rw t (λ _. refl, rest)
      | inr t ↦ rw t (λ k. let no = is_id_of-map target items e in cc, rest)
    ]

length-map-in_group :
    (target : String) (es : List Event) → length (map (in_group target) es) ≡ length es
length-map-in_group target [] = refl
length-map-in_group target (e ∷ es) = ap suc (length-map-in_group target es)

All-every : {A : Type 0} (P : A → Type 0) → ((x : A) → P x) → (xs : List A) → All P xs
All-every P f [] = tt
All-every P f (x ∷ xs) = (f x, All-every P f xs)

Booked-cases :
    (b : Booked)
    → ((why : Error) × (b ≡ rolled_back why))
      ⊎ ((items : List Event) × (db : Db) × (b ≡ booked items db))
Booked-cases (rolled_back why) = inl (why, refl)
Booked-cases (booked items db) = inr (items, db, refl)

Result-cases :
    (r : Result)
    → ((why : Failure) × (r ≡ Result.failed why))
      ⊎ ((e : Event) × (action : Action) × (db : Db) × (r ≡ Result.done e action db))
Result-cases (Result.failed why) = inl (why, refl)
Result-cases (Result.done e action db) = inr (e, action, db, refl)

sync-IsGrouped :
    (items all : List Event) (db db' : Db)
    → sync_group_id items db ≡ booked all db'
    → (length all ≡ length items) × ((target : String) × IsGrouped target all db')
unfolding sync_group_id
sync-IsGrouped [] all db db' h =
    let none_made : all ≡ [] = cc in
    rw none_made (refl, ("", (tt, All-every _ (λ e k. cc) db'.events)))
sync-IsGrouped (e ∷ es) all db db' h =
    let target = e.id_group in
    let items_eq : all ≡ map (in_group target) (e ∷ es) = cc in
    let events_eq : db' ≡ record db { events = update_group target (e ∷ es) db.events } = cc in
    rw (items_eq, events_eq)
      (
        length-map-in_group target (e ∷ es),
        (target, (in_group-All target (e ∷ es), update_group-All target (e ∷ es) db.events)),
      )

create_segment-length :
    (services : String → Option Service) (request : Segment → Service → Db → Request)
    (seg : Segment) (db db' : Db) (items : List Event)
    → create_segment services request seg db ≡ booked items db'
    → length items ≡ 1
unfolding create_segment
create_segment-length services request seg db db' items h =
    elim (Option-cases (services seg.service_id)) [
      | inl t ↦ cc
      | inr (svc, t) ↦ elim (Result-cases (create_or_join_group_event (request seg svc db) db)) [
        | inl (why, k) ↦ cc
        | inr (e, action, db', k) ↦ let one : items ≡ e ∷ [] = cc in rw one refl
      ]
    ]

create_segments-length :
    (services : String → Option Service) (request : Segment → Service → Db → Request)
    (segs : List Segment) (before items : List Event) (db db' : Db)
    → create_segments services request segs before db ≡ booked items db'
    → length items ≡ length before + length segs
unfolding create_segments
create_segments-length services request [] before items db db' h =
    let same : items ≡ before = cc in rw same (omega arith)
create_segments-length services request (seg ∷ segs) before items db db' h =
    elim (Booked-cases (create_segment services request seg db)) [
      | inl (why, t) ↦ cc
      | inr (es, next, t) ↦
          let one = create_segment-length services request seg db next es t in
          let rest =
            create_segments-length services request segs (before ++ es) items next db'
              (rw (t, create_segments) at h) in
          omega (arith, one, rest, length-append before es)
    ]

-- If the transaction that creates an assignment succeeds, then there is one event for each segment,
-- all of them have one and the same group, and so has every stored event with the identifier of one
-- of them.
pub create_assignments-IsGrouped :
    (services : String → Option Service) (request : Segment → Service → Db → Request)
    (segs : List Segment) (db db' : Db) (items : List Event)
    → create_assignments_and_sync_group_id services request segs db ≡ booked items db'
    → (length items ≡ length segs) × ((target : String) × IsGrouped target items db')
unfolding create_assignments_and_sync_group_id
create_assignments-IsGrouped services request segs db db' items h =
    elim (Booked-cases (create_segments services request segs [] db)) [
      | inl (why, t) ↦ cc
      | inr (made, next, t) ↦
          let count = create_segments-length services request segs [] made db next t in
          let (same, grouped) =
            sync-IsGrouped made items next db'
              (rw (t, create_assignments_and_sync_group_id) at h) in
          (omega (arith, count, same), grouped)
    ]
