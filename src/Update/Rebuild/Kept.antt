-- ===== src/Update/Rebuild/Kept.antt =====
-- The rows that the rebuild of a booking writes, one for each segment, and the rows that it deletes.

use ms_calendar_service.Base.{
  ◌≡◌, String, Option, some, true, List, [], ◌∷◌, ◌++◌, refl, sym, ap, ◌∙◌, Bool-cases,
  Option-cases, inl, inr, All, length, subst,
}
use ms_calendar_service.Availability.Assign.{Segment}
use ms_calendar_service.Booking.{Service}
use ms_calendar_service.Booking.Rows.{Event}
use ms_calendar_service.Update.Persist.{has_id, place, update_rows, update_event}
use ms_calendar_service.Update.Rows.{update_event-inv}
use ms_calendar_service.Update.Rebuild.{update_kept, create_rest, drop, bury, soft_delete}

-- The events are in the group, and carry the segments in their order.
abbrev pub IsPlacedIn : String → List Event → List Segment → Type 0
IsPlacedIn group_id [] [] = Unit
IsPlacedIn group_id [] (s ∷ segs) = ⊥
IsPlacedIn group_id (e ∷ es) [] = ⊥
IsPlacedIn group_id (e ∷ es) (s ∷ segs) =
    (e.id_group ≡ group_id)
    × (e.id_service ≡ some s.service_id)
    × (e.id_user_platform ≡ some s.user_id)
    × (e.start_date ≡ s.start)
    × (e.end_date ≡ s.end)
    × IsPlacedIn group_id es segs

pub IsPlacedIn-append :
    (group_id : String) (es es' : List Event) (segs segs' : List Segment)
    → IsPlacedIn group_id es segs
    → IsPlacedIn group_id es' segs'
    → IsPlacedIn group_id (es ++ es') (segs ++ segs')
IsPlacedIn-append group_id [] es' [] segs' h k = k
IsPlacedIn-append group_id [] es' (s ∷ segs) segs' h k = absurd h
IsPlacedIn-append group_id (e ∷ es) es' [] segs' h k = absurd h
IsPlacedIn-append group_id (e ∷ es) es' (s ∷ segs) segs' (a, b, c, d, f, h) k =
    (a, b, c, d, f, IsPlacedIn-append group_id es es' segs segs' h k)

pub update_kept-IsPlacedIn :
    (services : String → Option Service) (group_id : String) (ids : List String)
    (segs : List Segment) (events es final : List Event)
    → update_kept services group_id ids segs events ≡ some (es, final)
    → (pre : List Segment) × (segs ≡ pre ++ drop (length ids) segs) × IsPlacedIn group_id es pre
unfolding update_kept drop
update_kept-IsPlacedIn services group_id [] segs events es final h =
    let nothing : [] ≡ es = cc in ([], refl, subst (λ l. IsPlacedIn group_id l []) nothing tt)
update_kept-IsPlacedIn services group_id (id ∷ ids) [] events es final h =
    let nothing : [] ≡ es = cc in ([], refl, subst (λ l. IsPlacedIn group_id l []) nothing tt)
update_kept-IsPlacedIn services group_id (id ∷ ids) (s ∷ segs) events es final h =
    let f = place group_id s (services s.service_id) in
    elim (Option-cases (update_event id f events)) [
      | inl t ↦ cc
      | inr ((e, events'), t) ↦
          elim (Option-cases (update_kept services group_id ids segs events')) [
            | inl k ↦ cc
            | inr ((rest, last), k) ↦
                let (old, _, _, shape, _) = update_event-inv id f events events' e t in
                let (pre, split, placed) =
                  update_kept-IsPlacedIn services group_id ids segs events' rest last k in
                let made : e ∷ rest ≡ es = cc in
                (
                  s ∷ pre,
                  ap (λ l. s ∷ l) split,
                  subst (λ l. IsPlacedIn group_id l (s ∷ pre))
                      (ap (λ x. x ∷ rest) (sym shape) ∙ made)
                      (refl, refl, refl, refl, refl, placed),
                )
          ]
    ]

pub create_rest-IsPlacedIn :
    (fresh : List Event → String) (services : String → Option Service)
    (id_company group_id : String) (segs : List Segment) (events : List Event)
    → IsPlacedIn group_id (create_rest fresh services id_company group_id segs events).0 segs
unfolding create_rest
create_rest-IsPlacedIn fresh services id_company group_id [] events = tt
create_rest-IsPlacedIn fresh services id_company group_id (s ∷ segs) events =
    (refl, refl, refl, refl, refl, create_rest-IsPlacedIn fresh services id_company group_id segs _)

-- The events with the identifier are deleted.
abbrev pub IsBuried : List Event → String → Type 0
IsBuried events id = All (λ e. has_id id e ≡ true → e.deleted ≡ true) events

bury-IsBuried :
    (id key : String) (events : List Event)
    → IsBuried events id
    → IsBuried (update_rows (has_id key) bury events) id
unfolding update_rows
bury-IsBuried id key [] h = tt
bury-IsBuried id key (e ∷ events) (p, h) = elim (Bool-cases (has_id key e)) [
  | inl t ↦ rw t ((λ _. refl), bury-IsBuried id key events h)
  | inr t ↦ rw t (p, bury-IsBuried id key events h)
]

bury_self-IsBuried :
    (id : String) (events : List Event) → IsBuried (update_rows (has_id id) bury events) id
unfolding update_rows
bury_self-IsBuried id [] = tt
bury_self-IsBuried id (e ∷ events) = elim (Bool-cases (has_id id e)) [
  | inl t ↦ rw t ((λ _. refl), bury_self-IsBuried id events)
  | inr t ↦ rw t ((λ k. cc), bury_self-IsBuried id events)
]

soft_delete_keeps :
    (id : String) (ids : List String) (events final : List Event)
    → soft_delete ids events ≡ some final
    → IsBuried events id
    → IsBuried final id
unfolding soft_delete
soft_delete_keeps id [] events final h b =
    let same : events ≡ final = cc in subst (λ l. IsBuried l id) same b
soft_delete_keeps id (key ∷ ids) events final h b =
    elim (Option-cases (update_event key bury events)) [
      | inl t ↦ cc
      | inr ((e, events'), t) ↦
          let (_, _, _, _, rows) = update_event-inv key bury events events' e t in
          soft_delete_keeps id ids events' final (rw (t, soft_delete) at h)
            (subst (λ l. IsBuried l id) (sym rows) (bury-IsBuried id key events b))
    ]

pub soft_delete-IsBuried :
    (ids : List String) (events final : List Event)
    → soft_delete ids events ≡ some final
    → All (IsBuried final) ids
unfolding soft_delete
soft_delete-IsBuried [] events final h = tt
soft_delete-IsBuried (id ∷ ids) events final h = elim (Option-cases (update_event id bury events)) [
  | inl t ↦ cc
  | inr ((e, events'), t) ↦
      let (_, _, _, _, rows) = update_event-inv id bury events events' e t in
      let rest = rw (t, soft_delete) at h in
      (
        soft_delete_keeps id ids events' final rest
            (subst (λ l. IsBuried l id) (sym rows) (bury_self-IsBuried id events)),
        soft_delete-IsBuried ids events' final rest,
      )
]
