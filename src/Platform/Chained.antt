-- ===== src/Platform/Chained.antt =====
-- The chain of events that the creation and the edit of a booking answer, and its seats.
use mathlib.Core.Bool.{true≢false}
use ms_calendar_service.Base.{
  ℕ, ◌≡◌, inl, inr, String, some, true, false, List, [], ◌∷◌, map, keep, refl, arith, Bool-cases,
  Option-cases, ap, sym, ◌∙◌, subst, keep-append, eq_refl,
}
use ms_calendar_service.Availability.Zone.{add_minutes}
use ms_calendar_service.Booking.{sync_group_start_end_dates}
use ms_calendar_service.Booking.Rows.{Event, Group, Participant, Db, is_seated, span_of, is_live_in}
use ms_calendar_service.Update.Persist.{update_rows}
use ms_calendar_service.Update.Rows.{update_event-inv}
use ms_calendar_service.Platform.Upsert.{
  has_row, place_service, stored_service, upsert_services, seat_of, blank_event,
  upsert_participants, anchor_start_date,
}
use ms_calendar_service.Platform.Payload.{
  SidebarService, SidebarClient, SidebarPayload, Makers, bury_seat,
}

-- The events are one for each service, in their order and back to back from the start, in the group. A
-- service that names a row has that row.
abbrev pub IsChainOf : String → ℕ → List SidebarService → List Event → Type 0
IsChainOf id_group start [] [] = Unit
IsChainOf id_group start [] (e ∷ es) = ⊥
IsChainOf id_group start (s ∷ services) [] = ⊥
IsChainOf id_group start (s ∷ services) (e ∷ es) =
    (e.id_group ≡ id_group)
    × (e.start_date ≡ start)
    × (e.end_date ≡ add_minutes start s.duration)
    × (e.id_service ≡ some s.id_service)
    × (has_row s ≡ true → e.id ≡ s.id_event)
    × IsChainOf id_group (add_minutes start s.duration) services es

module _ (makers : Makers) (p : SidebarPayload) (id_group : String) where
  pub stored_service-inv :
      (s : SidebarService) (start : ℕ) (events events' : List Event) (e : Event)
      → stored_service makers p s id_group start events ≡ some (e, events')
      → (row : Event) × (e ≡ place_service p s id_group start (add_minutes start s.duration) row)
        × (has_row s ≡ true → row.id ≡ s.id_event)
  stored_service-inv s start events events' e h = elim (Bool-cases (has_row s)) [
    | inl t ↦
        let (row, _, key, made, _) =
          update_event-inv s.id_event
            (place_service p s id_group start (add_minutes start s.duration)) events events' e
            (rw t at h) in
        (row, made, λ _. key)
    | inr t ↦
        let blank = blank_event (makers.fresh_event events) in
        let same : place_service p s id_group start (add_minutes start s.duration) blank ≡ e =
          cc (rw t at h) in
        (blank, sym same, λ y. absurd (true≢false (sym y ∙ t)))
  ]

  pub upsert_services-IsChainOf :
      (services : List SidebarService) (start : ℕ) (events final : List Event) (es : List Event)
      → upsert_services makers p id_group services start events ≡ some (es, final)
      → IsChainOf id_group start services es
  unfolding upsert_services
  upsert_services-IsChainOf [] start events final es h =
      let same : [] ≡ es = cc in subst (IsChainOf id_group start []) same tt
  upsert_services-IsChainOf (s ∷ services) start events final es h =
      elim (Option-cases (stored_service makers p s id_group start events)) [
        | inl t ↦ cc (rw (t, upsert_services) at h)
        | inr ((e, events'), t) ↦
            elim (Option-cases
              (upsert_services makers p id_group services (add_minutes start s.duration) events')) [
                | inl u ↦ cc (rw (t, u, upsert_services) at h)
                | inr ((later, last), u) ↦
                    let same : e ∷ later ≡ es = cc (rw (t, u, upsert_services) at h) in
                    let (row, made, key) = stored_service-inv s start events events' e t in
                    let rest =
                      upsert_services-IsChainOf services (add_minutes start s.duration) events' last
                        later u in
                    subst (IsChainOf id_group start (s ∷ services)) same (
                      ap (λ (x : Event). x.id_group) made,
                      ap (λ (x : Event). x.start_date) made,
                      ap (λ (x : Event). x.end_date) made,
                      ap (λ (x : Event). x.id_service) made,
                      λ y. ap (λ (x : Event). x.id) made ∙ key y,
                      rest,
                    )
              ]
      ]

-- After the participants were written, those of the group who are left are the clients, in their order.
buried-is_seated :
    (id_group : String) (ps : List Participant)
    → keep (is_seated id_group) (update_rows (is_seated id_group) bury_seat ps) ≡ []
unfolding update_rows
buried-is_seated id_group [] = refl
buried-is_seated id_group (p ∷ ps) = elim (Bool-cases (is_seated id_group p)) [
  | inl e ↦
      let gone : is_seated id_group (bury_seat p) ≡ false = ground arith in
      rw (e, gone) (buried-is_seated id_group ps)
  | inr e ↦ rw (e, e) (buried-is_seated id_group ps)
]

seated-clients :
    (id_group : String) (clients : List SidebarClient)
    → keep (is_seated id_group) (map (seat_of id_group) clients) ≡ map (seat_of id_group) clients
seated-clients id_group [] = refl
seated-clients id_group (c ∷ clients) =
    rw (eq_refl id_group) (ap (λ l. seat_of id_group c ∷ l) (seated-clients id_group clients))

pub upsert_participants_lem :
    (id_group : String) (clients : List SidebarClient) (ps : List Participant)
    → keep (is_seated id_group) (upsert_participants id_group clients ps)
      ≡ map (seat_of id_group) clients
unfolding upsert_participants
upsert_participants_lem id_group clients ps =
    keep-append (is_seated id_group) (update_rows (is_seated id_group) bury_seat ps)
      (map (seat_of id_group) clients)
    ∙ rw (buried-is_seated id_group ps) (seated-clients id_group clients)

pub sync-participants :
    (id : String) (db : Db) → (sync_group_start_end_dates id db).participants ≡ db.participants
unfolding sync_group_start_end_dates
sync-participants id db = elim (Option-cases (span_of (keep (is_live_in id) db.events))) [
  | inl e ↦ rw (e, sync_group_start_end_dates) refl
  | inr ((s, t), e) ↦ rw (e, sync_group_start_end_dates) refl
]

pub anchor-given :
    (p : SidebarPayload) (existing : List Event) (g : Group) (t : ℕ)
    → p.start_date ≡ some t
    → anchor_start_date p existing g ≡ t
anchor-given p existing g t h = rw h refl
