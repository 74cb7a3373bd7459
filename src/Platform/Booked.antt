-- ===== src/Platform/Booked.antt =====
-- The booking that the creation or the edit by the business leaves.
use mathlib.Core.List.{Memᴰ}
use text.Mathlib.Text.{◌==◌ as str_eq}
use ms_calendar_service.Base.{
  ℕ, ◌≡◌, ◌≢◌, inl, inr, String, Option, none, some, true, false, List, [], ◌∷◌, map, keep, find,
  refl, arith, Bool-cases, Option-cases, ap, sym, ◌∙◌, subst, eq_iff, All,
}
use ms_calendar_service.Booking.{or_else, sync_group_start_end_dates}
use ms_calendar_service.Booking.Rows.{
  Status, Event, Group, Db, is_seated, is_live_in, span_of, group_by_id, date_group,
}
use ms_calendar_service.Update.Persist.{update_rows}
use ms_calendar_service.Update.Rows.{find-Memᴰ}
use ms_calendar_service.Platform.{has_key}
use ms_calendar_service.Platform.Payload.{
  SidebarService, SidebarPayload, Makers, normalize_group_id, derive_group_title,
  ensure_group_events, edited_or_created, created_row, edit_row, new_row,
}
use ms_calendar_service.Platform.Upsert.{
  upserted, seat_of, upsert_services, upsert_participants, finished, with_group, upsert_some,
  upsert_event, events_by_group, obsolete_ids, delete_events, anchor_start_date,
}
use ms_calendar_service.Platform.Moved.{IsFreshKey, find-last}
use ms_calendar_service.Platform.Chained.{
  IsChainOf, sync-participants, upsert_participants_lem, upsert_services-IsChainOf, anchor-given,
}
use ms_calendar_service.Platform.Stored.{AreDistinct, upsert_services-stored}

-- The row of the booking says what the payload says.
pub record IsRowOf (p : SidebarPayload) (g : Group) : Type 0 where
  pub company : g.id_company ≡ p.id_company
  pub workspace : g.id_workspace ≡ p.id_workspace
  pub comment : g.comment_client ≡ p.comment_client
  pub status : (s : Status) → p.event_status ≡ some s → g.status ≡ s
  pub kept : g.deleted ≡ false

-- The identifier of the booking: the one that is given, or a new one.
abbrev pub booking_id : Makers → SidebarPayload → Db → String
booking_id makers p db = or_else (normalize_group_id makers p) (makers.fresh_group db.groups)

-- The booking after the creation or the edit.
pub record IsBooked (makers : Makers) (p : SidebarPayload) (es : List Event) (db db' : Db)
    : Type 0 where
  pub start : ℕ
  pub chain : IsChainOf (booking_id makers p db) start p.services es
  pub given : (t : ℕ) → p.start_date ≡ some t → start ≡ t
  pub stored : All (λ (e : Event). Memᴰ e db'.events) es
  pub group : Group
  pub found : find (has_key (booking_id makers p db)) db'.groups ≡ some group
  pub row : IsRowOf p group
  pub seats :
      keep (is_seated (booking_id makers p db)) db'.participants
      ≡ map (seat_of (booking_id makers p db)) p.clients

find-edited :
    (id : String) (f : Group → Group) (gs : List Group) (g : Group)
    → ((h : Group) → (f h).id ≡ h.id)
    → find (has_key id) gs ≡ some g
    → find (has_key id) (update_rows (has_key id) f gs) ≡ some (f g)
unfolding update_rows
find-edited id f [] g keeps h = cc
find-edited id f (x ∷ gs) g keeps h = elim (Bool-cases (has_key id x)) [
  | inl e ↦
      let same : x ≡ g = cc (rw e at h) in
      let hit : has_key id (f x) ≡ true = ap (λ i. str_eq i id) (keeps x) ∙ e in
      rw (e, hit) (ap (λ y. some (f y)) same)
  | inr e ↦ rw (e, e) (find-edited id f gs g keeps (rw e at h))
]

find-dated :
    (id : String) (s t : ℕ) (gs : List Group) (g : Group)
    → find (has_key id) gs ≡ some g
    → find (has_key id) (date_group id s t gs) ≡ some (record g { start_date = s; end_date = t })
unfolding date_group
find-dated id s t [] g h = cc
find-dated id s t (x ∷ gs) g h = elim (Bool-cases (has_key id x)) [
  | inl e ↦
      let same : x ≡ g = cc (rw e at h) in
      rw (e, e) (ap (λ (y : Group). some (record y { start_date = s; end_date = t })) same)
  | inr e ↦ rw (e, e) (find-dated id s t gs g (rw e at h))
]

-- The row as the step on the group leaves it.
abbrev Ensured : Makers → SidebarPayload → Db → String → Option (Group × Db) → Type 0
Ensured makers p db id none = Unit
Ensured makers p db id (some (g, ready)) =
    (g.id ≡ id) × (find (has_key id) ready.groups ≡ some g) × IsRowOf p g

created-Ensured :
    (makers : Makers) (p : SidebarPayload) (db : Db) (id : String) (start : Option ℕ)
    → find (has_key id) db.groups ≡ none
    → Ensured makers p db id (created_row makers p id start db)
unfolding derive_group_title
created-Ensured makers p db id none h = tt
created-Ensured makers p db id (some t) h = (
  refl,
  find-last id db.groups (new_row makers p id t) h refl,
  record {
    company = refl;
    workspace = refl;
    comment = refl;
    status = λ s e. rw e refl;
    kept = refl;
  },
)

edited-Ensured :
    (makers : Makers) (p : SidebarPayload) (db : Db) (id : String) (o : Option Group)
    → find (has_key id) db.groups ≡ o
    → Ensured makers p db id (edited_or_created makers p id o db)
edited-Ensured makers p db id none h = created-Ensured makers p db id p.start_date h
edited-Ensured makers p db id (some g) h =
    let (_, k) = find-Memᴰ (has_key id) db.groups g h in
    (
      ground (arith, eq_iff g.id id),
      find-edited id (edit_row makers p) db.groups g (λ x. refl) h,
      record {
        company = refl;
        workspace = refl;
        comment = refl;
        status = λ s e. rw e refl;
        kept = refl;
      },
    )

ensure-Ensured :
    (makers : Makers) (p : SidebarPayload) (db : Db) (given : Option String)
    → IsFreshKey makers.fresh_group db.groups
    → Ensured makers p db
        (or_else given (makers.fresh_group db.groups))
        (ensure_group_events makers p given db)
unfolding ensure_group_events
ensure-Ensured makers p db none fresh =
    created-Ensured makers p db (makers.fresh_group db.groups) p.start_date fresh
ensure-Ensured makers p db (some id) fresh = edited-Ensured makers p db id (group_by_id db id) refl

-- The dates of the booking are set last, and nothing else.
sync-events : (id : String) (db : Db) → (sync_group_start_end_dates id db).events ≡ db.events
unfolding sync_group_start_end_dates
sync-events id db = elim (Option-cases (span_of (keep (is_live_in id) db.events))) [
  | inl e ↦ rw (e, sync_group_start_end_dates) refl
  | inr ((s, t), e) ↦ rw (e, sync_group_start_end_dates) refl
]

sync-row :
    (p : SidebarPayload) (id : String) (db : Db) (g : Group)
    → find (has_key id) db.groups ≡ some g
    → IsRowOf p g
    → (h : Group) × (find (has_key id) (sync_group_start_end_dates id db).groups ≡ some h)
      × IsRowOf p h
unfolding sync_group_start_end_dates
sync-row p id db g found row = elim (Option-cases (span_of (keep (is_live_in id) db.events))) [
  | inl e ↦ rw (e, sync_group_start_end_dates) (g, found, row)
  | inr ((s, t), e) ↦
      rw (e, sync_group_start_end_dates)
        (
          record g { start_date = s; end_date = t },
          find-dated id s t db.groups g found,
          record {
            company = row.company;
            workspace = row.workspace;
            comment = row.comment;
            status = row.status;
            kept = row.kept;
          },
        )
]

module _ (makers : Makers) (p : SidebarPayload) (db db' : Db) (es : List Event)
    (distinct : AreDistinct es) where
  finished-IsBooked :
      (start : ℕ) (id : String) (ready : Db) (g : Group)
      → id ≡ booking_id makers p db
      → ((t : ℕ) → p.start_date ≡ some t → start ≡ t)
      → find (has_key id) ready.groups ≡ some g
      → IsRowOf p g
      → finished p id db ready (upsert_services makers p id p.services start ready.events)
        ≡ (upserted es, db')
      → IsBooked makers p es db db'
  finished-IsBooked start id ready g mine given found row h =
      elim (Option-cases (upsert_services makers p id p.services start ready.events)) [
        | inl t ↦ cc (rw t at h)
        | inr ((made, events), t) ↦
            let done = rw t at h in
            let same : made ≡ es = cc in
            let answered =
              subst
                (λ l. upsert_services makers p id p.services start ready.events ≡ some (l, events))
                same t in
            let last : Db = record ready {
              events = events;
              participants = upsert_participants id p.clients ready.participants;
            } in
            let final : sync_group_start_end_dates id last ≡ db' = ap (λ r. r.1) done in
            let (h, at, dated) = sync-row p id last g found row in
            subst (λ d. IsBooked makers p es db d) final
              (record {
                start = start;
                chain = rw (← mine) (
                    upsert_services-IsChainOf makers p id p.services start ready.events events es
                      answered);
                given = given;
                stored =
                    subst (λ l. All (λ (e : Event). Memᴰ e l) es) (sym (sync-events id last))
                      (upsert_services-stored makers p id p.services start ready.events events es
                        answered distinct);
                group = h;
                found = rw (← mine) at;
                row = dated;
                seats = rw (← mine) (
                    ap (keep (is_seated id)) (sync-participants id last)
                    ∙ upsert_participants_lem id p.clients ready.participants);
              })
      ]

  grouped-IsBooked :
      (ensured : Option (Group × Db))
      → Ensured makers p db (booking_id makers p db) ensured
      → with_group makers p (normalize_group_id makers p) db ensured ≡ (upserted es, db')
      → IsBooked makers p es db db'
  grouped-IsBooked none ok h = cc
  grouped-IsBooked (some (g, ready)) (mine, found, row) h =
      let existing = events_by_group (normalize_group_id makers p) g.id ready in
      finished-IsBooked (anchor_start_date p existing g) g.id
        (delete_events (obsolete_ids p.services existing) ready) g mine (anchor-given p existing g)
        (subst (λ i. find (has_key i) ready.groups ≡ some g) (sym mine) found) row h

  some-IsBooked :
      (services : List SidebarService)
      → services ≢ []
      → IsFreshKey makers.fresh_group db.groups
      → upsert_some makers p services db ≡ (upserted es, db')
      → IsBooked makers p es db db'
  some-IsBooked [] n fresh h = absurd (n refl)
  some-IsBooked (s ∷ services) n fresh h =
      grouped-IsBooked (ensure_group_events makers p (normalize_group_id makers p) db)
        (ensure-Ensured makers p db (normalize_group_id makers p) fresh) h

-- If no group has the identifier that a new one gets: a creation or an edit with services that succeeds
-- with events of distinct identifiers answers one event for each service, in their order and back to
-- back in the booking, from the start of the payload where it has one, and each is stored; a service
-- that names a row keeps that row. The booking is the one that the payload names, or a new one. Its row
-- has the company, the workspace, the comment and the status of the payload, is not deleted, and its
-- seats that are left are those of the clients, in their order.
pub upsert_event-IsBooked :
    (makers : Makers) (p : SidebarPayload) (db db' : Db) (es : List Event)
    → p.services ≢ []
    → IsFreshKey makers.fresh_group db.groups
    → AreDistinct es
    → upsert_event makers p db ≡ (upserted es, db')
    → IsBooked makers p es db db'
unfolding upsert_event upsert_services ensure_group_events derive_group_title
upsert_event-IsBooked makers p db db' es n fresh distinct h = elim (Bool-cases p.is_event) [
  | inr e ↦ cc (rw e at h)
  | inl e ↦ some-IsBooked makers p db db' es distinct p.services n fresh (rw e at h)
]
