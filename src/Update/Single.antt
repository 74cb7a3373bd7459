-- ===== src/Update/Single.antt =====
-- What the update of a booking of one segment leaves.
use ms_calendar_service.Base.{
  ◌≡◌, String, Option, false, sym, ap, ◌∙◌, Bool-cases, Option-cases, inl, inr, any, All, eq_refl,
}
use ms_calendar_service.Base.Members.{any_false→All, All-map}
use ms_calendar_service.Availability.Assign.{Segment}
use ms_calendar_service.Booking.{Service}
use ms_calendar_service.Booking.Rows.{Event, Db, is_cancelled}
use ms_calendar_service.Update.Persist.{
  GroupEdit, has_id, meets, place, update_rows, update_event, update_group_row, is_conflict,
  updated_in_place, update_single_event,
}
use ms_calendar_service.Update.Rows.{
  update_event-inv, update_group_row-inv, KeepsBusy, IsClear, meets-IsClear,
}

-- Each uncancelled event of the professional other than the updated one is clear of the segment.
abbrev pub IsFree : GroupEdit → Segment → String → Db → Event → Type 0
IsFree g s original_id db e =
    (b : KeepsBusy g.id_workspace db s e)
    → is_cancelled b.group.status ≡ false
    → has_id original_id e ≡ false
    → IsClear s e

is_conflict-IsFree :
    (g : GroupEdit) (s : Segment) (original_id : String) (db : Db) (e : Event)
    → is_conflict g s original_id db e ≡ false
    → IsFree g s original_id db e
unfolding is_conflict
is_conflict-IsFree g s original_id db e h b standing other = elim (Bool-cases (meets s e)) [
  | inr t ↦ meets-IsClear g.id_workspace db s e b t
  | inl t ↦ cc (rw (t, b.found, b.workspace, eq_refl g.id_workspace, standing, other) at h)
]

-- The row takes the place of the segment in the group, and nothing else of the table changes.
abbrev pub IsPlaced : GroupEdit → Segment → Option Service → String → Db → Event → Db → Type 0
IsPlaced g s svc original_id db made db' =
    (old : Event) × (old.id ≡ original_id)
    × (made ≡ place g.group_id s svc old)
    × (db'.events ≡ update_rows (has_id original_id) (place g.group_id s svc) db.events)
    × (db'.participants ≡ db.participants)

-- An update of one segment succeeds only if every uncancelled event of the professional in the
-- workspace, other than the updated one, ends by the segment's start or begins at its end or later.
-- The updated event then has the segment's service, professional and times, and no other event and
-- no participant changes.
pub update_single_event-IsPlaced :
    (g : GroupEdit) (s : Segment) (svc : Option Service) (original_id : String) (db : Db)
    (made : Event) (db' : Db)
    → update_single_event g s svc original_id db ≡ updated_in_place made db'
    → All (IsFree g s original_id db) db.events × IsPlaced g s svc original_id db made db'
unfolding update_single_event
update_single_event-IsPlaced g s svc original_id db made db' h =
    elim (Bool-cases (any (is_conflict g s original_id db) db.events)) [
      | inl t ↦ cc
      | inr t ↦ elim (Option-cases (update_group_row g db)) [
        | inl k ↦ cc
        | inr (mid, k) ↦
            elim (Option-cases (update_event original_id (place g.group_id s svc) mid.events)) [
              | inl m ↦ cc
              | inr ((e, final), m) ↦
                  let free =
                    All-map (λ x. is_conflict g s original_id db x ≡ false)
                      (IsFree g s original_id db) db.events (is_conflict-IsFree g s original_id db)
                      (any_false→All (is_conflict g s original_id db) db.events t) in
                  let (same_events, same_people) = update_group_row-inv g db mid k in
                  let (old, _, key, shape, rows) =
                    update_event-inv original_id (place g.group_id s svc) mid.events final e m in
                  let same_made : e ≡ made = cc in
                  let same_db : record mid { events = final } ≡ db' = cc in
                  (
                    free,
                    (
                      old,
                      key,
                      sym same_made ∙ shape,
                      sym (ap (λ (d : Db). d.events) same_db)
                          ∙ rows
                          ∙ ap (update_rows (has_id original_id) (place g.group_id s svc))
                              same_events,
                      sym (ap (λ (d : Db). d.participants) same_db) ∙ same_people,
                    ),
                  )
            ]
      ]
    ]
