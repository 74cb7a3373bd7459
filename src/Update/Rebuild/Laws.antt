-- ===== src/Update/Rebuild/Laws.antt =====
-- What the rebuild of a booking leaves, and what makes it fail.
use mathlib.Core.List.{Memᴰ}
use mathlib.Core.List.Memᴰ as Mem
use text.Mathlib.Text.{◌==◌ as str_eq}
use ms_calendar_service.Base.Sets.{add_all_keeps, add_all_adds}
use ms_calendar_service.Base.{
  ◌≡◌, ◌<◌, String, true, false, List, [], ◌∷◌, ◌++◌, refl, sym, ap, ◌∙◌, tests, Bool-cases,
  Option-cases, inl, inr, any, All, length, subst, eq_refl, find, ltb,
}
use ms_calendar_service.Base.Members.{Memᴰ→any, any_false→All, All-map}
use ms_calendar_service.Availability.Assign.{Segment}
use ms_calendar_service.Booking.Rows.{Event, Group, Db, is_client, holds_of_group}
use ms_calendar_service.Update.Persist.{
  GroupEdit, edit_group, has_id, meets, update_rows, update_group_row, overlap_conflict,
}
use ms_calendar_service.Update.Rows.{KeepsBusy, IsClear, meets-IsClear}
use ms_calendar_service.Update.Rebuild.{
  RebuildInput, rebuilt, rebuild_failed, is_foreign_conflict, ensure_participant, any_conflict,
  ids_to_delete, written_rows, rebuild_rows, rebuild_booking, update_kept, create_rest, drop,
  soft_delete,
}
use ms_calendar_service.Update.Rebuild.Kept.{
  IsPlacedIn, IsPlacedIn-append, update_kept-IsPlacedIn, create_rest-IsPlacedIn, IsBuried,
  soft_delete-IsBuried,
}

-- The edit of a group leaves its workspace as it was.
workspace_kept :
    (g : GroupEdit) (workspace id : String) (groups : List Group)
    → holds_of_group
        (λ row. str_eq row.id_workspace workspace)
        (find
          (λ (row : Group). str_eq row.id id)
          (update_rows (λ (row : Group). str_eq row.id g.group_id) (edit_group g) groups))
      ≡ holds_of_group
          (λ row. str_eq row.id_workspace workspace)
          (find (λ (row : Group). str_eq row.id id) groups)
unfolding update_rows
workspace_kept g workspace id [] = refl
workspace_kept g workspace id (row ∷ groups) = elim (Bool-cases (str_eq row.id g.group_id)) [
  | inl t ↦ elim (Bool-cases (str_eq row.id id)) [
    | inl k ↦ rw (t, k) refl
    | inr k ↦ rw (t, k) (workspace_kept g workspace id groups)
  ]
  | inr t ↦ elim (Bool-cases (str_eq row.id id)) [
    | inl k ↦ rw (t, k) refl
    | inr k ↦ rw (t, k) (workspace_kept g workspace id groups)
  ]
]

-- Each event of the professional that is not the booking's own is clear of the segment, whatever the
-- status of its group.
abbrev pub IsFree : RebuildInput → Db → Segment → Event → Type 0
IsFree input db s e =
    KeepsBusy input.edit.id_workspace db s e
    → any (λ id. has_id id e) input.original_ids ≡ false
    → IsClear s e

ensure_participant_keeps :
    (input : RebuildInput) (db : Db)
    → ((ensure_participant input db).events ≡ db.events)
      × ((ensure_participant input db).groups ≡ db.groups)
unfolding ensure_participant
ensure_participant_keeps input db =
    elim (Bool-cases
      (any (is_client input.edit.group_id input.customer_workspace) db.participants)) [
        | inl t ↦ rw (t, ensure_participant) (refl, refl)
        | inr t ↦ rw (t, ensure_participant) (refl, refl)
      ]

-- The database that the search for other events reads.
abbrev pub edited_db : RebuildInput → Db → Db
edited_db input db = record db {
  groups =
      update_rows (λ (row : Group). str_eq row.id input.edit.group_id) (edit_group input.edit)
        db.groups;
}

conflict_kept :
    (input : RebuildInput) (db : Db) (s : Segment) (e : Event)
    → is_foreign_conflict input.edit input.original_ids
        (ensure_participant input (edited_db input db))
        s
        e
      ≡ is_foreign_conflict input.edit input.original_ids db s e
unfolding is_foreign_conflict
conflict_kept input db s e =
    let (_, groups) = ensure_participant_keeps input (edited_db input db) in
    let same = workspace_kept input.edit input.edit.id_workspace e.id_group db.groups in
    rw (groups, same) refl

foreign_conflict-IsFree :
    (input : RebuildInput) (db : Db) (s : Segment) (e : Event)
    → is_foreign_conflict input.edit input.original_ids db s e ≡ false
    → IsFree input db s e
unfolding is_foreign_conflict
foreign_conflict-IsFree input db s e h b other = elim (Bool-cases (meets s e)) [
  | inr t ↦ meets-IsClear input.edit.id_workspace db s e b t
  | inl t ↦ cc (rw (t, b.found, b.workspace, eq_refl input.edit.id_workspace, other) at h)
]

abbrev at_work : RebuildInput → Db → Db
at_work input db = ensure_participant input (edited_db input db)

any_conflict-IsFree :
    (input : RebuildInput) (db : Db) (segs : List Segment)
    → any_conflict input (at_work input db) segs ≡ false
    → All (λ s. All (IsFree input db s) db.events) segs
unfolding any_conflict
any_conflict-IsFree input db [] h = tt
any_conflict-IsFree input db (s ∷ segs) h =
    let (events, _) = ensure_participant_keeps input (edited_db input db) in
    let among = is_foreign_conflict input.edit input.original_ids (at_work input db) s in
    elim (Bool-cases (any among (at_work input db).events)) [
      | inl t ↦ cc
      | inr t ↦
          let here : any among db.events ≡ false = ap (any among) (sym events) ∙ t in
          (
            All-map (λ e. among e ≡ false) (IsFree input db s) db.events
                (λ e k. foreign_conflict-IsFree input db s e (sym (conflict_kept input db s e) ∙ k))
                (any_false→All among db.events here),
            any_conflict-IsFree input db segs (rw (t, any_conflict) at h),
          )
    ]

-- One event of the group for each segment in its order, nobody busy at those times with a foreign
-- event, and the explicit and the surplus events deleted.
abbrev pub IsRebuilt : RebuildInput → Db → List Event → List Event → List String → Db → Type 0
IsRebuilt input db updated created deleted db' =
    All (λ s. All (IsFree input db s) db.events) input.chosen_segments
    × IsPlacedIn input.edit.group_id (updated ++ created) input.chosen_segments
    × All (IsBuried db'.events) deleted
    × ((id : String) → Memᴰ id input.explicit_delete_ids → Memᴰ id deleted)
    × ((id : String)
        → Memᴰ id (drop (length input.chosen_segments) input.originals_kept)
        → Memᴰ id deleted)

written-IsRebuilt :
    (input : RebuildInput) (db work : Db) (updated created : List Event) (deleted : List String)
    (db' : Db)
    → All (λ s. All (IsFree input db s) db.events) input.chosen_segments
    → written_rows input work (
        update_kept input.services input.edit.group_id input.originals_kept input.chosen_segments
          work.events)
      ≡ rebuilt updated created deleted db'
    → IsRebuilt input db updated created deleted db'
unfolding ids_to_delete
written-IsRebuilt input db work updated created deleted db' free h =
    let kept =
      update_kept input.services input.edit.group_id input.originals_kept input.chosen_segments
        work.events in
    let rest = drop (length input.originals_kept) input.chosen_segments in
    elim (Option-cases kept) [
      | inl t ↦ cc
      | inr ((made, events), t) ↦
          let new =
            create_rest input.fresh input.services input.id_company input.edit.group_id rest
              events in
          elim (Option-cases (soft_delete (ids_to_delete input) new.1)) [
            | inl k ↦ cc
            | inr (final, k) ↦
                let (pre, split, placed) =
                  update_kept-IsPlacedIn input.services input.edit.group_id input.originals_kept
                    input.chosen_segments work.events made events t in
                let added =
                  create_rest-IsPlacedIn input.fresh input.services input.id_company
                    input.edit.group_id rest events in
                let both = IsPlacedIn-append input.edit.group_id made new.0 pre rest placed added in
                let result : rebuilt made new.0 (ids_to_delete input)
                      (record work { events = final })
                    ≡ rebuilt updated created deleted db' =
                  rw (t, k) at h in
                let same_updated : made ≡ updated = cc in
                let same_created : new.0 ≡ created = cc in
                let same_deleted : ids_to_delete input ≡ deleted = cc in
                let same_db : record work { events = final } ≡ db' = cc in
                let rows : made ++ new.0 ≡ updated ++ created =
                  ap (λ l. l ++ new.0) same_updated ∙ ap (λ l. updated ++ l) same_created in
                (
                  free,
                  subst (λ l. IsPlacedIn input.edit.group_id l input.chosen_segments) rows
                      (subst (IsPlacedIn input.edit.group_id (made ++ new.0)) (sym split) both),
                  subst (λ l. All (IsBuried l) deleted) (ap (λ (d : Db). d.events) same_db)
                      (subst (All (IsBuried final)) same_deleted
                        (soft_delete-IsBuried (ids_to_delete input) new.1 final k)),
                  (λ id m.
                      subst (Memᴰ id) same_deleted
                        (add_all_keeps id _ _ (add_all_adds id input.explicit_delete_ids [] m))),
                  (λ id m. subst (Memᴰ id) same_deleted (add_all_adds id _ _ m)),
                )
          ]
    ]

-- A rebuild succeeds only if no event of a segment's professional in the workspace, other than the
-- booking's own, meets the segment. The updated events and then the created ones carry the segments
-- in their order, all in the booking's group. The events that were to be deleted, and the kept
-- originals beyond the number of segments, are deleted.
pub rebuild_booking-IsRebuilt :
    (input : RebuildInput) (db : Db) (updated created : List Event) (deleted : List String)
    (db' : Db)
    → rebuild_booking input db ≡ rebuilt updated created deleted db'
    → IsRebuilt input db updated created deleted db'
unfolding rebuild_booking update_group_row rebuild_rows
rebuild_booking-IsRebuilt input db updated created deleted db' h =
    elim (Bool-cases (any (λ (row : Group). str_eq row.id input.edit.group_id) db.groups)) [
      | inr t ↦ cc
      | inl t ↦ elim (Bool-cases (any_conflict input (at_work input db) input.chosen_segments)) [
        | inl k ↦ cc
        | inr k ↦
            written-IsRebuilt input db (at_work input db) updated created deleted db'
              (any_conflict-IsFree input db input.chosen_segments k) (rw (t, k) at h)
      ]
    ]

is_foreign_conflict_busy :
    (input : RebuildInput) (db : Db) (s : Segment) (e : Event)
    → KeepsBusy input.edit.id_workspace db s e
    → any (λ id. has_id id e) input.original_ids ≡ false
    → e.start_date < s.end
    → s.start < e.end_date
    → is_foreign_conflict input.edit input.original_ids db s e ≡ true
unfolding is_foreign_conflict
is_foreign_conflict_busy input db s e b foreign early late =
    let before : ltb e.start_date s.end ≡ true = omega (tests, early) in
    let after : ltb s.start e.end_date ≡ true = omega (tests, late) in
    rw (
      b.professional,
      eq_refl s.user_id,
      before,
      after,
      b.kept,
      b.found,
      b.workspace,
      eq_refl input.edit.id_workspace,
      foreign,
    )

any_conflict_found :
    (input : RebuildInput) (work : Db) (s : Segment) (segs : List Segment)
    → Memᴰ s segs
    → any (is_foreign_conflict input.edit input.original_ids work s) work.events ≡ true
    → any_conflict input work segs ≡ true
unfolding any_conflict
any_conflict_found input work s [] m h = absurd (Mem.not-nil m)
any_conflict_found input work s (x ∷ segs) (Memᴰ.head same) h =
    let here =
      ap (λ y. any (is_foreign_conflict input.edit input.original_ids work y) work.events) same in
    rw (sym here ∙ h) refl
any_conflict_found input work s (x ∷ segs) (Memᴰ.tail m) h =
    elim (Bool-cases (any (is_foreign_conflict input.edit input.original_ids work x) work.events)) [
      | inl t ↦ rw (t, any_conflict) refl
      | inr t ↦ rw (t, any_conflict) (any_conflict_found input work s segs m h)
    ]

-- Unlike the search for free windows, which leaves cancelled bookings out, the rebuild fails on
-- every foreign event of the professional that is not deleted and meets a segment, also where the
-- event's group is cancelled.
pub rebuild_booking-overlap_conflict :
    (input : RebuildInput) (db : Db) (s : Segment) (e : Event)
    → any (λ (row : Group). str_eq row.id input.edit.group_id) db.groups ≡ true
    → Memᴰ s input.chosen_segments
    → Memᴰ e db.events
    → KeepsBusy input.edit.id_workspace db s e
    → any (λ id. has_id id e) input.original_ids ≡ false
    → e.start_date < s.end
    → s.start < e.end_date
    → rebuild_booking input db ≡ rebuild_failed overlap_conflict
unfolding rebuild_booking update_group_row rebuild_rows
rebuild_booking-overlap_conflict input db s e known ms me busy foreign early late =
    let (events, _) = ensure_participant_keeps input (edited_db input db) in
    let among = is_foreign_conflict input.edit input.original_ids (at_work input db) s in
    let hit : among e ≡ true =
      conflict_kept input db s e ∙ is_foreign_conflict_busy input db s e busy foreign early late in
    let here : any among (at_work input db).events ≡ true =
      ap (any among) events ∙ Memᴰ→any among me hit in
    rw (known, any_conflict_found input (at_work input db) s input.chosen_segments ms here) refl
