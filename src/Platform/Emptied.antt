-- ===== src/Platform/Emptied.antt =====
-- What the move of the only service of a booking leaves behind.
use ms_calendar_service.Base.{
  ◌≡◌, ◌≢◌, inl, inr, String, Bool, true, false, not, ◌&&◌, List, [], ◌∷◌, map, keep, find, refl,
  arith, sym, ◌∙◌, subst, Bool-cases, All, keep-append, eq_iff,
}
use mathlib.Core.List.{append-nil}
use text.Mathlib.Text.{◌==◌ as str_eq}
use ms_calendar_service.Base.Sort.{sort_by}
use ms_calendar_service.Booking.Rows.{Event, Group, Participant, Db, is_live_in, is_seated}
use ms_calendar_service.Update.Persist.{has_id}
use ms_calendar_service.Platform.{has_key}
use ms_calendar_service.Platform.UpdateById.{
  UpdateEventInput, MovedEvent, moved_event, date_or, with_move, update_event_by_id,
}
use ms_calendar_service.Platform.Split.{
  CloneSource, split_original_group_if_needed, active_events, sync_group_window, clone_seat,
  clone_group_with_participants, split_sorted,
}
use ms_calendar_service.Platform.Rows.{find-append, live-moved}
use ms_calendar_service.Platform.Moved.{source_of, update_event_by_id-Moving, IsFreshKey}
use ms_calendar_service.Platform.NewBooking.{fresh-apart}

none-left :
    (id : String) (p : Event → Bool) (es : List Event)
    → All (λ (e : Event). has_id id e ≡ true) (keep p es)
    → keep (λ (e : Event). p e && not (has_id id e)) es ≡ []
none-left id p [] h = refl
none-left id p (e ∷ es) h = elim (Bool-cases (p e)) [
  | inl t ↦ let (k, l) = rw t at h in rw (t, k) (none-left id p es l)
  | inr t ↦ rw t (none-left id p es (rw t at h))
]

no-clones :
    (old id : String) (ps : List Participant)
    → id ≢ old
    → keep (is_seated old) (map (clone_seat id) ps) ≡ []
no-clones old id [] n = refl
no-clones old id (p ∷ ps) n =
    let away : str_eq id old ≡ false = ground (arith, eq_iff id old) in
    rw away (no-clones old id ps n)

nothing-left :
    (fresh_group : List Group → String) (source : CloneSource) (old : String) (db : Db)
    → keep (is_live_in old) db.events ≡ []
    → (sync_group_window old (split_original_group_if_needed fresh_group source old db).1).1 ≡ db
unfolding sync_group_window split_sorted sort_by
nothing-left fresh_group source old db h =
    let none_active : active_events old db ≡ [] = rw h refl in
    let unsplit : split_original_group_if_needed fresh_group source old db ≡ ([], db) =
      rw none_active refl in
    rw unsplit (rw none_active refl)

-- The booking has no live event, and its row and its seats are as they were.
abbrev pub IsEmptied : String → Db → Db → Type 0
IsEmptied old db db' =
    (keep (is_live_in old) db'.events ≡ [])
    × (find (has_key old) db'.groups ≡ find (has_key old) db.groups)
    × (keep (is_seated old) db'.participants ≡ keep (is_seated old) db.participants)

-- If no group has the identifier that the new one gets: a move of the only live event of a booking
-- leaves the booking without a live event, and its row and its live seats as they were.
pub update_event_by_id-IsEmptied :
    (fresh_group : List Group → String) (u : UpdateEventInput) (db db' : Db) (m : MovedEvent)
    → IsFreshKey fresh_group db.groups
    → update_event_by_id fresh_group u true db ≡ (moved_event m, db')
    → All (λ (e : Event). has_id u.id e ≡ true) (keep (is_live_in m.old_group_id) db.events)
    → IsEmptied m.old_group_id db db'
unfolding clone_group_with_participants
update_event_by_id-IsEmptied fresh_group u db db' m fresh h only =
    let v = update_event_by_id-Moving fresh_group u db db' m h in
    let old = v.e.id_group in
    let id = fresh_group db.groups in
    let source = source_of fresh_group u db db' m v.e v.g in
    let moved = with_move u id source (date_or u.start_date 0) (date_or u.end_date 0) db in
    let apart = fresh-apart fresh_group db.groups old v.g fresh v.stands in
    let left : keep (is_live_in old) moved.events ≡ [] =
      live-moved u old id db.events apart
      ∙ none-left u.id (is_live_in old) db.events (rw v.old at only) in
    let same : moved ≡ db' = sym (nothing-left fresh_group source old moved left) ∙ v.done in
    rw v.old (
      subst (IsEmptied old db) same (
        left,
        find-append old db.groups _ v.g v.stands ∙ sym v.stands,
        keep-append (is_seated old) db.participants (map (clone_seat id) source.seats)
            ∙ rw (no-clones old id source.seats apart)
                (append-nil (keep (is_seated old) db.participants)),
      ))
