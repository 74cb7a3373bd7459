-- ===== src/Platform/NewBooking.antt =====
-- What the move of an event into a booking of its own does to the rows.
use ms_calendar_service.Base.{
  ap, ◌++◌, map, ◌≡◌, ◌≢◌, ◌<◌, inl, inr, String, some, none, true, false, not, ◌&&◌, List, [], ◌∷◌,
  keep, find, refl, arith, sym, ◌∙◌, subst, Bool-cases, any-append,
}
use mathlib.Core.List.{append-nil, append_assoc}
use text.Mathlib.Text.{◌==◌ as str_eq}
use ms_calendar_service.Base.Sort.{any-sort_by}
use ms_calendar_service.Booking.Rows.{is_seated, Event, Group, Db, is_live_in}
use ms_calendar_service.Update.Rows.{find-update_rows}
use ms_calendar_service.Update.Persist.{update_rows, has_id}
use ms_calendar_service.Platform.{has_key}
use ms_calendar_service.Platform.Upsert.{start_of_event}
use ms_calendar_service.Platform.UpdateById.{
  UpdateEventInput, MovedEvent, moved_event, date_or, moved_row, with_move, update_event_by_id,
}
use ms_calendar_service.Platform.Split.{
  clone_seat, set_window, Stretch, CloneSource, stretch_events, split_by_time_continuity,
  put_bounds, synced, active_events, sync_group_window, clone_group, clone_group_with_participants,
  split_segments, split_original_group_if_needed,
}
use ms_calendar_service.Platform.Segments.{flatten, split_by_time_continuity-IsSplit}
use ms_calendar_service.Platform.Rows.{
  copies, split_all-copies, shares, Rows, Rows-update, Rows-refl, Rows-trans, IsRegrouped,
  split_all-Rows, find-split_all, live-moved,
}
use ms_calendar_service.Platform.Moved.{
  source_of, split_of, update_event_by_id-Moving, IsFreshKey, find-last, IsMovedRow, shares-keep,
  shares-moved,
}

synced-events : (id : String) (es : List Event) (db : Db) → (synced id es db).1.events ≡ db.events
synced-events id [] db = refl
synced-events id (e ∷ es) db = refl

synced-participants :
    (id : String) (es : List Event) (db : Db) → (synced id es db).1.participants ≡ db.participants
synced-participants id [] db = refl
synced-participants id (e ∷ es) db = refl

synced-groups :
    (key id : String) (es : List Event) (db : Db)
    → id ≢ key
    → find (has_key key) (synced id es db).1.groups ≡ find (has_key key) db.groups
synced-groups key id [] db n = refl
synced-groups key id (e ∷ es) db n =
    find-update_rows key id (set_window _ _) db.groups (λ g. refl) n

module _ (fresh_group : List Group → String) (source : CloneSource) (old : String) where
  segments-Rows :
      (live : List Event) (segments : List Stretch) (db : Db)
      → ((x : Event) → shares x (flatten segments) ≡ true → shares x live ≡ true)
      → Rows
          (IsRegrouped live)
          db.events
          (split_segments fresh_group source old segments db).1.events
  segments-Rows live [] db inside = Rows-refl (IsRegrouped live) db.events (λ x. (λ n. refl, refl))
  segments-Rows live (s ∷ segments) db inside =
      split_all-Rows fresh_group source live segments (put_bounds old s.first s.others db) (λ x e.
        inside x (
          any-append (λ (y : Event). str_eq x.id y.id) (stretch_events s) (flatten segments)
          ∙ ground (arith, e)))

  segments-copies :
      (segments : List Stretch) (db : Db)
      → (split_segments fresh_group source old segments db).1.participants
        ≡ db.participants
          ++ copies source.seats (split_segments fresh_group source old segments db).0
  segments-copies [] db = sym (append-nil db.participants)
  segments-copies (s ∷ segments) db =
      split_all-copies fresh_group source segments (put_bounds old s.first s.others db)

  segments-groups :
      (key : String) (segments : List Stretch) (db : Db) (g : Group)
      → old ≢ key
      → find (has_key key) db.groups ≡ some g
      → find (has_key key) (split_segments fresh_group source old segments db).1.groups ≡ some g
  segments-groups key [] db g n h = h
  segments-groups key (s ∷ segments) db g n h =
      find-split_all fresh_group source [] key segments (put_bounds old s.first s.others db) g
        (find-update_rows key old (set_window _ _) db.groups (λ g. refl) n ∙ h)

  split-Rows :
      (db : Db)
      → Rows
          (IsRegrouped (keep (is_live_in old) db.events))
          db.events
          (split_original_group_if_needed fresh_group source old db).1.events
  split-Rows db =
      segments-Rows (keep (is_live_in old) db.events)
        (split_by_time_continuity (active_events old db)) db
        (λ x e.
          let test = λ (y : Event). str_eq x.id y.id in
          let (joined, _) = split_by_time_continuity-IsSplit (active_events old db) in
          sym (any-sort_by start_of_event test (keep (is_live_in old) db.events))
          ∙ sym (any-sort_by start_of_event test (active_events old db))
          ∙ rw (← joined) e)

IsMovedRow-trans :
    (u : UpdateEventInput) (old id : String) (es : List Event) (x y z : Event)
    → id ≢ old
    → ((has_id u.id x ≡ true → y ≡ moved_row u id x) × (has_id u.id x ≡ false → y ≡ x))
    → IsRegrouped (keep (is_live_in old) (update_rows (has_id u.id) (moved_row u id) es)) y z
    → IsMovedRow u id (keep (is_live_in old) es) x z
IsMovedRow-trans u old id es x y z n (a, b) r =
    let left = λ (e : Event). is_live_in old e && not (has_id u.id e) in
    let (c, d) : IsRegrouped (keep left es) y z =
      subst (λ l. IsRegrouped l y z) (live-moved u old id es n) r in
    (
      λ t.
          let same = a t in
          let done =
            c (rw same (shares-moved u.id (moved_row u id x) (is_live_in old) es t)) ∙ same in
          (
            done,
            λ s k. ap (λ (e : Event). e.start_date) done ∙ rw k refl,
            λ s k. ap (λ (e : Event). e.end_date) done ∙ rw k refl,
          ),
      λ t.
          let same = b t in
          (
            λ h. elim (Bool-cases (shares x (keep left es))) [
              | inl s ↦
                  cc (shares-keep x (is_live_in old) (λ (e : Event). not (has_id u.id e)) es s, h)
              | inr s ↦ c (rw same s) ∙ same
            ],
            subst (λ w. z ≡ record w { id_group = z.id_group }) same d,
          ),
    )

-- What a move does to the rows.
pub record IsMoved (u : UpdateEventInput) (m : MovedEvent) (db db' : Db) : Type 0 where
  pub e : Event
  pub g : Group
  pub found : find (has_id u.id) db.events ≡ some e
  pub live : e.deleted ≡ false
  pub stands : find (has_key e.id_group) db.groups ≡ some g
  pub ordered : date_or u.start_date 0 < date_or u.end_date 0
  pub apart : m.new_group_id ≢ e.id_group
  pub row :
      find (has_key m.new_group_id) db'.groups
      ≡ some (record g {
        id = m.new_group_id;
        start_date = date_or u.start_date 0;
        end_date = date_or u.end_date 0;
        deleted = false;
      })
  pub seats :
      db'.participants
      ≡ db.participants
        ++ copies (keep (is_seated e.id_group) db.participants) (m.new_group_id ∷ m.split_group_ids)
  pub rows :
      Rows
        (IsMovedRow u m.new_group_id (keep (is_live_in e.id_group) db.events))
        db.events
        db'.events

pub fresh-apart :
    (fresh_group : List Group → String) (gs : List Group) (old : String) (g : Group)
    → IsFreshKey fresh_group gs
    → find (has_key old) gs ≡ some g
    → fresh_group gs ≢ old
fresh-apart fresh_group gs old g fresh stands same =
    cc (subst (λ id. find (has_key id) gs ≡ none) same fresh)

-- If no group has the identifier that the new one gets: a move that succeeds finds its event and
-- the booking of it, and the given times are in order. The event is then in a new booking, whose row
-- is that of the old one but for its identifier and the given times, and has the data of the update.
-- Every other row of an event keeps all but its group, and that too unless a live event of the old
-- booking has its identifier. The participants stay, and a copy of the seats of the old booking is
-- added for the new one and for each booking that is split off, and no other.
pub update_event_by_id-IsMoved :
    (fresh_group : List Group → String) (u : UpdateEventInput) (db db' : Db) (m : MovedEvent)
    → IsFreshKey fresh_group db.groups
    → update_event_by_id fresh_group u true db ≡ (moved_event m, db')
    → IsMoved u m db db'
unfolding sync_group_window clone_group_with_participants
update_event_by_id-IsMoved fresh_group u db db' m fresh h =
    let v = update_event_by_id-Moving fresh_group u db db' m h in
    let old = v.e.id_group in
    let id = fresh_group db.groups in
    let source = source_of fresh_group u db db' m v.e v.g in
    let start = date_or u.start_date 0 in
    let end = date_or u.end_date 0 in
    let moved = with_move u id source start end db in
    let split = split_of fresh_group u db db' m v.e v.g in
    let apart = fresh-apart fresh_group db.groups old v.g fresh v.stands in
    let row =
      synced-groups id old (active_events old split.1) split.1 (λ y. apart (sym y))
      ∙ segments-groups fresh_group source old id
          (split_by_time_continuity (active_events old moved)) moved (clone_group v.g id start end)
          (λ y. apart (sym y)) (find-last id db.groups (clone_group v.g id start end) fresh refl) in
    let moves = λ (x y : Event).
      (has_id u.id x ≡ true → y ≡ moved_row u id x) × (has_id u.id x ≡ false → y ≡ x) in
    let rows =
      Rows-trans moves (IsRegrouped (keep (is_live_in old) moved.events))
        (IsMovedRow u id (keep (is_live_in old) db.events)) db.events moved.events split.1.events
        (λ x y z a b. IsMovedRow-trans u old id db.events x y z apart a b)
        (Rows-update moves (has_id u.id) (moved_row u id) db.events (λ x t. (λ k. refl, λ k. cc))
          (λ x t. (λ k. cc, λ k. refl)))
        (split-Rows fresh_group source old moved) in
    let seats =
      synced-participants old (active_events old split.1) split.1
      ∙ segments-copies fresh_group source old (split_by_time_continuity (active_events old moved))
          moved
      ∙ append_assoc db.participants (map (clone_seat id) source.seats)
          (copies source.seats split.0) in
    subst (λ d. IsMoved u m db d) v.done
      (record {
        e = v.e;
        g = v.g;
        found = v.found;
        live = v.live;
        stands = v.stands;
        ordered = v.ordered;
        apart = rw v.new apart;
        row = rw v.new row;
        seats = rw (v.new, v.splits) seats;
        rows = rw v.new (
            subst (λ es. Rows (IsMovedRow u id (keep (is_live_in old) db.events)) db.events es)
              (sym (synced-events old (active_events old split.1) split.1)) rows);
      })
