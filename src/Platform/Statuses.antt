-- ===== src/Platform/Statuses.antt =====
-- The life of a booking's status.
use text.Mathlib.Text.{◌==◌ as str_eq}
use ms_calendar_service.Base.{
  ℕ, ◌≡◌, ◌≢◌, ◌≤◌, ◌<◌, ◌+◌, inl, inr, String, Option, none, some, Bool, true, false, ◌&&◌, List,
  [], ◌∷◌, find, if◌then◌else◌, refl, arith, Bool-cases, Option-cases, eq_iff, ap,
}
use ms_calendar_service.Booking.Rows.{
  Status, pending, accepted, confirmed, completed, cancelled_by_client, Event, Group, Db,
  group_by_id,
}
use ms_calendar_service.Update.Rows.{find-update_rows}
use ms_calendar_service.Update.Persist.{update_rows, has_id}
use ms_calendar_service.Platform.{
  allowed, has_key, set_group_status, with_status, changed_for, target_ids, StatusResult, Changed,
  event_missing, group_missing, not_allowed, status_changed, change_event_status,
}

-- How far a status is in the life of a booking.
abbrev pub rank : Status → ℕ
rank pending = 0
rank accepted = 1
rank confirmed = 2
rank completed = 3
rank cancelled_by_client = 3
rank _ = 4

allowed-rank : (s t : Status) → allowed s t ≡ true → rank s < rank t
unfolding allowed
allowed-rank s t h = ground arith

rank-le : (s : Status) → rank s ≤ 4
rank-le s = ground arith

-- The rank of a group; one that is missing cannot move.
abbrev rank_of : Option Group → ℕ
rank_of none = 4
rank_of (some g) = rank g.status

abbrev pub rank_in : Db → String → ℕ
rank_in db id = rank_of (group_by_id db id)

-- What the new status does to the rank of a group.
pub find-same :
    (id : String) (status : Status) (gs : List Group) (g : Group)
    → find (has_key id) gs ≡ some g
    → find (has_key id) (update_rows (has_key id) (set_group_status status) gs)
      ≡ some (set_group_status status g)
unfolding update_rows
find-same id status [] g h = cc
find-same id status (h ∷ gs) g k = elim (Bool-cases (str_eq h.id id)) [
  | inl e ↦
      let same : h ≡ g = cc (rw e at k) in
      rw e (rw e (ap (λ x. some (set_group_status status x)) same))
  | inr e ↦ rw e (rw e (find-same id status gs g (rw e at k)))
]

-- A request about an event.
pub record StatusRequest : Type 0 where
  pub id : String
  pub status : Status
  pub all_group : Bool

abbrev pub handle : StatusRequest → Db → StatusResult × Db
handle r db = change_event_status r.id r.status r.all_group db

-- The request finds its event in the group, and its status follows that of the group.
abbrev pub Changes : StatusRequest → String → Db → Type 0
Changes r id_group db =
    (e : Event) × (g : Group) × (find (has_id r.id) db.events ≡ some e)
    × (e.id_group ≡ id_group)
    × (group_by_id db id_group ≡ some g)
    × (allowed g.status r.status ≡ true)

-- What a request does: it leaves the database as it is, or changes the status of one group.
pub data Handled (r : StatusRequest) (db : Db) : Type 0 where
  refused :
      (res : StatusResult)
      → ((c : Changed) → res ≢ status_changed c)
      → handle r db ≡ (res, db)
      → Handled r db
  done :
      (id_group : String) (c : Changed)
      → Changes r id_group db
      → handle r db ≡ (status_changed c, with_status id_group r.status db)
      → Handled r db

pub handled : (r : StatusRequest) (db : Db) → Handled r db
unfolding change_event_status
handled r db = elim (Option-cases (find (has_id r.id) db.events)) [
  | inl e ↦ Handled.refused event_missing (λ c k. cc) (rw e refl)
  | inr (ev, e) ↦ elim (Option-cases (group_by_id db ev.id_group)) [
    | inl f ↦ Handled.refused group_missing (λ c k. cc) (rw (e, f) refl)
    | inr (g, f) ↦ elim (Bool-cases (allowed g.status r.status)) [
      | inr k ↦ Handled.refused not_allowed (λ c k. cc) (rw (e, f, k) refl)
      | inl k ↦
          Handled.done ev.id_group
            (changed_for (target_ids r.id r.all_group ev.id_group db) g.status r.status)
            (ev, g, e, refl, f, k) (rw (e, f, k) refl)
    ]
  ]
]

-- Does the request change the status of the group?
abbrev is_of_group : String → Option Event → Bool
is_of_group id_group none = false
is_of_group id_group (some e) = str_eq e.id_group id_group

abbrev is_changed : StatusResult → Bool
is_changed (status_changed c) = true
is_changed _ = false

abbrev pub is_change : String → StatusRequest → Db → Bool
is_change id_group r db =
    is_changed (handle r db).0 && is_of_group id_group (find (has_id r.id) db.events)

-- The number of changes of the group's status in a run of requests.
abbrev pub changes_in : String → List StatusRequest → Db → ℕ
changes_in id_group [] db = 0
changes_in id_group (r ∷ rs) db =
    (if is_change id_group r db then 1 else 0) + changes_in id_group rs (handle r db).1

unchanged_lem :
    (res : StatusResult) → ((c : Changed) → res ≢ status_changed c) → is_changed res ≡ false
unchanged_lem event_missing n = refl
unchanged_lem group_missing n = refl
unchanged_lem not_allowed n = refl
unchanged_lem (status_changed c) n = absurd (n c refl)

with_status-rank :
    (id_group g : String) (grp : Group) (status : Status) (db : Db)
    → group_by_id db g ≡ some grp
    → allowed grp.status status ≡ true
    → (if str_eq g id_group then 1 else 0) + rank_in db id_group
      ≤ rank_in (with_status g status db) id_group
unfolding with_status
with_status-rank id_group g grp status db stands ok = elim (Bool-cases (str_eq g id_group)) [
  | inl e ↦
      let same : g ≡ id_group = ground (arith, eq_iff g id_group) in
      let moved = find-same g status db.groups grp stands in
      rw e (rw (← same, stands, moved) (omega (arith, allowed-rank grp.status status ok)))
  | inr e ↦
      let apart : g ≢ id_group = ground (arith, eq_iff g id_group) in
      rw (e, find-update_rows id_group g (set_group_status status) db.groups (λ h. refl) apart)
        (omega arith)
]

step-rank :
    (id_group : String) (r : StatusRequest) (db : Db)
    → (if is_change id_group r db then 1 else 0) + rank_in db id_group
      ≤ rank_in (handle r db).1 id_group
step-rank id_group r db = elim (handled r db) [
  | refused res n h ↦ rw (h, unchanged_lem res n) (omega arith)
  | done g c (e, grp, found, mine, stands, ok) h ↦
      rw (h, found, mine) (with_status-rank id_group g grp r.status db stands ok)
]

rank_of-le : (g : Option Group) → rank_of g ≤ 4
rank_of-le none = omega arith
rank_of-le (some g) = rank-le g.status

-- In any run of requests to change the status of events, with no other request among them, the
-- status of a booking changes at most four times.
pub changes_in-bounded :
    (id_group : String) (rs : List StatusRequest) (db : Db)
    → changes_in id_group rs db + rank_in db id_group ≤ 4
changes_in-bounded id_group [] db = omega (arith, rank_of-le (group_by_id db id_group))
changes_in-bounded id_group (r ∷ rs) db =
    omega (arith, step-rank id_group r db, changes_in-bounded id_group rs (handle r db).1)
