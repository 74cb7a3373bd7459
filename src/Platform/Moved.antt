-- ===== src/Platform/Moved.antt =====
-- The move of one event into a booking of its own, and what it leaves in the old one.
use text.Mathlib.Text.{◌==◌ as str_eq}
use ms_calendar_service.Base.{
  Option, ℕ, ◌≡◌, ◌≢◌, ◌<◌, inl, inr, String, some, none, Bool, true, false, not, ◌&&◌, ◌||◌, List,
  [], ◌∷◌, ◌++◌, keep, find, if◌then◌else◌, refl, arith, sym, ap, Bool-cases, eq_iff, eq_refl, leb,
  leb_false→lt,
}
use ms_calendar_service.WebBooking.Policies.{is_present}
use ms_calendar_service.Booking.Rows.{Event, Group, Db, is_seated, group_by_id}
use ms_calendar_service.Update.Persist.{has_id}
use ms_calendar_service.Platform.{has_key}
use ms_calendar_service.Platform.UpdateById.{
  UpdateEventInput, date, build_event_update_data, MovedEvent, ByIdResult, moved_event,
  event_not_found, id_required, dates_required, date_invalid, on_event, date_or, is_sent,
  is_invalid, with_move, update_many_event, update_event_by_id, in_context,
}
use ms_calendar_service.Platform.Split.{
  CloneSource, sync_group_window, split_original_group_if_needed,
}
use ms_calendar_service.Platform.Rows.{shares, IsRegrouped}

-- A test that failed, since the value of its other branch is not the result.
else-inv :
    {A : Type 0} (b : Bool) (x y z : A) → x ≢ z → (if b then x else y) ≡ z → (b ≡ false) × (y ≡ z)
else-inv true x y z n h = absurd (n h)
else-inv false x y z n h = (refl, h)

abbrev ids_in : ByIdResult → String × String
ids_in (moved_event m) = (m.old_group_id, m.new_group_id)
ids_in _ = ("", "")

abbrev splits_in : ByIdResult → List String
splits_in (moved_event m) = m.split_group_ids
splits_in _ = []

module _ (fresh_group : List Group → String) (u : UpdateEventInput) (db db' : Db)
    (m : MovedEvent) where
  abbrev pub source_of : Event → Group → CloneSource
  source_of e g = record { group = g; seats = keep (is_seated e.id_group) db.participants }

  abbrev pub split_of : Event → Group → List String × Db
  split_of e g = split_original_group_if_needed fresh_group (source_of e g) e.id_group (
      with_move u (fresh_group db.groups) (source_of e g) (date_or u.start_date 0)
        (date_or u.end_date 0) db)

  -- What a move that succeeds has found and done.
  pub record Moving : Type 0 where
    pub e : Event
    pub g : Group
    pub found : find (has_id u.id) db.events ≡ some e
    pub live : e.deleted ≡ false
    pub stands : find (has_key e.id_group) db.groups ≡ some g
    pub ordered : date_or u.start_date 0 < date_or u.end_date 0
    pub old : m.old_group_id ≡ e.id_group
    pub new : m.new_group_id ≡ fresh_group db.groups
    pub splits : m.split_group_ids ≡ (split_of e g).0
    pub done : (sync_group_window e.id_group (split_of e g).1).1 ≡ db'

  many-Moving :
      (e : Event) (g : Group)
      → find (has_id u.id) db.events ≡ some e
      → e.deleted ≡ false
      → find (has_key e.id_group) db.groups ≡ some g
      → update_many_event fresh_group u
          (date_or u.start_date 0)
          (date_or u.end_date 0)
          e
          (source_of e g)
          db
        ≡ (moved_event m, db')
      → Moving
  many-Moving e g found live stands h =
      elim (Bool-cases (leb (date_or u.end_date 0) (date_or u.start_date 0))) [
        | inl t ↦ cc (rw t at h)
        | inr t ↦
            let k = rw t at h in
            record {
              e = e;
              g = g;
              found = found;
              live = live;
              stands = stands;
              ordered = leb_false→lt _ _ t;
              old = sym (ap (λ r. (ids_in r.0).0) k);
              new = sym (ap (λ r. (ids_in r.0).1) k);
              splits = sym (ap (λ r. splits_in r.0) k);
              done = ap (λ r. r.1) k;
            }
      ]

  context-Moving :
      (e : Event) (o : Option Group)
      → find (has_id u.id) db.events ≡ some e
      → e.deleted ≡ false
      → find (has_key e.id_group) db.groups ≡ o
      → in_context fresh_group u true e o db ≡ (moved_event m, db')
      → Moving
  context-Moving e none found live stands h = cc
  context-Moving e (some g) found live stands h = many-Moving e g found live stands h

  event-Moving :
      (o : Option Event)
      → find (has_id u.id) db.events ≡ o
      → on_event fresh_group u true o db ≡ (moved_event m, db')
      → Moving
  event-Moving none found h = cc
  event-Moving (some e) found h =
      let (live, k) =
        else-inv e.deleted (event_not_found, db)
          (in_context fresh_group u true e (group_by_id db e.id_group) db) (moved_event m, db')
          (λ x. cc) h in
      context-Moving e (group_by_id db e.id_group) found live refl k

  pub update_event_by_id-Moving :
      update_event_by_id fresh_group u true db ≡ (moved_event m, db') → Moving
  unfolding update_event_by_id
  update_event_by_id-Moving h =
      let z : ByIdResult × Db = (moved_event m, db') in
      let (_, h1) = else-inv (not (is_present u.id)) (id_required, db) _ z (λ x. cc) h in
      let (_, h2) =
        else-inv (not (is_sent u.start_date && is_sent u.end_date)) (dates_required, db) _ z
          (λ x. cc) h1 in
      let (_, h3) =
        else-inv (is_invalid u.start_date || is_invalid u.end_date) (date_invalid, db) _ z (λ x. cc)
          h2 in
      event-Moving (find (has_id u.id) db.events) refl h3

-- The new group gets an identifier that none of the groups has.
abbrev pub IsFreshKey : (List Group → String) → List Group → Type 0
IsFreshKey fresh_group gs = find (has_key (fresh_group gs)) gs ≡ none

pub find-last :
    (id : String) (gs : List Group) (g : Group)
    → find (has_key id) gs ≡ none
    → g.id ≡ id
    → find (has_key id) (gs ++ g ∷ []) ≡ some g
find-last id [] g h k = rw (k, eq_refl id) refl
find-last id (x ∷ gs) g h k = elim (Bool-cases (has_key id x)) [
  | inl e ↦ cc (rw e at h)
  | inr e ↦ rw e (find-last id gs g (rw e at h) k)
]

-- A row that has the identifier of the event has the data of the update and is in the new booking, at
-- the given times; any other row keeps all but its group, and that too unless a live event of the old
-- booking has its identifier.
abbrev pub IsMovedRow : UpdateEventInput → String → List Event → Event → Event → Type 0
IsMovedRow u id live x z =
    (has_id u.id x ≡ true
      → (z ≡ record (build_event_update_data u x) { id_group = id })
        × ((t : ℕ) → u.start_date ≡ date t → z.start_date ≡ t)
        × ((t : ℕ) → u.end_date ≡ date t → z.end_date ≡ t))
    × (has_id u.id x ≡ false → IsRegrouped live x z)

pub shares-keep :
    (x : Event) (p q : Event → Bool) (es : List Event)
    → shares x (keep (λ (e : Event). p e && q e) es) ≡ true
    → shares x (keep p es) ≡ true
shares-keep x p q [] h = cc
shares-keep x p q (e ∷ es) h = elim (Bool-cases (p e)) [
  | inr t ↦ rw t (shares-keep x p q es (rw t at h))
  | inl t ↦ elim (Bool-cases (q e)) [
    | inr s ↦ rw t (ground (arith, shares-keep x p q es (rw (t, s) at h)))
    | inl s ↦
        let k = rw (t, s) at h in
        rw t (elim (Bool-cases (str_eq x.id e.id)) [
          | inl y ↦ rw y refl
          | inr n ↦ rw n (shares-keep x p q es (rw n at k))
        ])
  ]
]

-- No live event of the old group has the identifier of the moved event any more.
pub shares-moved :
    (id : String) (x : Event) (p : Event → Bool) (es : List Event)
    → has_id id x ≡ true
    → shares x (keep (λ (e : Event). p e && not (has_id id e)) es) ≡ false
shares-moved id x p [] h = refl
shares-moved id x p (e ∷ es) h = elim (Bool-cases (has_id id e)) [
  | inl t ↦
      let gone : (p e && false) ≡ false = ground arith in rw (t, gone) (shares-moved id x p es h)
  | inr t ↦
      let apart : str_eq x.id e.id ≡ false = ground (arith, eq_iff x.id e.id, h, t) in
      elim (Bool-cases (p e)) [
        | inl s ↦ rw (t, s, apart) (shares-moved id x p es h)
        | inr s ↦ rw (t, s) (shares-moved id x p es h)
      ]
]
