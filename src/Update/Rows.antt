-- ===== src/Update/Rows.antt =====
-- Laws of the row updates that the transactions of an update share, and of their conflict filters.
use mathlib.Core.List.{Memᴰ}
use text.Mathlib.Text.{◌==◌ as str_eq}
use ms_calendar_service.Base.{
  ◌≢◌, refl, ◌≡◌, ◌≤◌, ◌⊎◌, inl, inr, String, some, Bool, true, false, List, [], ◌∷◌, sym, ◌∙◌, ap,
  arith, tests, Bool-cases, Option-cases, find, ltb, eq_refl, eq_iff, any,
}
use ms_calendar_service.Availability.Assign.{Segment}
use ms_calendar_service.Booking.Rows.{Event, Group, Db, group_by_id}
use ms_calendar_service.Update.Persist.{
  GroupEdit, edit_group, update_group_row, has_id, meets, update_rows, update_event,
}

module _ {A : Type 0} where
  pub find-Memᴰ :
      (p : A → Bool) (xs : List A) (x : A) → find p xs ≡ some x → Memᴰ x xs × (p x ≡ true)
  find-Memᴰ p [] x h = cc
  find-Memᴰ p (y ∷ xs) x h = elim (Bool-cases (p y)) [
    | inl t ↦ let same : y ≡ x = cc in (Memᴰ.head (sym same), ap p (sym same) ∙ t)
    | inr t ↦ let (m, k) = find-Memᴰ p xs x (rw t at h) in (Memᴰ.tail m, k)
  ]

-- A change of other groups, which keeps their identifiers.
pub find-update_rows :
    (key other : String) (f : Group → Group) (gs : List Group)
    → ((g : Group) → (f g).id ≡ g.id)
    → other ≢ key
    → find (λ (g : Group). str_eq g.id key) (update_rows (λ (g : Group). str_eq g.id other) f gs)
      ≡ find (λ (g : Group). str_eq g.id key) gs
unfolding update_rows
find-update_rows key other f [] keeps n = refl
find-update_rows key other f (h ∷ gs) keeps n = elim (Bool-cases (str_eq h.id other)) [
  | inl e ↦
      let apart : str_eq h.id key ≡ false = ground (arith, eq_iff h.id key, eq_iff h.id other) in
      let moved : str_eq (f h).id key ≡ false = ap (λ i. str_eq i key) (keeps h) ∙ apart in
      rw (e, moved, apart) (find-update_rows key other f gs keeps n)
  | inr e ↦ rw e (elim (Bool-cases (str_eq h.id key)) [
    | inl t ↦ rw t refl
    | inr t ↦ rw t (find-update_rows key other f gs keeps n)
  ])
]

-- An update by a key returns the changed row, and changes the rows that have the key.
pub update_event-inv :
    (id : String) (f : Event → Event) (events final : List Event) (made : Event)
    → update_event id f events ≡ some (made, final)
    → (e : Event) × (find (has_id id) events ≡ some e)
      × (e.id ≡ id)
      × (made ≡ f e)
      × (final ≡ update_rows (has_id id) f events)
unfolding update_event
update_event-inv id f events final made h = elim (Option-cases (find (has_id id) events)) [
  | inl t ↦ cc
  | inr (e, t) ↦
      let (_, k) = find-Memᴰ (has_id id) events e t in
      let key : e.id ≡ id = ground (arith, eq_iff e.id id) in (e, t, key, cc, cc)
]

-- The event keeps its professional busy at some time in the workspace.
pub record KeepsBusy (id_workspace : String) (db : Db) (s : Segment) (e : Event) : Type 0 where
  pub professional : e.id_user_platform ≡ some s.user_id
  pub kept : e.deleted ≡ false
  pub group : Group
  pub found : group_by_id db e.id_group ≡ some group
  pub workspace : group.id_workspace ≡ id_workspace

abbrev pub IsClear : Segment → Event → Type 0
IsClear s e = (e.end_date ≤ s.start) ⊎ (s.end ≤ e.start_date)

pub meets-IsClear :
    (id_workspace : String) (db : Db) (s : Segment) (e : Event)
    → KeepsBusy id_workspace db s e
    → meets s e ≡ false
    → IsClear s e
meets-IsClear id_workspace db s e b h = elim (Bool-cases (ltb e.start_date s.end)) [
  | inr late ↦ inr (omega (tests, late))
  | inl early ↦ elim (Bool-cases (ltb s.start e.end_date)) [
    | inr past ↦ inl (omega (tests, past))
    | inl both ↦ cc (rw (b.professional, eq_refl s.user_id, early, both, b.kept) at h)
  ]
]

-- The group's row changes, and no event or participant.
pub update_group_row-inv :
    (g : GroupEdit) (db db' : Db)
    → update_group_row g db ≡ some db'
    → (db'.events ≡ db.events) × (db'.participants ≡ db.participants)
unfolding update_group_row
update_group_row-inv g db db' h =
    elim (Bool-cases (any (λ (row : Group). str_eq row.id g.group_id) db.groups)) [
      | inr t ↦ cc
      | inl t ↦
          let same : record db {
            groups =
                update_rows (λ (row : Group). str_eq row.id g.group_id) (edit_group g) db.groups;
          }
              ≡ db' =
            cc in
          (sym (ap (λ (d : Db). d.events) same), sym (ap (λ (d : Db). d.participants) same))
    ]
