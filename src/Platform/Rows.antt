-- ===== src/Platform/Rows.antt =====
-- Rows of events, one by one, through the steps of a move.
use mathlib.Core.List.{append-nil, append_assoc}
use text.Mathlib.Text.{◌==◌ as str_eq}
use ms_calendar_service.Base.{
  ◌≡◌, ◌≢◌, inl, inr, String, some, Bool, true, false, not, ◌&&◌, ◌||◌, List, [], ◌∷◌, ◌++◌, map,
  keep, find, any, any-append, refl, arith, sym, ◌∙◌, ap, Bool-cases, eq_iff,
}
use ms_calendar_service.Booking.Rows.{Event, Group, Participant, Db, is_live_in}
use ms_calendar_service.Update.Persist.{update_rows, has_id}
use ms_calendar_service.Platform.{id_of, has_key}
use ms_calendar_service.Platform.Commands.{is_among}
use ms_calendar_service.Platform.UpdateById.{UpdateEventInput, moved_row}
use ms_calendar_service.Platform.Split.{
  clone_seat, Stretch, CloneSource, stretch_events, set_id_group, split_all, split_off,
  clone_group_with_participants,
}
use ms_calendar_service.Platform.Segments.{flatten}

-- Has one of the events the identifier of this one?
abbrev pub shares : Event → List Event → Bool
shares e xs = any (λ (x : Event). str_eq e.id x.id) xs

is_among-map : (e : Event) (xs : List Event) → is_among (map id_of xs) e ≡ shares e xs
is_among-map e [] = refl
is_among-map e (x ∷ xs) = ap (λ b. str_eq e.id x.id || b) (is_among-map e xs)

module _ (R : Event → Event → Type 0) where
  abbrev pub Rows : List Event → List Event → Type 0
  Rows [] [] = Unit
  Rows [] (y ∷ ys) = ⊥
  Rows (x ∷ xs) [] = ⊥
  Rows (x ∷ xs) (y ∷ ys) = R x y × Rows xs ys

pub Rows-update :
    (R : Event → Event → Type 0) (p : Event → Bool) (f : Event → Event) (xs : List Event)
    → ((x : Event) → p x ≡ true → R x (f x))
    → ((x : Event) → p x ≡ false → R x x)
    → Rows R xs (update_rows p f xs)
unfolding update_rows
Rows-update R p f [] h k = tt
Rows-update R p f (x ∷ xs) h k = elim (Bool-cases (p x)) [
  | inl e ↦ rw e (h x e, Rows-update R p f xs h k)
  | inr e ↦ rw e (k x e, Rows-update R p f xs h k)
]

pub Rows-refl :
    (R : Event → Event → Type 0) (xs : List Event) → ((x : Event) → R x x) → Rows R xs xs
Rows-refl R [] h = tt
Rows-refl R (x ∷ xs) h = (h x, Rows-refl R xs h)

pub Rows-trans :
    (R S T : Event → Event → Type 0) (xs ys zs : List Event)
    → ((x y z : Event) → R x y → S y z → T x z)
    → Rows R xs ys
    → Rows S ys zs
    → Rows T xs zs
Rows-trans R S T [] [] [] h r s = tt
Rows-trans R S T [] [] (z ∷ zs) h r s = absurd s
Rows-trans R S T [] (y ∷ ys) zs h r s = absurd r
Rows-trans R S T (x ∷ xs) [] zs h r s = absurd r
Rows-trans R S T (x ∷ xs) (y ∷ ys) [] h r s = absurd s
Rows-trans R S T (x ∷ xs) (y ∷ ys) (z ∷ zs) h (r, rs) (s, ss) =
    (h x y z r s, Rows-trans R S T xs ys zs h rs ss)

-- Only the group of a row changes, and only if one of the given events has its identifier.
abbrev pub IsRegrouped : List Event → Event → Event → Type 0
IsRegrouped live x y = (shares x live ≡ false → y ≡ x) × (y ≡ set_id_group y.id_group x)

IsRegrouped-trans :
    (live : List Event) (x y z : Event)
    → IsRegrouped live x y
    → IsRegrouped live y z
    → IsRegrouped live x z
IsRegrouped-trans live x y z (a, b) (c, d) =
    (λ h. let same = a h in c (rw same h) ∙ same, d ∙ ap (set_id_group z.id_group) b)

pub find-append :
    (id : String) (gs hs : List Group) (g : Group)
    → find (has_key id) gs ≡ some g
    → find (has_key id) (gs ++ hs) ≡ some g
find-append id [] hs g h = cc
find-append id (x ∷ gs) hs g h = elim (Bool-cases (has_key id x)) [
  | inl e ↦ rw e (rw e at h)
  | inr e ↦ rw e (find-append id gs hs g (rw e at h))
]

module _ (fresh_group : List Group → String) (source : CloneSource) (live : List Event) where
  split_off-Rows :
      (s : Stretch) (id : String) (db : Db)
      → ((x : Event) → shares x (stretch_events s) ≡ true → shares x live ≡ true)
      → Rows (IsRegrouped live) db.events (split_off source s id db).events
  unfolding clone_group_with_participants
  split_off-Rows s id db inside =
      Rows-update (IsRegrouped live) (is_among (map id_of (stretch_events s))) (set_id_group id)
        db.events
        (λ x e.
          let within = inside x (sym (is_among-map x (stretch_events s)) ∙ e) in (λ n. cc, refl))
        (λ x e. (λ n. refl, refl))

  -- The new groups take over rows of their segments only.
  pub split_all-Rows :
      (segments : List Stretch) (db : Db)
      → ((x : Event) → shares x (flatten segments) ≡ true → shares x live ≡ true)
      → Rows (IsRegrouped live) db.events (split_all fresh_group source segments db).1.events
  unfolding split_all
  split_all-Rows [] db inside = Rows-refl (IsRegrouped live) db.events (λ x. (λ n. refl, refl))
  split_all-Rows (s ∷ segments) db inside =
      let id = fresh_group db.groups in
      let both = λ (x : Event).
        any-append (λ (y : Event). str_eq x.id y.id) (stretch_events s) (flatten segments) in
      Rows-trans (IsRegrouped live) (IsRegrouped live) (IsRegrouped live) db.events
        (split_off source s id db).events (split_all fresh_group source (s ∷ segments) db).1.events
        (IsRegrouped-trans live) (split_off-Rows s id db (λ x e. inside x (both x ∙ rw e refl)))
        (split_all-Rows segments (split_off source s id db)
          (λ x e. inside x (both x ∙ ground (arith, e))))

  pub find-split_all :
      (key : String) (segments : List Stretch) (db : Db) (g : Group)
      → find (has_key key) db.groups ≡ some g
      → find (has_key key) (split_all fresh_group source segments db).1.groups ≡ some g
  unfolding split_all clone_group_with_participants
  find-split_all key [] db g h = h
  find-split_all key (s ∷ segments) db g h =
      find-split_all key segments (split_off source s (fresh_group db.groups) db) g
        (find-append key db.groups _ g h)

-- A copy of the seats for each of the groups, in their order.
abbrev pub copies : List Participant → List String → List Participant
copies seats [] = []
copies seats (id ∷ ids) =
    map (λ (p : Participant). record p { id_group = id; deleted = false }) seats ++ copies seats ids

pub split_all-copies :
    (fresh_group : List Group → String) (source : CloneSource) (segments : List Stretch) (db : Db)
    → (split_all fresh_group source segments db).1.participants
      ≡ db.participants ++ copies source.seats (split_all fresh_group source segments db).0
unfolding split_all clone_group_with_participants
split_all-copies fresh_group source [] db = sym (append-nil db.participants)
split_all-copies fresh_group source (s ∷ segments) db =
    let id = fresh_group db.groups in
    split_all-copies fresh_group source segments (split_off source s id db)
    ∙ append_assoc db.participants (map (clone_seat id) source.seats)
        (copies source.seats (split_all fresh_group source segments (split_off source s id db)).0)

-- After the move, the live events of the old group are those that do not have its identifier.
pub live-moved :
    (u : UpdateEventInput) (old id : String) (es : List Event)
    → id ≢ old
    → keep (is_live_in old) (update_rows (has_id u.id) (λ e. moved_row u id e) es)
      ≡ keep (λ (e : Event). is_live_in old e && not (has_id u.id e)) es
unfolding update_rows
live-moved u old id [] n = refl
live-moved u old id (e ∷ es) n = elim (Bool-cases (has_id u.id e)) [
  | inl t ↦
      let away : str_eq id old ≡ false = ground (arith, eq_iff id old) in
      let gone : (is_live_in old e && false) ≡ false = ground arith in
      rw (t, away, gone) (live-moved u old id es n)
  | inr t ↦
      let same : (is_live_in old e && true) ≡ is_live_in old e = ground arith in
      rw (t, same)
        (elim (Bool-cases (is_live_in old e)) [
          | inl l ↦ rw l (ap (λ l. e ∷ l) (live-moved u old id es n))
          | inr l ↦ rw l (live-moved u old id es n)
        ])
]
