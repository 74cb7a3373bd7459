-- ===== src/Update/Move/Laws.antt =====
-- What the move of a participant of a class leaves, where others remain in the class and where the
-- target is an event of another group.
use text.Mathlib.Text.{◌==◌ as str_eq}
use ms_calendar_service.Base.{
  ◌≡◌, ◌≢◌, ◌⊎◌, String, some, true, false, List, [], ◌∷◌, ◌++◌, refl, sym, ap, ◌∙◌, arith,
  Bool-cases, Option-cases, inl, inr, any, All, eq_refl, eq_iff, subst, find, length, keep, ◌==◌,
  if◌then◌else◌,
}
use ms_calendar_service.Booking.{
  Request, Action, created, joined, Result, done, failed, is_exact, new_event, add_participant,
  given_group, ensure_group, sync_group_start_end_dates, create_event, create_or_join_group_event,
}
use ms_calendar_service.Booking.Rows.{Event, Group, Db, is_client, is_live_in, span_of, group_by_id}
use ms_calendar_service.Booking.Seats.{
  Outcome, create_or_join_group_event-Outcome, Joining, join_existing-Joining, done_inv,
  is_client-add, create_event-ne-joined,
}
use ms_calendar_service.Booking.Overlap.{join_existing-ne-created}
use ms_calendar_service.Update.Persist.{has_id, update_rows, update_event}
use ms_calendar_service.Update.Rows.{find-Memᴰ, update_event-inv}
use ms_calendar_service.Update.Move.{
  moved, is_mine, active_participants, close_class, leave_class, in_group, settle_target,
  leave_and_join, move_single_participant,
}

sync_keeps :
    (id : String) (db : Db)
    → ((sync_group_start_end_dates id db).events ≡ db.events)
      × ((sync_group_start_end_dates id db).participants ≡ db.participants)
unfolding sync_group_start_end_dates
sync_keeps id db = elim (Option-cases (span_of (keep (is_live_in id) db.events))) [
  | inl t ↦ rw (t, sync_group_start_end_dates) (refl, refl)
  | inr (st, t) ↦ rw (t, sync_group_start_end_dates) (refl, refl)
]

stored-inv :
    (r : Request) (ready : Db) (g : Group) (e : Event) (a : Action) (db' : Db)
    → any (is_client g.id r.customer_workspace) ready.participants ≡ true
    → done (new_event r g.id) created (
        sync_group_start_end_dates g.id
          (record ready { events = ready.events ++ new_event r g.id ∷ [] }))
      ≡ done e a db'
    → (e.id_group ≡ g.id)
      × (db'.events ≡ ready.events ++ e ∷ [])
      × (any (is_client g.id r.customer_workspace) db'.participants ≡ true)
stored-inv r ready g e a db' seated h =
    let stored = record ready { events = ready.events ++ new_event r g.id ∷ [] } in
    let (same, _, to) = done_inv h in
    let (events, people) = sync_keeps g.id stored in
    (
      sym (ap (λ (x : Event). x.id_group) same),
      sym (ap (λ (d : Db). d.events) to) ∙ events ∙ ap (λ x. ready.events ++ x ∷ []) same,
      ap (any (is_client g.id r.customer_workspace))
            (sym (ap (λ (d : Db). d.participants) to) ∙ people)
          ∙ seated,
    )

-- An event that is created for a group that exists is added to it, with the customer in the group.
create_event-given :
    (r : Request) (db : Db) (g : Group) (e : Event) (a : Action) (db' : Db)
    → given_group r db ≡ some g
    → create_event r db ≡ done e a db'
    → (e.id_group ≡ g.id)
      × (db'.events ≡ db.events ++ e ∷ [])
      × (any (is_client g.id r.customer_workspace) db'.participants ≡ true)
unfolding create_event ensure_group
create_event-given r db g e a db' given h =
    elim (Bool-cases (any (is_client g.id r.customer_workspace) db.participants)) [
      | inl t ↦ stored-inv r db g e a db' t (rw (given, t) at h)
      | inr t ↦
          stored-inv r (add_participant r g.id db) g e a db' (is_client-add r g.id db)
            (rw (given, t) at h)
    ]

created-inv :
    (r : Request) (db : Db) (e : Event) (db' : Db)
    → create_or_join_group_event r db ≡ done e created db'
    → create_event r db ≡ done e created db'
created-inv r db e db' h = elim (create_or_join_group_event-Outcome r db) [
  | Outcome.on_existing x _ k ↦ absurd (join_existing-ne-created r db x e db' (sym k ∙ h))
  | Outcome.busy _ k ↦ cc
  | Outcome.creating _ _ k ↦ sym k ∙ h
]

joined-inv :
    (r : Request) (db : Db) (e : Event) (db' : Db)
    → create_or_join_group_event r db ≡ done e joined db'
    → (find (is_exact r db) db.events ≡ some e)
      × (any (is_client e.id_group r.customer_workspace) db'.participants ≡ true)
joined-inv r db e db' h = elim (create_or_join_group_event-Outcome r db) [
  | Outcome.busy _ k ↦ cc
  | Outcome.creating _ _ k ↦ absurd (create_event-ne-joined r db e db' (sym k ∙ h))
  | Outcome.on_existing x found k ↦ elim (join_existing-Joining r db x) [
    | Joining.seated _ j ↦ cc
    | Joining.taken _ j ↦ cc
    | Joining.full _ j ↦ cc
    | Joining.joining _ j ↦
        let (same, _, to) = done_inv (sym j ∙ sym k ∙ h) in
        (
          found ∙ ap some same,
          subst
              (λ (y : Event).
                any (is_client y.id_group r.customer_workspace) db'.participants ≡ true)
              same
              (ap (λ (d : Db). any (is_client x.id_group r.customer_workspace) d.participants)
                  (sym to)
                ∙ is_client-add r x.id_group db),
        )
  ]
]

update_rows-All :
    (id group_id : String) (events : List Event)
    → All
        (λ y. has_id id y ≡ true → y.id_group ≡ group_id)
        (update_rows (has_id id) (in_group group_id) events)
unfolding update_rows
update_rows-All id group_id [] = tt
update_rows-All id group_id (e ∷ events) = elim (Bool-cases (has_id id e)) [
  | inl t ↦ rw t ((λ _. refl), update_rows-All id group_id events)
  | inr t ↦ rw t ((λ k. cc), update_rows-All id group_id events)
]

-- The database on which the target is looked for.
abbrev pub after_leaving : String → Request → Db → Db
after_leaving group_id r db =
    if length (active_participants group_id db) == 1
    then close_class group_id db
    else leave_class group_id r db

List-cases {ℓ} : {A : Type ℓ} (xs : List A) → (xs ≡ []) ⊎ ((x : A) × (ys : List A) × (xs ≡ x ∷ ys))
List-cases [] = inl refl
List-cases (x ∷ ys) = inr (x, ys, refl)

move-inv :
    (group_id original_id : String) (r : Request) (db : Db) (e : Event) (a : Action)
    (buried : List String) (db' : Db)
    → move_single_participant group_id original_id r db ≡ moved e a buried db'
    → (b : List String) × (settle_target group_id b
          (create_or_join_group_event r (after_leaving group_id r db))
        ≡ moved e a buried db')
unfolding move_single_participant leave_and_join
move-inv group_id original_id r db e a buried db' h =
    elim (List-cases (keep (is_mine r) (active_participants group_id db))) [
      | inl k ↦ cc
      | inr (p, ps, k) ↦ elim (Bool-cases (length (active_participants group_id db) == 1)) [
        | inl t ↦ (original_id ∷ [], rw t (rw (k, t) at h))
        | inr t ↦ ([], rw t (rw (k, t) at h))
      ]
    ]

settle-inv :
    (group_id : String) (b : List String) (res : Result) (e : Event) (a : Action)
    (buried : List String) (db' : Db)
    → settle_target group_id b res ≡ moved e a buried db'
    → (x : Event) × (mid : Db) × (res ≡ done x a mid)
      × (e.id ≡ x.id)
      × (e.id_group ≡ group_id)
      × (db'.participants ≡ mid.participants)
      × ((str_eq x.id_group group_id ≡ true) → (db'.events ≡ mid.events) × (e ≡ x))
      × ((str_eq x.id_group group_id ≡ false)
          → db'.events ≡ update_rows (has_id x.id) (in_group group_id) mid.events)
unfolding settle_target
settle-inv group_id b (failed why) e a buried db' h = cc
settle-inv group_id b (done x act mid) e a buried db' h =
    elim (Bool-cases (str_eq x.id_group group_id)) [
      | inl t ↦
          let whole : x.id_group ≡ group_id = ground (arith, eq_iff x.id_group group_id) in
          let same : x ≡ e = cc in
          let to : mid ≡ db' = cc in
          (
            x,
            mid,
            cc,
            ap (λ (y : Event). y.id) (sym same),
            ap (λ (y : Event). y.id_group) (sym same) ∙ whole,
            sym (ap (λ (d : Db). d.participants) to),
            (λ _. (sym (ap (λ (d : Db). d.events) to), sym same)),
            (λ f. cc),
          )
      | inr t ↦ elim (Option-cases (update_event x.id (in_group group_id) mid.events)) [
        | inl k ↦ cc
        | inr ((y, rows), k) ↦
            let (old, found, key, shape, final) =
              update_event-inv x.id (in_group group_id) mid.events rows y k in
            let same : y ≡ e = cc in
            let to : record mid { events = rows } ≡ db' = cc in
            (
              x,
              mid,
              cc,
              ap (λ (v : Event). v.id) (sym same ∙ shape) ∙ key,
              ap (λ (v : Event). v.id_group) (sym same ∙ shape),
              sym (ap (λ (d : Db). d.participants) to),
              (λ f. cc),
              (λ _. sym (ap (λ (d : Db). d.events) to) ∙ final),
            )
      ]
    ]

-- In a class that others attend too, a move whose target is a new event leaves the customer in the
-- group of the class: the new event is added to that group, no event of the class is removed, and
-- the customer is again one of the group's participants.
pub move_to_new_event_stays :
    (group_id original_id : String) (r : Request) (g : Group) (db : Db) (e : Event)
    (buried : List String) (db' : Db)
    → length (active_participants group_id db) ≢ 1
    → r.id_group ≡ some group_id
    → group_by_id db group_id ≡ some g
    → move_single_participant group_id original_id r db ≡ moved e created buried db'
    → (e.id_group ≡ group_id)
      × (db'.events ≡ db.events ++ e ∷ [])
      × (any (is_client group_id r.customer_workspace) db'.participants ≡ true)
unfolding leave_class
move_to_new_event_stays group_id original_id r g db e buried db' many asked found h =
    let (b, k) = move-inv group_id original_id r db e created buried db' h in
    let (x, mid, made, _, into, people, same, _) = settle-inv group_id b _ e created buried db' k in
    let single : (length (active_participants group_id db) == 1) ≡ false = ground arith in
    let left : after_leaving group_id r db ≡ leave_class group_id r db = rw single refl in
    let (_, key) = find-Memᴰ (λ (row : Group). str_eq row.id group_id) db.groups g found in
    let id : g.id ≡ group_id = ground (arith, eq_iff g.id group_id) in
    let given : given_group r (leave_class group_id r db) ≡ some g = rw asked found in
    let (at, events, seated) =
      create_event-given r (leave_class group_id r db) g x created mid given (
        created-inv r (leave_class group_id r db) x mid
          (ap (create_or_join_group_event r) (sym left) ∙ made)) in
    let target : str_eq x.id_group group_id ≡ true = rw (at, id) (eq_refl group_id) in
    let (kept, self) = same target in
    (
      into,
      kept ∙ events ∙ ap (λ y. db.events ++ y ∷ []) (sym self),
      subst (λ i. any (is_client i r.customer_workspace) db'.participants ≡ true) id
          (ap (any (is_client g.id r.customer_workspace)) people ∙ seated),
    )

-- A move whose target is an existing event of another group takes that event into the group of the
-- class that is left: the customer gets a seat in the event's former group, which has no row of the
-- event any more.
pub move_to_joined_event_breaks :
    (group_id original_id : String) (r : Request) (db : Db) (e : Event) (buried : List String)
    (db' : Db)
    → move_single_participant group_id original_id r db ≡ moved e joined buried db'
    → (x : Event) × (find
          (is_exact r (after_leaving group_id r db))
          (after_leaving group_id r db).events
        ≡ some x)
      × (e.id_group ≡ group_id)
      × (any (is_client x.id_group r.customer_workspace) db'.participants ≡ true)
      × (str_eq x.id_group group_id ≡ false
          → All (λ y. has_id x.id y ≡ true → y.id_group ≡ group_id) db'.events)
move_to_joined_event_breaks group_id original_id r db e buried db' h =
    let (b, k) = move-inv group_id original_id r db e joined buried db' h in
    let (x, mid, made, _, into, people, _, rows) = settle-inv group_id b _ e joined buried db' k in
    let (found, seated) = joined-inv r (after_leaving group_id r db) x mid made in
    (
      x,
      found,
      into,
      ap (any (is_client x.id_group r.customer_workspace)) people ∙ seated,
      λ other.
          subst (All (λ y. has_id x.id y ≡ true → y.id_group ≡ group_id)) (sym (rows other))
            (update_rows-All x.id group_id mid.events),
    )
