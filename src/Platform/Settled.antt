-- ===== src/Platform/Settled.antt =====
-- What a change of status leaves behind.
use mathlib.Core.Bool.{true≢false}
use ms_calendar_service.Base.{
  ◌≡◌, ◌≢◌, ◌⊎◌, inl, inr, String, some, Bool, true, false, List, [], ◌∷◌, refl, arith, Bool-cases,
  ap, sym, ◌∙◌, subst, eq_iff, not, ◌&&◌,
}
use ms_calendar_service.Booking.Rows.{Status, Group, Participant, Db, is_cancelled, group_by_id}
use ms_calendar_service.Update.Rows.{find-update_rows}
use ms_calendar_service.Update.Persist.{update_rows}
use ms_calendar_service.Platform.{
  closes, opens, is_pending, is_in_group, set_seat, settle_participants, set_group_status,
  with_status, Changed, status_changed, change_event_status,
}
use ms_calendar_service.Platform.Statuses.{
  StatusRequest, refused, done, handled, Changes, find-same,
}

abbrev pub IsClosing : Status → Type 0
IsClosing status = (status ≡ Status.cancelled) ⊎ (status ≡ Status.cancelled_by_client_removed)

abbrev pub IsOpening : Status → Type 0
IsOpening status = (status ≡ Status.confirmed) ⊎ (status ≡ Status.accepted)

-- A seat before and after. If the booking is cancelled, or removed after the client cancelled it, its
-- seats that are not cancelled get its status. If it is accepted or confirmed, its pending seats are
-- accepted. Any other seat stays as it is, in particular every seat if the new status is another one.
pub record IsSettledSeat (id_group : String) (status : Status) (p q : Participant) : Type 0 where
  pub elsewhere : p.id_group ≢ id_group → q ≡ p
  pub closing :
      p.id_group ≡ id_group
      → IsClosing status
      → (is_cancelled p.status ≡ false → q ≡ record p { status = status })
        × (is_cancelled p.status ≡ true → q ≡ p)
  pub opening :
      p.id_group ≡ id_group
      → IsOpening status
      → (p.status ≡ Status.pending → q ≡ record p { status = Status.accepted })
        × (p.status ≢ Status.pending → q ≡ p)
  pub other : ¬ IsClosing status → ¬ IsOpening status → q ≡ p

module _ (R : Participant → Participant → Type 0) where
  abbrev pub Seats : List Participant → List Participant → Type 0
  Seats [] [] = Unit
  Seats [] (q ∷ qs) = ⊥
  Seats (p ∷ ps) [] = ⊥
  Seats (p ∷ ps) (q ∷ qs) = R p q × Seats ps qs

update_rows-settles :
    (R : Participant → Participant → Type 0) (test : Participant → Bool) (new : Status)
    (ps : List Participant)
    → ((p : Participant) → test p ≡ true → R p (set_seat new p))
    → ((p : Participant) → test p ≡ false → R p p)
    → Seats R ps (update_rows test (set_seat new) ps)
unfolding update_rows
update_rows-settles R test new [] h k = tt
update_rows-settles R test new (p ∷ ps) h k = elim (Bool-cases (test p)) [
  | inl e ↦ rw e (h p e, update_rows-settles R test new ps h k)
  | inr e ↦ rw e (k p e, update_rows-settles R test new ps h k)
]

Seats-refl :
    (R : Participant → Participant → Type 0) (ps : List Participant)
    → ((p : Participant) → R p p)
    → Seats R ps ps
Seats-refl R [] h = tt
Seats-refl R (p ∷ ps) h = (h p, Seats-refl R ps h)

closes-IsClosing : (s : Status) → closes s ≡ true → IsClosing s × (¬ IsOpening s)
closes-IsClosing s h = ground arith

opens-IsOpening : (s : Status) → opens s ≡ true → IsOpening s × (¬ IsClosing s)
opens-IsOpening s h = ground arith

neither : (s : Status) → closes s ≡ false → opens s ≡ false → (¬ IsClosing s) × (¬ IsOpening s)
neither s h k = ground arith

is_in_group→≡ : (id : String) (p : Participant) → is_in_group id p ≡ true → p.id_group ≡ id
is_in_group→≡ id p h = ground (arith, eq_iff p.id_group id)

is_pending→≡ : (s : Status) → is_pending s ≡ true → s ≡ Status.pending
is_pending→≡ s h = ground arith

module _ (id_group : String) (p : Participant) (same : p.id_group ≡ id_group) where
  mine-is_in_group : is_in_group id_group p ≡ true
  mine-is_in_group = ground (arith, eq_iff p.id_group id_group)

  kept :
      is_cancelled p.status ≡ false
      → (is_in_group id_group p && not (is_cancelled p.status)) ≡ false
      → ⊥
  kept k t = ground (arith, mine-is_in_group)

  waiting : p.status ≡ Status.pending → (is_in_group id_group p && is_pending p.status) ≡ false → ⊥
  waiting k t = let q : is_pending p.status ≡ true = rw k refl in ground (arith, mine-is_in_group)

settle_participants-settles :
    (id_group : String) (status : Status) (ps : List Participant)
    → Seats (IsSettledSeat id_group status) ps (settle_participants id_group status ps)
unfolding settle_participants
settle_participants-settles id_group status ps = elim (Bool-cases (closes status)) [
  | inl e ↦
      let (shut, not_open) = closes-IsClosing status e in
      rw e (
        update_rows-settles (IsSettledSeat id_group status) _ status ps
          (λ p t.
            let mine : p.id_group ≡ id_group = is_in_group→≡ id_group p (ground arith) in
            record {
              elsewhere = λ n. absurd (n mine);
              closing = λ same c. (λ k. refl, λ k. absurd (true≢false (sym k ∙ ground arith)));
              opening = λ same o. absurd (not_open o);
              other = λ c. absurd (c shut);
            })
          (λ p t. record {
            elsewhere = λ n. refl;
            closing = λ same c. (λ k. absurd (kept id_group p same k t), λ k. refl);
            opening = λ same o. absurd (not_open o);
            other = λ c. absurd (c shut);
          }))
  | inr e ↦ elim (Bool-cases (opens status)) [
    | inl f ↦
        let (opened, not_shut) = opens-IsOpening status f in
        rw (e, f)
          (update_rows-settles (IsSettledSeat id_group status) _ Status.accepted ps
            (λ p t.
              let mine : p.id_group ≡ id_group = is_in_group→≡ id_group p (ground arith) in
              record {
                elsewhere = λ n. absurd (n mine);
                closing = λ same c. absurd (not_shut c);
                opening =
                    λ same o. (λ k. refl, λ n. absurd (n (is_pending→≡ p.status (ground arith))));
                other = λ c o. absurd (o opened);
              })
            (λ p t. record {
              elsewhere = λ n. refl;
              closing = λ same c. absurd (not_shut c);
              opening = λ same o. (λ k. absurd (waiting id_group p same k t), λ n. refl);
              other = λ c o. absurd (o opened);
            }))
    | inr f ↦
        let (not_shut, not_open) = neither status e f in
        rw (e, f)
          (Seats-refl (IsSettledSeat id_group status) ps (λ p. record {
            elsewhere = λ n. refl;
            closing = λ same c. absurd (not_shut c);
            opening = λ same o. absurd (not_open o);
            other = λ c o. refl;
          }))
  ]
]

-- The result of a change: the group has the new status, the others have theirs, and the seats of the
-- group are settled.
abbrev pub IsSettled : StatusRequest → Db → Db → Type 0
IsSettled r db db' =
    (id_group : String) × Changes r id_group db
    × (db'.events ≡ db.events)
    × ((g : Group) × (group_by_id db' id_group ≡ some g) × (g.status ≡ r.status))
    × ((other : String) → id_group ≢ other → group_by_id db' other ≡ group_by_id db other)
    × Seats (IsSettledSeat id_group r.status) db.participants db'.participants

with_status-IsSettled :
    (r : StatusRequest) (db : Db) (id_group : String)
    → Changes r id_group db
    → IsSettled r db (with_status id_group r.status db)
unfolding with_status
with_status-IsSettled r db id_group (e, g, found, mine, stands, ok) = (
  id_group,
  (e, g, found, mine, stands, ok),
  refl,
  (set_group_status r.status g, find-same id_group r.status db.groups g stands, refl),
  λ other n. find-update_rows other id_group (set_group_status r.status) db.groups (λ h. refl) n,
  settle_participants-settles id_group r.status db.participants,
)

-- A request that changes a status finds its event, whose group has a status that the new one may
-- follow. Afterwards the group has the new status, and every other group and every event is as it
-- was. If the new status is cancelled, or removed after a cancellation by the client, the seats of the
-- group that were not cancelled have it; if it is accepted or confirmed, the pending seats of the group
-- are accepted; every other seat is as it was, and after a cancellation by the client all of them.
pub change_event_status-IsSettled :
    (r : StatusRequest) (db db' : Db) (c : Changed)
    → change_event_status r.id r.status r.all_group db ≡ (status_changed c, db')
    → IsSettled r db db'
change_event_status-IsSettled r db db' c h = elim (handled r db) [
  | refused res n k ↦
      let same : res ≡ status_changed c = ap (λ p. p.0) (sym k ∙ h) in absurd (n c same)
  | done id_group d changes k ↦
      subst (IsSettled r db) (ap (λ p. p.1) (sym k ∙ h))
        (with_status-IsSettled r db id_group changes)
]
