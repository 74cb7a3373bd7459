-- ===== src/Booking/Seats.antt =====
-- The seats of a group booking, and repeated requests.
use ms_calendar_service.Base.{
  keep-append, suc, ◌≤◌, ◌<◌, ◌≡◌, ◌≢◌, String, none, some, true, false, [], ◌∷◌, refl, arith, sym,
  ◌∙◌, subst, inl, inr, Bool-cases, Option-cases, any, find, keep, length-append, any-append, ltb,
  leb, tests, eq_refl,
}
use ms_calendar_service.Booking.Rows.{Event, Db, is_client, is_seated, seats_taken}
use ms_calendar_service.Booking.{
  Request, Action, joined, already_in, slot_taken, no_seats, professional_busy, done, failed,
  capacity, is_exact, is_overlapping, participant_of, add_participant, join_existing, create_event,
  create_or_join_group_event,
}

seats_taken-add_participant :
    (r : Request) (g : String) (db : Db)
    → seats_taken g (add_participant r g db).participants ≡ suc (seats_taken g db.participants)
seats_taken-add_participant r g db =
    rw (keep-append (is_seated g) db.participants (participant_of r g ∷ []), eq_refl g)
      (omega (arith, length-append (keep (is_seated g) db.participants) (participant_of r g ∷ [])))

-- How a call on an existing event returns.
pub data Joining (r : Request) (db : Db) (e : Event) : Type 0 where
  seated :
      any (is_client e.id_group r.customer_workspace) db.participants ≡ true
      → join_existing r db e ≡ done e already_in db
      → Joining r db e
  taken : capacity r.svc ≤ 1 → join_existing r db e ≡ failed slot_taken → Joining r db e
  full :
      capacity r.svc ≤ seats_taken e.id_group db.participants
      → join_existing r db e ≡ failed no_seats
      → Joining r db e
  joining :
      seats_taken e.id_group db.participants < capacity r.svc
      → join_existing r db e ≡ done e joined (add_participant r e.id_group db)
      → Joining r db e

pub join_existing-Joining : (r : Request) (db : Db) (e : Event) → Joining r db e
unfolding join_existing
join_existing-Joining r db e =
    elim (Bool-cases (any (is_client e.id_group r.customer_workspace) db.participants)) [
      | inl already ↦ Joining.seated already (rw already)
      | inr fresh ↦ elim (Bool-cases (ltb 1 (capacity r.svc))) [
        | inr single ↦ Joining.taken (omega (tests, single)) (rw (fresh, single))
        | inl group ↦
            elim (Bool-cases (leb (capacity r.svc) (seats_taken e.id_group db.participants))) [
              | inl f ↦ Joining.full (omega (tests, f)) (rw (fresh, group, f))
              | inr s ↦ Joining.joining (omega (tests, s)) (rw (fresh, group, s))
            ]
      ]
    ]

-- How a call returns, on every branch.
pub data Outcome (r : Request) (db : Db) : Type 0 where
  on_existing :
      (e : Event)
      → find (is_exact r db) db.events ≡ some e
      → create_or_join_group_event r db ≡ join_existing r db e
      → Outcome r db
  busy :
      find (is_exact r db) db.events ≡ none
      → create_or_join_group_event r db ≡ failed professional_busy
      → Outcome r db
  creating :
      find (is_exact r db) db.events ≡ none
      → any (is_overlapping r db) db.events ≡ false
      → create_or_join_group_event r db ≡ create_event r db
      → Outcome r db

pub create_or_join_group_event-Outcome : (r : Request) (db : Db) → Outcome r db
unfolding create_or_join_group_event
create_or_join_group_event-Outcome r db = elim (Option-cases (find (is_exact r db) db.events)) [
  | inr (e, found) ↦ Outcome.on_existing e found (rw (found, create_or_join_group_event))
  | inl missing ↦ elim (Bool-cases (any (is_overlapping r db) db.events)) [
    | inl b ↦ Outcome.busy missing (rw (missing, create_or_join_group_event, b))
    | inr f ↦ Outcome.creating missing f (rw (missing, create_or_join_group_event, f))
  ]
]

-- What a call that joins an existing event has done.
pub record IsJoined (r : Request) (db : Db) (e : Event) (db' : Db) : Type 0 where
  pub seated_before : seats_taken e.id_group db.participants < capacity r.svc
  pub one_more :
      seats_taken e.id_group db'.participants ≡ suc (seats_taken e.id_group db.participants)
  pub events_kept : db'.events ≡ db.events
  pub groups_kept : db'.groups ≡ db.groups
  pub again : create_or_join_group_event r db' ≡ done e already_in db'

pub done_inv :
    {e e' : Event} {a a' : Action} {d d' : Db}
    → done e a d ≡ done e' a' d'
    → (e ≡ e') × (a ≡ a') × (d ≡ d')
done_inv h = (cc, cc, cc)

pub is_client-add :
    (r : Request) (g : String) (db : Db)
    → any (is_client g r.customer_workspace) (add_participant r g db).participants ≡ true
is_client-add r g db =
    rw
      (
        any-append (is_client g r.customer_workspace) db.participants (participant_of r g ∷ []),
        eq_refl g,
        eq_refl r.customer_workspace,
      )
      (ground arith)

join_again :
    (r : Request) (db : Db) (e : Event)
    → find (is_exact r db) db.events ≡ some e
    → create_or_join_group_event r (add_participant r e.id_group db)
      ≡ done e already_in (add_participant r e.id_group db)
unfolding create_or_join_group_event join_existing is_exact
join_again r db e found =
    rw (found, create_or_join_group_event) (rw (is_client-add r e.id_group db))

joined_of_Joining :
    (r : Request) (db : Db) (e e' : Event) (db' : Db)
    → find (is_exact r db) db.events ≡ some e'
    → Joining r db e'
    → join_existing r db e' ≡ done e joined db'
    → IsJoined r db e db'
joined_of_Joining r db e e' db' found (seated s k) h = absurd (differ (sym k ∙ h))
  where
    differ : done e' already_in db ≡ done e joined db' → ⊥
    differ x = cc
joined_of_Joining r db e e' db' found (taken s k) h = absurd (differ (sym k ∙ h))
  where
    differ : failed slot_taken ≡ done e joined db' → ⊥
    differ x = cc
joined_of_Joining r db e e' db' found (full s k) h = absurd (differ (sym k ∙ h))
  where
    differ : failed no_seats ≡ done e joined db' → ⊥
    differ x = cc
joined_of_Joining r db e e' db' found (joining s k) h =
    let (same, _, to) = done_inv (sym k ∙ h) in
    subst (λ d. IsJoined r db e d) to
      (subst (λ x. IsJoined r db x (add_participant r e'.id_group db)) same
        (record {
          seated_before = s;
          one_more = seats_taken-add_participant r e'.id_group db;
          events_kept = refl;
          groups_kept = refl;
          again = join_again r db e' found;
        }))

pub create_event-ne-joined :
    (r : Request) (db : Db) (e : Event) (db' : Db) → create_event r db ≢ done e joined db'
unfolding create_event
create_event-ne-joined r db e db' h = cc

-- A customer joins an existing event only while its group has a free seat. The group then has
-- exactly one participant more, so never more than its capacity, no event or group changes, and the
-- same request made again finds the customer already in and changes nothing.
pub create_or_join_group_event-IsJoined :
    (r : Request) (db : Db) (e : Event) (db' : Db)
    → create_or_join_group_event r db ≡ done e joined db'
    → IsJoined r db e db'
create_or_join_group_event-IsJoined r db e db' h = elim (create_or_join_group_event-Outcome r db) [
  | on_existing x found k ↦
      joined_of_Joining r db e x db' found (join_existing-Joining r db x) (sym k ∙ h)
  | busy _ k ↦ absurd (failed_ne_done (sym k ∙ h))
  | creating _ _ k ↦ absurd (create_event-ne-joined r db e db' (sym k ∙ h))
]
  where
    failed_ne_done : failed professional_busy ≡ done e joined db' → ⊥
    failed_ne_done x = cc
