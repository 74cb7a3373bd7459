-- ===== src/Booking/Overlap.antt =====
-- Bookings of one professional at the same time.
use mathlib.Core.Bool.{true≢false}
use mathlib.Core.List.{Memᴰ}
use mathlib.Core.List.Memᴰ as Mem
use text.Mathlib.Text.{◌==◌ as str_eq}
use ms_calendar_service.Base.{
  ◌≤◌, ◌≡◌, ◌≢◌, ◌⊎◌, none, some, true, false, arith, sym, ◌∙◌, All, inl, inr, Bool-cases, any,
  find, tests, refl, eq_refl, ltb, eq_iff, Option-cases, String, Bool, List, [], ◌∷◌, ◌==◌,
}
use ms_calendar_service.Base.Members.{any_false→All, All-map}
use ms_calendar_service.Booking.Rows.{
  Event, Group, Participant, Db, is_client, group_by_id, is_cancelled,
}
use ms_calendar_service.Booking.{
  Request, created, slot_taken, professional_busy, done, failed, capacity, is_exact, is_overlapping,
  join_existing, create_or_join_group_event,
}
use ms_calendar_service.Booking.Seats.{Outcome, create_or_join_group_event-Outcome}

-- The event keeps its professional busy in the request's workspace: it is not deleted, and its group
-- belongs to the workspace and is not cancelled.
pub record IsLive (r : Request) (db : Db) (e : Event) : Type 0 where
  pub professional : e.id_user_platform ≡ some r.seg.user_id
  pub kept : e.deleted ≡ false
  pub group : Group
  pub found : group_by_id db e.id_group ≡ some group
  pub workspace : group.id_workspace ≡ r.id_workspace
  pub standing : is_cancelled group.status ≡ false

abbrev pub IsApart : Request → Event → Type 0
IsApart r e = (e.end_date ≤ r.seg.start) ⊎ (r.seg.end ≤ e.start_date)

is_overlapping_live :
    (r : Request) (db : Db) (e : Event)
    → IsLive r db e
    → ltb e.start_date r.seg.end ≡ true
    → ltb r.seg.start e.end_date ≡ true
    → is_overlapping r db e ≡ true
unfolding is_overlapping
is_overlapping_live r db e l early meets = rw (
  l.professional,
  eq_refl r.seg.user_id,
  early,
  meets,
  l.kept,
  l.found,
  l.workspace,
  eq_refl r.id_workspace,
  l.standing,
)

IsApart-of_free :
    (r : Request) (db : Db) (e : Event)
    → is_overlapping r db e ≡ false
    → IsLive r db e
    → IsApart r e
IsApart-of_free r db e h l = elim (Bool-cases (ltb e.start_date r.seg.end)) [
  | inr late ↦ inr (omega (tests, late))
  | inl early ↦ elim (Bool-cases (ltb r.seg.start e.end_date)) [
    | inr past ↦ inl (omega (tests, past))
    | inl meets ↦ absurd (true≢false (sym (is_overlapping_live r db e l early meets) ∙ h))
  ]
]

pub join_existing-ne-created :
    (r : Request) (db : Db) (x e : Event) (db' : Db) → join_existing r db x ≢ done e created db'
unfolding join_existing
join_existing-ne-created r db x e db' = ground arith

-- A new event is created only if no event with the same service, professional and times exists and
-- every live event of the professional in the workspace ends by its start or begins at its end or
-- later.
pub create_or_join_group_event-IsApart :
    (r : Request) (db : Db) (e : Event) (db' : Db)
    → create_or_join_group_event r db ≡ done e created db'
    → (find (is_exact r db) db.events ≡ none) × All (λ x. IsLive r db x → IsApart r x) db.events
create_or_join_group_event-IsApart r db e db' h = elim (create_or_join_group_event-Outcome r db) [
  | Outcome.on_existing x _ k ↦ absurd (join_existing-ne-created r db x e db' (sym k ∙ h))
  | Outcome.busy _ k ↦ absurd (failed_ne_done (sym k ∙ h))
  | Outcome.creating missing free _ ↦ (
    missing,
    All-map (λ x. is_overlapping r db x ≡ false) (λ x. IsLive r db x → IsApart r x) db.events
        (IsApart-of_free r db) (any_false→All (is_overlapping r db) db.events free),
  )
]
  where
    failed_ne_done : failed professional_busy ≡ done e created db' → ⊥
    failed_ne_done x = cc

-- The event has the service, the professional and the times of the request, in the request's workspace.
pub record HasSlot (r : Request) (db : Db) (e : Event) : Type 0 where
  pub service : e.id_service ≡ some r.seg.service_id
  pub professional : e.id_user_platform ≡ some r.seg.user_id
  pub start : e.start_date ≡ r.seg.start
  pub end : e.end_date ≡ r.seg.end
  pub group : Group
  pub found : group_by_id db e.id_group ≡ some group
  pub workspace : group.id_workspace ≡ r.id_workspace

HasSlot-is_exact : (r : Request) (db : Db) (e : Event) → HasSlot r db e → is_exact r db e ≡ true
unfolding is_exact
HasSlot-is_exact r db e s =
    let start_same : (r.seg.start == r.seg.start) ≡ true = ground arith in
    let end_same : (r.seg.end == r.seg.end) ≡ true = ground arith in
    rw (
      s.service,
      eq_refl r.seg.service_id,
      s.professional,
      eq_refl r.seg.user_id,
      s.start,
      s.end,
      start_same,
      end_same,
      s.found,
      s.workspace,
      eq_refl r.id_workspace,
    )

member_found :
    (p : Event → Bool) (e : Event) (es : List Event) → Memᴰ e es → p e ≡ true → find p es ≢ none
member_found p e [] m h k = absurd (Mem.not-nil m)
member_found p e (x ∷ es) (Memᴰ.head y) h k = let j : p x ≡ true = rw (← y) h in cc (rw j at k)
member_found p e (x ∷ es) (Memᴰ.tail m) h k = elim (Bool-cases (p x)) [
  | inl t ↦ cc (rw t at k)
  | inr t ↦ member_found p e es m h (rw t at k)
]

no_client :
    (id_group client : String) (ps : List Participant)
    → All (λ (p : Participant). p.id_client_workspace ≢ client) ps
    → any (is_client id_group client) ps ≡ false
no_client id_group client [] h = refl
no_client id_group client (p ∷ ps) (n, h) =
    let other : str_eq p.id_client_workspace client ≡ false =
      ground (arith, eq_iff p.id_client_workspace client) in
    let absent : is_client id_group client p ≡ false = ground (arith, other) in
    rw absent (no_client id_group client ps h)

-- A deleted event with the service, the professional and the times of a request in its workspace still
-- makes the request fail as taken, if the service has one seat and the customer has no seat anywhere.
pub deleted_event_blocks :
    (r : Request) (db : Db) (e : Event)
    → Memᴰ e db.events
    → e.deleted ≡ true
    → HasSlot r db e
    → capacity r.svc ≤ 1
    → All (λ (p : Participant). p.id_client_workspace ≢ r.customer_workspace) db.participants
    → create_or_join_group_event r db ≡ failed slot_taken
unfolding create_or_join_group_event join_existing
deleted_event_blocks r db e m gone slot single stranger =
    elim (Option-cases (find (is_exact r db) db.events)) [
      | inl t ↦ absurd (member_found (is_exact r db) e db.events m (HasSlot-is_exact r db e slot) t)
      | inr (x, t) ↦
          rw (t, create_or_join_group_event)
            (rw (no_client x.id_group r.customer_workspace db.participants stranger) (ground arith))
    ]
