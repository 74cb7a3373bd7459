-- ===== src/Guard/Counts.antt =====
-- A booking that was let in keeps the limits.
use mathlib.Core.List.{map-append, append-nil}
use text.Mathlib.Text.{◌==◌ as str_eq}
use ms_calendar_service.Base.{
  ℕ, suc, ◌≡◌, ◌≢◌, ◌≤◌, ◌<◌, inl, inr, String, Bool, false, List, [], ◌∷◌, ◌++◌, length, keep,
  find, any, if◌then◌else◌, refl, arith, Bool-cases, All, length-append, keep-append, eq_iff,
}
use ms_calendar_service.Base.Members.{All-map}
use ms_calendar_service.Base.Sets.{add_all}
use ms_calendar_service.Booking.Rows.{Group, Participant, Db}
use ms_calendar_service.Guard.{next, RawBody}
use ms_calendar_service.Guard.Limits.{is_participation, id_group_of, count_bookings, per_day}
use ms_calendar_service.Guard.Chain.{GuardDeps, Admitted, client_add_guards}
use ms_calendar_service.Guard.Admitted.{day_count, client_add_guards-IsAdmitted}

add_all-grows :
    (x : String) (ids seen : List String)
    → length (add_all seen (ids ++ x ∷ [])) ≤ suc (length (add_all seen ids))
unfolding add_all
add_all-grows x [] seen = elim (Bool-cases (any (str_eq x) seen)) [
  | inl e ↦ rw e (omega arith)
  | inr e ↦ rw e (omega (arith, length-append seen (x ∷ [])))
]
add_all-grows x (id ∷ ids) seen =
    add_all-grows x ids (if any (str_eq id) seen then seen else seen ++ id ∷ [])

module _ {A : Type 0} where
  keep-cong : (p q : A → Bool) (xs : List A) → All (λ x. p x ≡ q x) xs → keep p xs ≡ keep q xs
  keep-cong p q [] h = refl
  keep-cong p q (x ∷ xs) (e, h) = rw (e, keep-cong p q xs h) refl

  find-snoc : (p : A → Bool) (x : A) (xs : List A) → p x ≡ false → find p (xs ++ x ∷ []) ≡ find p xs
  find-snoc p x [] h = rw h refl
  find-snoc p x (y ∷ xs) h = rw (find-snoc p x xs h) refl

-- The database with a new group and one participant in it.
abbrev pub with_booking : Group → Participant → Db → Db
with_booking g p db = record db {
  groups = db.groups ++ g ∷ [];
  participants = db.participants ++ p ∷ [];
}

-- No participant is in the group yet.
abbrev pub IsFresh : Group → Db → Type 0
IsFresh g db = All (λ (q : Participant). q.id_group ≢ g.id) db.participants

module _ (g : Group) (p : Participant) (db : Db) (client : String) (from to : ℕ) where
  kept-is_participation :
      (q : Participant)
      → q.id_group ≢ g.id
      → is_participation (with_booking g p db) client from to q
        ≡ is_participation db client from to q
  kept-is_participation q n =
      let other : str_eq g.id q.id_group ≡ false = ground (arith, eq_iff g.id q.id_group) in
      rw (find-snoc (λ (h : Group). str_eq h.id q.id_group) g db.groups other) refl

  count_bookings-grows :
      IsFresh g db
      → count_bookings (with_booking g p db) client from to ≤ suc (count_bookings db client from to)
  unfolding count_bookings
  count_bookings-grows fresh =
      let kept =
        keep-cong (is_participation (with_booking g p db) client from to)
          (is_participation db client from to) db.participants
          (All-map (λ (q : Participant). q.id_group ≢ g.id) _ db.participants kept-is_participation
            fresh) in
      rw
        (
          keep-append (is_participation (with_booking g p db) client from to) db.participants
              (p ∷ []),
          kept,
        )
        (elim (Bool-cases (is_participation (with_booking g p db) client from to p)) [
          | inr e ↦
              rw (e, append-nil (keep (is_participation db client from to) db.participants))
                (omega arith)
          | inl e ↦
              rw
                (
                  e,
                  map-append id_group_of (keep (is_participation db client from to) db.participants)
                      (p ∷ []),
                )
                (add_all-grows p.id_group _ [])
        ])

-- A booking made right after its request passed the guards of client-add, as a new group with one
-- participant, leaves the customer with no more bookings on the day of its start than the limit
-- allows, where the limit is set.
pub client_add_guards-keeps_limit :
    (deps : GuardDeps) (body : RawBody) (a : Admitted) (g : Group) (p : Participant)
    → client_add_guards deps body ≡ next a
    → 0 < per_day a.config
    → IsFresh g deps.db
    → day_count (record deps { db = with_booking g p deps.db }) a ≤ per_day a.config
client_add_guards-keeps_limit deps body a g p h limited fresh =
    let (_, _, (_, below, _)) = client_add_guards-IsAdmitted deps body a h in
    let grown =
      count_bookings-grows g p deps.db a.customer.id_client_workspace
        ((deps.days_of a.time_zone).cal.start_of_day a.time.start_ws)
        ((deps.days_of a.time_zone).end_of_day a.time.start_ws) fresh in
    omega (arith, below limited, grown)
