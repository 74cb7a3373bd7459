-- ===== src/Platform/Deleted.antt =====
-- What the deletion of events leaves behind.
use mathlib.Core.List.Memᴰ as Mem
use text.Mathlib.Text.{◌==◌ as str_eq}
use ms_calendar_service.Base.{
  ◌≡◌, inl, inr, String, true, false, not, List, [], ◌∷◌, keep, any, refl, arith, Bool-cases, All,
  eq_iff,
}
use ms_calendar_service.Base.Members.{keep-Memᴰ, Memᴰ→any, any→Memᴰ}
use ms_calendar_service.Base.Sets.{add_all_adds}
use ms_calendar_service.Booking.Rows.{Event, Group, Participant, Db}
use ms_calendar_service.Platform.Commands.{
  is_among, id_group_of_event, group_ids_of, has_events, is_orphaned, delete_event,
}

-- Every group, and every participant, is of a booking with an event.
abbrev pub IsPeopled : Db → Type 0
IsPeopled db =
    All (λ (g : Group). has_events db.events g.id ≡ true) db.groups
    × All (λ (p : Participant). has_events db.events p.id_group ≡ true) db.participants

-- A booking with an event is not orphaned only if it has one left.
left-has_events :
    (ids : List String) (db : Db) (id_group : String)
    → has_events db.events id_group ≡ true
    → is_orphaned (group_ids_of ids db) (delete_event ids db).events id_group ≡ false
    → has_events (delete_event ids db).events id_group ≡ true
unfolding delete_event group_ids_of
left-has_events ids db id_group h k =
    let (e, m, t) = any→Memᴰ (λ (e : Event). str_eq e.id_group id_group) db.events h in
    elim (Bool-cases (is_among ids e)) [
      | inr out ↦
          let stays = keep-Memᴰ (λ (x : Event). not (is_among ids x)) e db.events m (rw out refl) in
          Memᴰ→any (λ (x : Event). str_eq x.id_group id_group) stays t
      | inl listed ↦
          let touched =
            add_all_adds (id_group_of_event e) _ []
              (Mem.map id_group_of_event (keep-Memᴰ (is_among ids) e db.events m listed)) in
          let same : str_eq id_group e.id_group ≡ true =
            ground (arith, eq_iff e.id_group id_group, eq_iff id_group e.id_group) in
          let one : any (str_eq id_group) (group_ids_of ids db) ≡ true =
            Memᴰ→any (str_eq id_group) touched same in
          ground (arith, one, k)
    ]

module _ (ids : List String) (db : Db) {A : Type 0} (key : A → String) where
  kept-All :
      (xs : List A)
      → All (λ x. has_events db.events (key x) ≡ true) xs
      → All
          (λ x. has_events (delete_event ids db).events (key x) ≡ true)
          (keep
            (λ x. not (is_orphaned (group_ids_of ids db) (delete_event ids db).events (key x)))
            xs)
  kept-All [] h = tt
  kept-All (x ∷ xs) (p, h) =
      elim (Bool-cases (is_orphaned (group_ids_of ids db) (delete_event ids db).events (key x))) [
        | inl e ↦ rw e (kept-All xs h)
        | inr e ↦ rw e (left-has_events ids db (key x) p e, kept-All xs h)
      ]

-- The deletion of events leaves no booking without an event, and no seat in one, if there was none
-- before: the groups and the participants that lose their last event go with it.
pub delete_event-IsPeopled :
    (ids : List String) (db : Db) → IsPeopled db → IsPeopled (delete_event ids db)
unfolding delete_event
delete_event-IsPeopled ids db (groups, seats) = (
  kept-All ids db (λ (g : Group). g.id) db.groups groups,
  kept-All ids db (λ (p : Participant). p.id_group) db.participants seats,
)
