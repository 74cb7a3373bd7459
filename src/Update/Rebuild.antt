-- ===== src/Update/Rebuild.antt =====
-- The transaction that rebuilds the segments of a booking (`rebuildBooking`).
pub mod Kept
pub mod Laws
use text.Mathlib.Text.{◌==◌ as str_eq}
use ms_calendar_service.Base.Sets.{add_all}
use ms_calendar_service.Base.{
  ℕ, String, Option, none, some, Bool, true, false, not, ◌&&◌, List, [], ◌∷◌, ◌++◌, if◌then◌else◌,
  any, length,
}
use ms_calendar_service.Availability.Assign.{Segment}
use ms_calendar_service.Booking.{Service, or_else}
use ms_calendar_service.Booking.Rows.{
  Event, Participant, Db, pending, group_by_id, holds_of_group, is_client,
}
use ms_calendar_service.Update.Persist.{
  UpdateError, row_missing, overlap_conflict, GroupEdit, name_of, duration_of, participants_of,
  place, meets, has_id, update_event, update_group_row,
}

-- `rebuildBooking`: the query leaves out the booking's own events, and reads no status.
unfoldable pub is_foreign_conflict : GroupEdit → List String → Db → Segment → Event → Bool
is_foreign_conflict g original_ids db s e =
    meets s e
    && holds_of_group (λ row. str_eq row.id_workspace g.id_workspace) (group_by_id db e.id_group)
    && not (any (λ id. has_id id e) original_ids)

-- The updates of the kept originals, one segment each; the rows are those of the database.
unfoldable pub update_kept :
    (String → Option Service)
    → String
    → List String
    → List Segment
    → List Event
    → Option (List Event × List Event)
update_kept services group_id [] segs events = some ([], events)
update_kept services group_id (id ∷ ids) [] events = some ([], events)
update_kept services group_id (id ∷ ids) (s ∷ segs) events =
    elim (update_event id (place group_id s (services s.service_id)) events) [
      | none ↦ none
      | some (e, events') ↦ elim (update_kept services group_id ids segs events') [
        | none ↦ none
        | some (es, final) ↦ some (e ∷ es, final)
      ]
    ]

-- A new event; `fresh` makes the identifier of the next row.
abbrev pub make_event :
    (List Event → String) → String → String → Segment → Option Service → List Event → Event
make_event fresh id_company group_id s svc events = record {
  id = fresh events;
  id_group = group_id;
  id_company = id_company;
  id_service = some s.service_id;
  id_user_platform = some s.user_id;
  start_date = s.start;
  end_date = s.end;
  deleted = false;
  title = or_else (name_of svc) "Servicio";
  service_name = name_of svc;
  service_duration = duration_of svc;
  service_max_participants = participants_of svc;
}

unfoldable pub create_rest :
    (List Event → String)
    → (String → Option Service)
    → String
    → String
    → List Segment
    → List Event
    → List Event × List Event
create_rest fresh services id_company group_id [] events = ([], events)
create_rest fresh services id_company group_id (s ∷ segs) events =
    let e = make_event fresh id_company group_id s (services s.service_id) events in
    let (es, final) = create_rest fresh services id_company group_id segs (events ++ e ∷ []) in
    (e ∷ es, final)

unfoldable pub drop {ℓ} : {A : Type ℓ} → ℕ → List A → List A
drop ℕ.zero xs = xs
drop (ℕ.suc n) [] = []
drop (ℕ.suc n) (x ∷ xs) = drop n xs

abbrev pub bury : Event → Event
bury e = record e { deleted = true }

unfoldable pub soft_delete : List String → List Event → Option (List Event)
soft_delete [] events = some events
soft_delete (id ∷ ids) events = elim (update_event id bury events) [
  | none ↦ none
  | some (e, events') ↦ soft_delete ids events'
]

pub record RebuildInput : Type 0 where
  pub edit : GroupEdit
  pub id_company : String
  pub customer_id : String
  pub customer_workspace : String
  pub chosen_segments : List Segment
  pub original_ids : List String
  pub originals_kept : List String
  pub explicit_delete_ids : List String
  pub services : String → Option Service
  pub fresh : List Event → String

pub data RebuildResult : Type 0 where
  rebuilt : List Event → List Event → List String → Db → RebuildResult
  rebuild_failed : UpdateError → RebuildResult

-- The participant that the transaction adds has the default status.
abbrev pub participant_for : RebuildInput → Participant
participant_for input = record {
  id_group = input.edit.group_id;
  id_client = input.customer_id;
  id_client_workspace = input.customer_workspace;
  status = pending;
  deleted = false;
}

unfoldable pub ensure_participant : RebuildInput → Db → Db
ensure_participant input db =
    if any (is_client input.edit.group_id input.customer_workspace) db.participants
    then db
    else record db { participants = db.participants ++ participant_for input ∷ [] }

-- The loop over the segments that looks for other events.
unfoldable pub any_conflict : RebuildInput → Db → List Segment → Bool
any_conflict input db [] = false
any_conflict input db (s ∷ segs) =
    if any (is_foreign_conflict input.edit input.original_ids db s) db.events
    then true
    else any_conflict input db segs

-- `toSoftDeleteIds`: the explicit ones, then the kept originals beyond the segments.
unfoldable pub ids_to_delete : RebuildInput → List String
ids_to_delete input =
    add_all (add_all [] input.explicit_delete_ids)
      (drop (length input.chosen_segments) input.originals_kept)

abbrev pub deleted_rows :
    RebuildInput → Db → List Event → List Event → Option (List Event) → RebuildResult
deleted_rows input db updated created none = rebuild_failed row_missing
deleted_rows input db updated created (some events) =
    rebuilt updated created (ids_to_delete input) (record db { events = events })

abbrev pub written_rows : RebuildInput → Db → Option (List Event × List Event) → RebuildResult
written_rows input db none = rebuild_failed row_missing
written_rows input db (some (updated, events)) =
    let (created, events') =
      create_rest input.fresh input.services input.id_company input.edit.group_id
        (drop (length input.originals_kept) input.chosen_segments) events in
    deleted_rows input db updated created (soft_delete (ids_to_delete input) events')

-- From the group's own row on.
unfoldable pub rebuild_rows : RebuildInput → Db → RebuildResult
rebuild_rows input db =
    if any_conflict input db input.chosen_segments
    then rebuild_failed overlap_conflict
    else written_rows input db (
        update_kept input.services input.edit.group_id input.originals_kept input.chosen_segments
          db.events)

abbrev pub edited_rows : RebuildInput → Option Db → RebuildResult
edited_rows input none = rebuild_failed row_missing
edited_rows input (some db) = rebuild_rows input (ensure_participant input db)

unfoldable pub rebuild_booking : RebuildInput → Db → RebuildResult
rebuild_booking input db = edited_rows input (update_group_row input.edit db)
