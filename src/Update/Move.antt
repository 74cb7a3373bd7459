-- ===== src/Update/Move.antt =====
-- The transaction that moves one participant of a class (`moveSingleParticipantInClassEdit`), with
-- the creation or joining of the target event as the flow passes it on.
pub mod Laws
use text.Mathlib.Text.{◌==◌ as str_eq}
use ms_calendar_service.Base.{
  String, Option, none, some, Bool, true, false, not, ◌&&◌, ◌||◌, List, [], ◌∷◌, if◌then◌else◌,
  keep, length, ◌==◌,
}
use ms_calendar_service.Booking.{Request, Action, Result, create_or_join_group_event}
use ms_calendar_service.Booking.Rows.{Event, Participant, Db, is_seated}
use ms_calendar_service.Update.Persist.{
  UpdateError, row_missing, not_owner, join_failed, update_rows, update_event, has_id,
}

pub data MoveResult : Type 0 where
  moved : Event → Action → List String → Db → MoveResult
  move_failed : UpdateError → MoveResult

-- The participants of the customer: `idClientFk && …` also leaves the empty text out.
abbrev pub is_mine : Request → Participant → Bool
is_mine r p =
    (not (str_eq p.id_client "") && str_eq p.id_client r.customer_id)
    || (not (str_eq p.id_client_workspace "") && str_eq p.id_client_workspace r.customer_workspace)

abbrev pub active_participants : String → Db → List Participant
active_participants group_id db = keep (is_seated group_id) db.participants

abbrev pub leave : Participant → Participant
leave p = record p { deleted = true }

abbrev pub bury_event : Event → Event
bury_event e = record e { deleted = true }

-- The filter of the update that takes the customer out of the group.
abbrev pub is_leaving : String → Request → Participant → Bool
is_leaving group_id r p =
    is_seated group_id p
    && (str_eq p.id_client r.customer_id || str_eq p.id_client_workspace r.customer_workspace)

-- The only participant takes the whole class with it.
unfoldable pub close_class : String → Db → Db
close_class group_id db = record db {
  events = update_rows (λ (e : Event). str_eq e.id_group group_id) bury_event db.events;
  participants = update_rows (is_seated group_id) leave db.participants;
}

unfoldable pub leave_class : String → Request → Db → Db
leave_class group_id r db = record db {
  participants = update_rows (is_leaving group_id r) leave db.participants;
}

abbrev pub in_group : String → Event → Event
in_group group_id e = record e { id_group = group_id }

abbrev pub retargeted : Action → List String → Db → Option (Event × List Event) → MoveResult
retargeted action buried db none = move_failed row_missing
retargeted action buried db (some (e, events)) =
    moved e action buried (record db { events = events })

-- What becomes of the target event: it is put into the group of the original event.
unfoldable pub settle_target : String → List String → Result → MoveResult
settle_target group_id buried (Result.failed why) = move_failed (join_failed why)
settle_target group_id buried (Result.done e action db) =
    if str_eq e.id_group group_id
    then moved e action buried db
    else retargeted action buried db (update_event e.id (in_group group_id) db.events)

unfoldable pub leave_and_join : String → String → Request → Db → MoveResult
leave_and_join group_id original_id r db =
    if length (active_participants group_id db) == 1
    then settle_target group_id (original_id ∷ [])
        (create_or_join_group_event r (close_class group_id db))
    else settle_target group_id [] (create_or_join_group_event r (leave_class group_id r db))

abbrev pub if_mine : List Participant → MoveResult → MoveResult
if_mine [] result = move_failed not_owner
if_mine (p ∷ ps) result = result

-- `r` is the request for the target, whose group is the original one.
unfoldable pub move_single_participant : String → String → Request → Db → MoveResult
move_single_participant group_id original_id r db =
    if_mine (keep (is_mine r) (active_participants group_id db))
      (leave_and_join group_id original_id r db)
