-- ===== src/Update/Persist.antt =====
-- The transactions of an update. A thrown error is a failure, and then nothing is written; the
-- update of a row by a key that no row has throws too.
use text.Mathlib.Text.{◌==◌ as str_eq}
use ms_calendar_service.Base.{
  ℕ, String, Option, none, some, Bool, false, not, ◌&&◌, List, [], ◌∷◌, if◌then◌else◌, ltb, any,
  find,
}
use ms_calendar_service.Availability.Assign.{Segment}
use ms_calendar_service.Booking.{Service, Failure, or_else}
use ms_calendar_service.Booking.Rows.{
  Event, Group, Db, is_text, is_cancelled, group_by_id, holds_of_group,
}

pub data UpdateError : Type 0 where
  row_missing overlap_conflict not_owner : UpdateError
  join_failed : Failure → UpdateError

-- What every update writes on the group.
pub record GroupEdit : Type 0 where
  pub group_id : String
  pub id_workspace : String
  pub note : Option String
  pub is_comment_read : Option Bool
  pub time_zone : String

abbrev pub edit_group : GroupEdit → Group → Group
edit_group g row = record row {
  comment_client = g.note;
  is_comment_read = or_else g.is_comment_read false;
  time_zone = g.time_zone;
}

module _ {A : Type 0} where
  -- `update` with a filter on the rows; `updateMany` is the same without the test for a row.
  unfoldable pub update_rows : (A → Bool) → (A → A) → List A → List A
  update_rows p f [] = []
  update_rows p f (x ∷ xs) = (if p x then f x else x) ∷ update_rows p f xs

abbrev pub has_id : String → Event → Bool
has_id id e = str_eq e.id id

unfoldable pub update_group_row : GroupEdit → Db → Option Db
update_group_row g db =
    if any (λ (row : Group). str_eq row.id g.group_id) db.groups
    then some (record db {
      groups = update_rows (λ (row : Group). str_eq row.id g.group_id) (edit_group g) db.groups;
    })
    else none

-- The data of an event for a segment, with the snapshot of its service.
abbrev pub name_of : Option Service → Option String
name_of none = none
name_of (some svc) = svc.name

abbrev pub duration_of : Option Service → Option ℕ
duration_of none = none
duration_of (some svc) = svc.duration

abbrev pub participants_of : Option Service → Option ℕ
participants_of none = none
participants_of (some svc) = svc.max_participants

abbrev pub place : String → Segment → Option Service → Event → Event
place group_id s svc e = record e {
  id_group = group_id;
  id_service = some s.service_id;
  id_user_platform = some s.user_id;
  start_date = s.start;
  end_date = s.end;
  service_name = name_of svc;
  service_duration = duration_of svc;
  service_max_participants = participants_of svc;
}

-- A live event of the segment's professional that meets it.
abbrev pub meets : Segment → Event → Bool
meets s e =
    is_text e.id_user_platform s.user_id
    && ltb e.start_date s.end
    && ltb s.start e.end_date
    && not e.deleted

-- The row that an update by a key returns.
unfoldable pub update_event : String → (Event → Event) → List Event → Option (Event × List Event)
update_event id f events = elim (find (has_id id) events) [
  | none ↦ none
  | some e ↦ some (f e, update_rows (has_id id) f events)
]

pub data SingleResult : Type 0 where
  updated_in_place : Event → Db → SingleResult
  single_failed : UpdateError → SingleResult

-- The filter on another event at the time of the one segment.
unfoldable pub is_conflict : GroupEdit → Segment → String → Db → Event → Bool
is_conflict g s original_id db e =
    meets s e
    && holds_of_group
        (λ row. str_eq row.id_workspace g.id_workspace && not (is_cancelled row.status))
        (group_by_id db e.id_group)
    && not (has_id original_id e)

abbrev pub stored_single : Option (Event × List Event) → Db → SingleResult
stored_single none db = single_failed row_missing
stored_single (some (e, events)) db = updated_in_place e (record db { events = events })

abbrev pub edited_single : GroupEdit → Segment → Option Service → String → Option Db → SingleResult
edited_single g s svc original_id none = single_failed row_missing
edited_single g s svc original_id (some db) =
    stored_single (update_event original_id (place g.group_id s svc) db.events) db

-- `updateSingleEvent`
unfoldable pub update_single_event :
    GroupEdit → Segment → Option Service → String → Db → SingleResult
update_single_event g s svc original_id db =
    if any (is_conflict g s original_id db) db.events
    then single_failed overlap_conflict
    else edited_single g s svc original_id (update_group_row g db)
