-- ===== src/Platform.antt =====
-- The events that the business itself manages: here the change of a status
-- (src/features/event-platform/services/use-cases/change-event-status.use-case.ts and the tables of
-- src/features/event-platform/services/event-platform.command.service.ts), in Commands the other
-- commands, in Payload and Upsert the creation and the edit of a booking, and in Split and UpdateById
-- the update of one event. A transaction that throws leaves the database as it was.
pub mod Commands
pub mod Payload
pub mod Upsert
pub mod Statuses
pub mod Settled
pub mod Deleted
pub mod Chained
pub mod Stored
pub mod Booked
pub mod Split
pub mod UpdateById
pub mod Segments
pub mod Rows
pub mod Moved
pub mod NewBooking
pub mod Emptied
mod Examples
mod MoveExamples
use text.Mathlib.Text.{◌==◌ as str_eq}
use ms_calendar_service.Base.{
  ℕ, String, Option, none, some, Bool, true, false, not, ◌&&◌, ◌||◌, List, [], ◌∷◌, map, keep, find,
  any, if◌then◌else◌,
}
use ms_calendar_service.Base.Sets.{add_all}
use ms_calendar_service.Booking.Rows.{
  Status, pending, accepted, confirmed, completed, cancelled, cancelled_by_client,
  cancelled_by_client_removed, paid, no_show, Event, Group, Participant, Db, is_cancelled,
  is_live_in, group_by_id,
}
use ms_calendar_service.Update.Persist.{update_rows, has_id}

-- `ALLOWED`: the statuses that may follow one.
unfoldable pub allowed : Status → Status → Bool
allowed pending accepted = true
allowed pending cancelled = true
allowed pending cancelled_by_client = true
allowed accepted confirmed = true
allowed accepted cancelled = true
allowed accepted cancelled_by_client = true
allowed confirmed completed = true
allowed confirmed cancelled = true
allowed confirmed cancelled_by_client = true
allowed completed paid = true
allowed completed cancelled = true
allowed cancelled_by_client cancelled_by_client_removed = true
allowed _ _ = false

-- `PARTICIPANT_ALLOWED`
unfoldable pub participant_allowed : Status → Status → Bool
participant_allowed pending accepted = true
participant_allowed pending cancelled_by_client = true
participant_allowed _ _ = false

-- `_shouldNotifyOnTransition`
unfoldable pub should_notify_on_transition : Status → Status → Bool
should_notify_on_transition pending accepted = true
should_notify_on_transition pending confirmed = true
should_notify_on_transition pending cancelled = true
should_notify_on_transition pending cancelled_by_client = true
should_notify_on_transition pending cancelled_by_client_removed = true
should_notify_on_transition _ _ = false

abbrev pub closes : Status → Bool
closes cancelled = true
closes cancelled_by_client_removed = true
closes _ = false

abbrev pub opens : Status → Bool
opens confirmed = true
opens accepted = true
opens _ = false

abbrev pub is_pending : Status → Bool
is_pending pending = true
is_pending _ = false

-- The two `updateMany` on the participants of the group.
abbrev pub is_in_group : String → Participant → Bool
is_in_group id_group p = str_eq p.id_group id_group

abbrev pub set_seat : Status → Participant → Participant
set_seat status p = record p { status = status }

unfoldable pub settle_participants : String → Status → List Participant → List Participant
settle_participants id_group status ps =
    if closes status
    then update_rows (λ (p : Participant). is_in_group id_group p && not (is_cancelled p.status))
        (set_seat status) ps
    else (if opens status
        then update_rows (λ (p : Participant). is_in_group id_group p && is_pending p.status)
            (set_seat accepted) ps
        else ps)

abbrev pub has_key : String → Group → Bool
has_key id g = str_eq g.id id

abbrev pub set_group_status : Status → Group → Group
set_group_status status g = record g { status = status }

unfoldable pub with_status : String → Status → Db → Db
with_status id_group status db = record db {
  groups = update_rows (has_key id_group) (set_group_status status) db.groups;
  participants = settle_participants id_group status db.participants;
}

-- The identifiers of the events that are answered, and of those that the customer is told of.
pub record Changed : Type 0 where
  pub events : List String
  pub notify_events : List String

pub data StatusResult : Type 0 where
  event_missing group_missing not_allowed : StatusResult
  status_changed : Changed → StatusResult

abbrev pub id_of : Event → String
id_of e = e.id

abbrev pub target_ids : String → Bool → String → Db → List String
target_ids id all_group id_group db =
    if all_group then map id_of (keep (is_live_in id_group) db.events) else id ∷ []

abbrev pub changed_for : List String → Status → Status → Changed
changed_for ids current status = record {
  events = ids;
  notify_events = if should_notify_on_transition current status then ids else [];
}

abbrev pub status_step : String → Status → Bool → Db → Event → Option Group → StatusResult × Db
status_step id status all_group db e none = (group_missing, db)
status_step id status all_group db e (some g) =
    if allowed g.status status
    then (
      status_changed (changed_for (target_ids id all_group e.id_group db) g.status status),
      with_status e.id_group status db,
    )
    else (not_allowed, db)

abbrev pub status_of_event : String → Status → Bool → Db → Option Event → StatusResult × Db
status_of_event id status all_group db none = (event_missing, db)
status_of_event id status all_group db (some e) =
    status_step id status all_group db e (group_by_id db e.id_group)

unfoldable pub change_event_status : String → Status → Bool → Db → StatusResult × Db
change_event_status id status all_group db =
    status_of_event id status all_group db (find (has_id id) db.events)

-- The notification of the command: none, or that of an acceptance or a rejection.
pub data ActionKey : Type 0 where
  accept_request reject_request : ActionKey

unfoldable pub action_section_type : Status → Option ActionKey
action_section_type accepted = some accept_request
action_section_type confirmed = some accept_request
action_section_type cancelled = some reject_request
action_section_type cancelled_by_client = some reject_request
action_section_type cancelled_by_client_removed = some reject_request
action_section_type _ = none
