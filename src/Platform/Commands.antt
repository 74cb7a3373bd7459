-- ===== src/Platform/Commands.antt =====
-- The commands of the business on its events (EventPlatformCommandService of
-- src/features/event-platform/services/event-platform.command.service.ts): the answer of a participant,
-- the deletion of events and the mark of a read comment.
use text.Mathlib.Text.{◌==◌ as str_eq}
use ms_calendar_service.Base.{
  String, Option, none, some, Bool, true, not, ◌&&◌, List, [], ◌∷◌, map, keep, find, any,
  if◌then◌else◌,
}
use ms_calendar_service.Base.Sets.{add_all}
use ms_calendar_service.Booking.Rows.{
  Status, accepted, cancelled_by_client, Event, Group, Participant, Db, group_by_id,
}
use ms_calendar_service.Update.Persist.{update_rows, has_id}
use ms_calendar_service.Platform.{participant_allowed, is_in_group, set_seat, has_key}

-- The answer of a participant, the first of the group with the identifiers that are given.
pub data ParticipantAction : Type 0 where
  accept cancel : ParticipantAction

abbrev pub target_status : ParticipantAction → Status
target_status accept = accepted
target_status cancel = cancelled_by_client

abbrev is_given_key : Option String → String → Bool
is_given_key none key = true
is_given_key (some id) key = str_eq key id

abbrev pub is_answering : String → Option String → Option String → Participant → Bool
is_answering id_group client client_workspace p =
    is_in_group id_group p
    && is_given_key client p.id_client
    && is_given_key client_workspace p.id_client_workspace

-- The update of the first participant that answers, if its status allows it.
abbrev behind : Participant → Option (List Participant) → Option (List Participant)
behind p none = none
behind p (some qs) = some (p ∷ qs)

unfoldable pub answer_first :
    (Participant → Bool) → Status → List Participant → Option (List Participant)
answer_first test status [] = none
answer_first test status (p ∷ ps) =
    let later = behind p (answer_first test status ps) in
    let here = if participant_allowed p.status status then set_seat status p else p in
    if test p then some (here ∷ ps) else later

abbrev pub answered_in : Db → Option (List Participant) → Option Db
answered_in db none = none
answered_in db (some ps) = some (record db { participants = ps })

-- The result is `none` where the code throws.
unfoldable pub change_event_status_by_participant :
    String → ParticipantAction → Option String → Option String → Db → Option Db
change_event_status_by_participant id action client client_workspace db =
    elim (find (has_id id) db.events) [
      | none ↦ none
      | some e ↦ answered_in db (
          answer_first (is_answering e.id_group client client_workspace) (target_status action)
            db.participants)
    ]

-- The deletion of events, and of the groups and the participants that are left without one. The rules
-- of recurrence are not modelled.
abbrev pub is_among : List String → Event → Bool
is_among ids e = any (str_eq e.id) ids

abbrev pub id_group_of_event : Event → String
id_group_of_event e = e.id_group

unfoldable pub group_ids_of : List String → Db → List String
group_ids_of ids db = add_all [] (map id_group_of_event (keep (is_among ids) db.events))

abbrev pub has_events : List Event → String → Bool
has_events events id_group = any (λ (e : Event). str_eq e.id_group id_group) events

-- Is the group one of the touched ones, and left without an event?
abbrev pub is_orphaned : List String → List Event → String → Bool
is_orphaned groups events id_group =
    any (str_eq id_group) groups && not (has_events events id_group)

unfoldable pub delete_event : List String → Db → Db
delete_event ids db =
    let groups = group_ids_of ids db in
    let events = keep (λ (e : Event). not (is_among ids e)) db.events in
    record {
      events = events;
      groups = keep (λ (g : Group). not (is_orphaned groups events g.id)) db.groups;
      participants =
          keep (λ (p : Participant). not (is_orphaned groups events p.id_group)) db.participants;
    }

-- `markCommentAsRead`; the result is `none` where the code throws.
abbrev pub read_comment : Group → Group
read_comment g = record g { is_comment_read = true }

unfoldable pub mark_comment_as_read : String → String → Db → Option Db
mark_comment_as_read id id_workspace db = elim (find (has_id id) db.events) [
  | none ↦ none
  | some e ↦ elim (group_by_id db e.id_group) [
    | none ↦ none
    | some g ↦
        if str_eq g.id_workspace id_workspace
        then some (record db { groups = update_rows (has_key e.id_group) read_comment db.groups })
        else none
  ]
]
