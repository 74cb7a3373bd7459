-- ===== src/Platform/Split.antt =====
-- The split of a booking whose services do not follow one another, and the copies of a booking
-- (_splitByTimeContinuity, _splitOriginalGroupIfNeeded, _syncGroupWindow and
-- _cloneGroupWithParticipants of
-- src/features/event-platform/services/use-cases/update-event-by-id.use-case.ts). The function that
-- makes the identifier of a new group is a parameter.
use ms_calendar_service.Base.{
  ℕ, String, Bool, true, false, List, [], ◌∷◌, ◌++◌, map, keep, if◌then◌else◌, ltb,
}
use ms_calendar_service.Base.Sort.{sort_by}
use ms_calendar_service.Booking.Rows.{Event, Group, Participant, Db, is_live_in}
use ms_calendar_service.Update.Persist.{update_rows}
use ms_calendar_service.Platform.{has_key, id_of}
use ms_calendar_service.Platform.Commands.{is_among}
use ms_calendar_service.Platform.Upsert.{start_of_event}

-- A segment is its first event and the others.
pub record Stretch : Type 0 where
  pub first : Event
  pub others : List Event

abbrev pub stretch_events : Stretch → List Event
stretch_events s = s.first ∷ s.others

-- What follows an event: the rest of its segment, and the later segments.
unfoldable pub split_after : Event → List Event → List Event × List Stretch
split_after prev [] = ([], [])
split_after prev (e ∷ es) =
    let rest = split_after e es in
    if ltb prev.end_date e.start_date
    then ([], record { first = e; others = rest.0 } ∷ rest.1)
    else (e ∷ rest.0, rest.1)

unfoldable pub split_sorted : List Event → List Stretch
split_sorted [] = []
split_sorted (e ∷ es) =
    let rest = split_after e es in record { first = e; others = rest.0 } ∷ rest.1

abbrev pub split_by_time_continuity : List Event → List Stretch
split_by_time_continuity events = split_sorted (sort_by start_of_event events)

unfoldable pub latest_end : ℕ → List Event → ℕ
latest_end end [] = end
latest_end end (e ∷ es) = latest_end (if ltb end e.end_date then e.end_date else end) es

abbrev pub set_window : ℕ → ℕ → Group → Group
set_window start end g = record g { start_date = start; end_date = end }

-- `_getSegmentBounds`, written on the group.
abbrev pub put_bounds : String → Event → List Event → Db → Db
put_bounds id e es db = record db {
  groups = update_rows (has_key id) (set_window e.start_date (latest_end e.end_date es)) db.groups;
}

abbrev pub synced : String → List Event → Db → Bool × Db
synced id [] db = (false, db)
synced id (e ∷ es) db = (true, put_bounds id e es db)

abbrev pub active_events : String → Db → List Event
active_events id db = sort_by start_of_event (keep (is_live_in id) db.events)

unfoldable pub sync_group_window : String → Db → Bool × Db
sync_group_window id db = synced id (active_events id db) db

-- The group and its participants as they were loaded.
pub record CloneSource : Type 0 where
  pub group : Group
  pub seats : List Participant

abbrev pub clone_seat : String → Participant → Participant
clone_seat id p = record p { id_group = id; deleted = false }

abbrev pub clone_group : Group → String → ℕ → ℕ → Group
clone_group g id start end = record g {
  id = id;
  start_date = start;
  end_date = end;
  deleted = false;
}

unfoldable pub clone_group_with_participants : CloneSource → String → ℕ → ℕ → Db → Db
clone_group_with_participants source id start end db = record db {
  groups = db.groups ++ clone_group source.group id start end ∷ [];
  participants = db.participants ++ map (clone_seat id) source.seats;
}

abbrev pub set_id_group : String → Event → Event
set_id_group id e = record e { id_group = id }

-- A group of its own for a segment.
abbrev pub split_off : CloneSource → Stretch → String → Db → Db
split_off source s id db =
    let cloned =
      clone_group_with_participants source id s.first.start_date
        (latest_end s.first.end_date s.others) db in
    record cloned {
      events =
          update_rows (is_among (map id_of (stretch_events s))) (set_id_group id) cloned.events;
    }

module _ (fresh_group : List Group → String) where
  unfoldable pub split_all : CloneSource → List Stretch → Db → List String × Db
  split_all source [] db = ([], db)
  split_all source (s ∷ segments) db =
      let id = fresh_group db.groups in
      let rest = split_all source segments (split_off source s id db) in (id ∷ rest.0, rest.1)

  abbrev pub split_segments : CloneSource → String → List Stretch → Db → List String × Db
  split_segments source old [] db = ([], db)
  split_segments source old (s ∷ segments) db =
      split_all source segments (put_bounds old s.first s.others db)

  abbrev pub split_original_group_if_needed : CloneSource → String → Db → List String × Db
  split_original_group_if_needed source old db =
      split_segments source old (split_by_time_continuity (active_events old db)) db
