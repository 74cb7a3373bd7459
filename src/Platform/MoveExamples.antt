-- ===== src/Platform/MoveExamples.antt =====
-- A booking of three services, the middle one of which moves, and the theorems at it.
use ms_calendar_service.Base.{ℕ, ◌≡◌, none, some, true, false, List, [], ◌∷◌, String, map, refl}
use ms_calendar_service.Base.Sets.{add_all}
use ms_calendar_service.Base.Sort.{sort_by}
use ms_calendar_service.Booking.Rows.{pending, Event, Group, Participant, Db}
use ms_calendar_service.Update.Persist.{update_rows}
use ms_calendar_service.Platform.Upsert.{start_of_event}
use ms_calendar_service.Platform.UpdateById.{
  date, UpdateEventInput, MovedEvent, moved_event, update_event_by_id,
}
use ms_calendar_service.Platform.Split.{
  Stretch, split_by_time_continuity, split_after, split_sorted, latest_end, sync_group_window,
  clone_group_with_participants, split_all,
}
use ms_calendar_service.Platform.Segments.{flatten, IsSplit, split_by_time_continuity-IsSplit}
use ms_calendar_service.Platform.NewBooking.{IsMoved, update_event_by_id-IsMoved}
use ms_calendar_service.Platform.Emptied.{IsEmptied, update_event_by_id-IsEmptied}

abbrev part : String → ℕ → ℕ → Event
part id start end = record {
  id = id;
  id_group = "g";
  id_company = "c";
  id_service = some "cut";
  id_user_platform = some "ana";
  start_date = start;
  end_date = end;
  deleted = false;
  title = "Cut";
  service_name = some "Cut";
  service_duration = some 30;
  service_max_participants = some 1;
}

abbrev day_group : Group
day_group = record {
  id = "g";
  id_company = "c";
  id_workspace = "w";
  title = "Cut";
  start_date = 0;
  end_date = 90;
  comment_client = none;
  is_comment_read = false;
  status = pending;
  time_zone = "Europe/Madrid";
  deleted = false;
}

abbrev day_seat : Participant
day_seat = record {
  id_group = "g";
  id_client = "joe";
  id_client_workspace = "cw";
  status = pending;
  deleted = false;
}

abbrev day : List Event → Db
day events = record { events = events; groups = day_group ∷ []; participants = day_seat ∷ [] }

abbrev parts : List Event
parts = part "a" 0 30 ∷ part "b" 30 60 ∷ part "d" 60 90 ∷ []

-- One group more makes the next identifier.
abbrev next_group : List Group → String
next_group [] = "g0"
next_group (g ∷ []) = "g1"
next_group (g ∷ h ∷ gs) = "g2"

abbrev later : UpdateEventInput
later = record {
  id = "b";
  start_date = date 120;
  end_date = date 150;
  title = none;
  id_user_platform = none;
  id_service = none;
  service_name = none;
  service_duration = none;
  service_max_participants = none;
}

move_run : Unit {0}
unfolding update_event_by_id sync_group_window clone_group_with_participants split_all split_sorted
    split_after latest_end sort_by update_rows add_all
move_run = tt

-- The rows that are left: the first and the last part are apart now, and so in two groups.
abbrev groups_after : List String
groups_after = "g" ∷ "g1" ∷ "g2" ∷ []

abbrev three : MovedEvent
three = record {
  old_group_id = "g";
  new_group_id = "g1";
  old_group_services_count = 3;
  old_group_had_more_than_two_services = true;
  moved_was_last_in_original_group = false;
  old_group_was_split = true;
  old_group_has_active_events = true;
  split_group_ids = "g2" ∷ [];
  affected_group_ids = groups_after;
  updated_event = record (part "b" 120 150) { id_group = "g1" };
}

three_test : (update_event_by_id next_group later true (day parts)).0 ≡ moved_event three
unfolding move_run
three_test = refl

move_example :
    IsMoved later three (day parts) (update_event_by_id next_group later true (day parts)).1
unfolding move_run
move_example =
    update_event_by_id-IsMoved next_group later (day parts)
      (update_event_by_id next_group later true (day parts)).1 three refl refl

abbrev one : MovedEvent
one = record three {
  old_group_services_count = 1;
  old_group_had_more_than_two_services = false;
  moved_was_last_in_original_group = true;
  old_group_was_split = false;
  old_group_has_active_events = false;
  split_group_ids = [];
  affected_group_ids = "g" ∷ "g1" ∷ [];
}

move-IsEmptied_example :
    IsEmptied "g"
      (day (part "b" 30 60 ∷ []))
      (update_event_by_id next_group later true (day (part "b" 30 60 ∷ []))).1
unfolding move_run
move-IsEmptied_example =
    update_event_by_id-IsEmptied next_group later (day (part "b" 30 60 ∷ []))
      (update_event_by_id next_group later true (day (part "b" 30 60 ∷ []))).1 one refl refl
      (refl, tt)

segments-IsSplit_example :
    (flatten (split_by_time_continuity parts) ≡ sort_by start_of_event parts)
    × IsSplit (split_by_time_continuity parts)
segments-IsSplit_example = split_by_time_continuity-IsSplit parts

-- A long service with two short ones in its time is split, although it goes on.
nested_test :
    map
      (λ (s : Stretch). s.first.id)
      (split_by_time_continuity (part "a" 0 100 ∷ part "b" 10 20 ∷ part "d" 30 40 ∷ []))
    ≡ "a" ∷ "d" ∷ []
unfolding split_sorted split_after sort_by
nested_test = refl
