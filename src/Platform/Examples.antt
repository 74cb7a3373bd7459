-- ===== src/Platform/Examples.antt =====
-- A booking of one event, and the theorems at it.
use text.Mathlib.Text.{◌==◌ as str_eq}
use ms_calendar_service.Base.{
  ◌≢◌, String, ap, ◌≡◌, ◌≤◌, ◌+◌, none, some, true, false, [], ◌∷◌, refl,
}
use ms_calendar_service.Base.Sets.{add_all}
use ms_calendar_service.Base.Sort.{sort_by}
use ms_calendar_service.Booking.{sync_group_start_end_dates}
use ms_calendar_service.Booking.Rows.{
  Status, pending, accepted, cancelled, Event, Group, Participant, Db, span_of, date_group,
  take_text,
}
use ms_calendar_service.Update.Persist.{update_rows, update_event}
use ms_calendar_service.Platform.{
  allowed, should_notify_on_transition, settle_participants, with_status, Changed, status_changed,
  change_event_status,
}
use ms_calendar_service.Platform.Commands.{group_ids_of, delete_event}
use ms_calendar_service.Platform.Statuses.{StatusRequest, rank_in, changes_in, changes_in-bounded}
use ms_calendar_service.Platform.Settled.{IsSettled, change_event_status-IsSettled}
use ms_calendar_service.Platform.Deleted.{IsPeopled, delete_event-IsPeopled}
use ms_calendar_service.Platform.Upsert.{
  upserted, has_row, upsert_services, upsert_participants, upsert_event,
}
use ms_calendar_service.Platform.Payload.{
  SidebarService, SidebarPayload, Makers, sum_minutes, derive_group_title,
  soft_delete_group_cascade, ensure_group_events,
}
use ms_calendar_service.Platform.Booked.{IsBooked, upsert_event-IsBooked}

abbrev cut : Event
cut = record {
  id = "e";
  id_group = "g";
  id_company = "c";
  id_service = some "cut";
  id_user_platform = some "ana";
  start_date = 0;
  end_date = 1800000;
  deleted = false;
  title = "Cut";
  service_name = some "Cut";
  service_duration = some 30;
  service_max_participants = some 1;
}

abbrev booking : Status → Group
booking status = record {
  id = "g";
  id_company = "c";
  id_workspace = "w";
  title = "Cut";
  start_date = 0;
  end_date = 1800000;
  comment_client = none;
  is_comment_read = false;
  status = status;
  time_zone = "Europe/Madrid";
  deleted = false;
}

abbrev seat : Status → Participant
seat status = record {
  id_group = "g";
  id_client = "joe";
  id_client_workspace = "cw";
  status = status;
  deleted = false;
}

abbrev booked : Status → Db
booked status = record {
  events = cut ∷ [];
  groups = booking status ∷ [];
  participants = seat status ∷ [];
}

abbrev cancel : StatusRequest
cancel = record { id = "e"; status = cancelled; all_group = true }

abbrev accept : StatusRequest
accept = record { id = "e"; status = accepted; all_group = false }

abbrev both : Changed
both = record { events = "e" ∷ []; notify_events = "e" ∷ [] }

platform_run : Unit {0}
unfolding allowed should_notify_on_transition settle_participants with_status change_event_status
    update_rows group_ids_of add_all delete_event sum_minutes derive_group_title take_text
    soft_delete_group_cascade ensure_group_events has_row upsert_services upsert_participants
    upsert_event update_event sync_group_start_end_dates span_of date_group sort_by
platform_run = tt

cancel_test :
    change_event_status "e" cancelled true (booked pending)
    ≡ (status_changed both, booked cancelled)
unfolding platform_run
cancel_test = refl

settled_example : IsSettled cancel (booked pending) (booked cancelled)
settled_example =
    change_event_status-IsSettled cancel (booked pending) (booked cancelled) both cancel_test

bounded_example :
    changes_in "g" (accept ∷ accept ∷ cancel ∷ []) (booked pending) + rank_in (booked pending) "g"
    ≤ 4
bounded_example = changes_in-bounded "g" (accept ∷ accept ∷ cancel ∷ []) (booked pending)

-- The second acceptance changes nothing.
bounded_test : changes_in "g" (accept ∷ accept ∷ cancel ∷ []) (booked pending) ≡ 2
unfolding platform_run
bounded_test = refl

delete-IsPeopled_example : IsPeopled (delete_event ("e" ∷ []) (booked pending))
delete-IsPeopled_example =
    delete_event-IsPeopled ("e" ∷ []) (booked pending) ((refl, tt), (refl, tt))

deleted_test :
    delete_event ("e" ∷ []) (booked pending)
    ≡ record { events = []; groups = []; participants = [] }
unfolding platform_run
deleted_test = refl

-- The booking gets a second service after the first.
abbrev cut_service : SidebarService
cut_service = record {
  id_event = "e";
  id_service = "cut";
  duration = 30;
  name = "Cut";
  id_worker = "ana";
}

abbrev dye_service : SidebarService
dye_service = record {
  id_event = "new-1";
  id_service = "dye";
  duration = 60;
  name = "Dye";
  id_worker = "ana";
}

abbrev payload : SidebarPayload
payload = record {
  is_event = true;
  id_group = "g";
  id_company = "c";
  id_workspace = "w";
  event_status = none;
  comment_client = none;
  services = cut_service ∷ dye_service ∷ [];
  clients = record { id_client = "joe"; id_client_workspace = "cw" } ∷ [];
  start_date = some 600000;
  end_date = none;
}

abbrev makers : Makers
makers = record { trim = λ s. s; fresh_event = λ es. "f"; fresh_group = λ gs. "h" }

abbrev moved : Event
moved = record cut { start_date = 600000; end_date = 2400000 }

abbrev added : Event
added = record cut {
  id = "f";
  id_service = some "dye";
  start_date = 2400000;
  end_date = 6000000;
  title = "Dye";
  service_name = some "Dye";
  service_duration = some 60;
}

abbrev after : Db
after = record {
  events = moved ∷ added ∷ [];
  groups = record (booking pending) { start_date = 600000; end_date = 6000000 } ∷ [];
  participants = record (seat pending) { deleted = true } ∷ seat pending ∷ [];
}

upsert_test : upsert_event makers payload (booked pending) ≡ (upserted (moved ∷ added ∷ []), after)
unfolding platform_run
upsert_test = refl

booked_example : IsBooked makers payload (moved ∷ added ∷ []) (booked pending) after
booked_example =
    upsert_event-IsBooked makers payload (booked pending) after (moved ∷ added ∷ []) (λ e. cc) refl
      ((different, tt), (tt, tt)) upsert_test
  where
    different : ◌≢◌ {A = String} "f" "e"
    different e = let k : false ≡ true = ap (λ (x : String). str_eq x "e") e in cc k
