-- ===== src/Booking/Examples.antt =====
-- Bookings on small tables, and the theorems at such inputs.
use mathlib.Core.List.{Memᴰ}
use text.Mathlib.Text.{◌==◌ as str_eq}
use ms_calendar_service.Base.{
  ◌≢◌, ap, ◌≡◌, String, Option, none, some, true, false, [], ◌∷◌, refl, arith, All, find,
}
use ms_calendar_service.Booking.Rows.{
  accepted, cancelled, Event, Group, Db, span_of, date_group, take_text,
}
use ms_calendar_service.Booking.{
  Request, Service, created, joined, slot_taken, no_seats, professional_busy, Result, done, failed,
  is_exact, is_overlapping, join_existing, ensure_group, sync_group_start_end_dates, create_event,
  create_or_join_group_event, Action,
}
use ms_calendar_service.Booking.Seats.{IsJoined, create_or_join_group_event-IsJoined}
use ms_calendar_service.Booking.Overlap.{
  IsLive, IsApart, create_or_join_group_event-IsApart, deleted_event_blocks,
}

booking_run : Unit {0}
unfolding is_exact is_overlapping join_existing ensure_group sync_group_start_end_dates create_event
    create_or_join_group_event span_of date_group take_text
booking_run = tt

abbrev yoga : Service
yoga = record { id = "yoga"; name = some "Yoga"; duration = some 60; max_participants = some 2 }

abbrev haircut : Service
haircut = record { id = "cut"; name = none; duration = none; max_participants = none }

abbrev request : Service → String → Request
request svc client = record {
  id_company = "co";
  id_workspace = "ws";
  id_group = none;
  seg = record { service_id = svc.id; user_id = "ana"; start = 100; end = 160 };
  svc = svc;
  time_zone_workspace = "Europe/Madrid";
  note = none;
  is_comment_read = none;
  customer_id = client;
  customer_workspace = client;
  auto_confirm = true;
  new_group_id = "g1";
  new_event_id = "e1";
}

abbrev empty_db : Db
empty_db = record { events = []; groups = []; participants = [] }

abbrev db_of : Result → Db
db_of (done e a db) = db
db_of (failed f) = empty_db

abbrev event_of : Result → Option Event
event_of (done e a db) = some e
event_of (failed f) = none

abbrev action_of : Result → Option Action
action_of (done e a db) = some a
action_of (failed f) = none

abbrev after_first : Db
after_first = db_of (create_or_join_group_event (request yoga "carla") empty_db)

abbrev after_second : Db
after_second = db_of (create_or_join_group_event (request yoga "dora") after_first)

-- A class of two seats: the first customer creates the event, the second joins, the third is
-- refused.
yoga_test :
    (action_of (create_or_join_group_event (request yoga "carla") empty_db) ≡ some created)
    × (action_of (create_or_join_group_event (request yoga "dora") after_first) ≡ some joined)
    × (create_or_join_group_event (request yoga "eva") after_second ≡ failed no_seats)
    × (create_or_join_group_event (request haircut "eva") after_second ≡ failed professional_busy)
unfolding booking_run
yoga_test = (refl, refl, refl, refl)

abbrev yoga_event : Event
yoga_event = record {
  id = "e1";
  id_group = "g1";
  id_company = "co";
  id_service = some "yoga";
  id_user_platform = some "ana";
  start_date = 100;
  end_date = 160;
  deleted = false;
  title = "Yoga";
  service_name = some "Yoga";
  service_duration = some 60;
  service_max_participants = some 2;
}

joining_example : IsJoined (request yoga "dora") after_first yoga_event after_second
unfolding booking_run
joining_example =
    create_or_join_group_event-IsJoined (request yoga "dora") after_first yoga_event after_second
      refl

creating_example :
    (find (is_exact (request yoga "carla") empty_db) empty_db.events ≡ none)
    × All (λ x. IsLive (request yoga "carla") empty_db x → IsApart (request yoga "carla") x) []
unfolding booking_run
creating_example =
    create_or_join_group_event-IsApart (request yoga "carla") empty_db yoga_event after_first refl

-- The slot of a deleted haircut.
abbrev deleted_cut : Event
deleted_cut = record yoga_event { id_service = some "cut"; deleted = true }

abbrev cut_group : Group
cut_group = record {
  id = "g1";
  id_company = "co";
  id_workspace = "ws";
  title = "Cita";
  start_date = 100;
  end_date = 160;
  comment_client = none;
  is_comment_read = false;
  deleted = false;
  status = cancelled;
  time_zone = "Europe/Madrid";
}

abbrev cut_db : Db
cut_db = record {
  events = deleted_cut ∷ [];
  groups = cut_group ∷ [];
  participants =
      record {
        id_group = "g1";
        id_client = "carla";
        id_client_workspace = "carla";
        status = accepted;
        deleted = false;
      }
      ∷ [];
}

deleted_event_example :
    create_or_join_group_event (request haircut "dora") cut_db ≡ failed slot_taken
unfolding booking_run
deleted_event_example =
    deleted_event_blocks (request haircut "dora") cut_db deleted_cut (Memᴰ.head refl) refl
      (record {
        service = refl;
        professional = refl;
        start = refl;
        end = refl;
        group = cut_group;
        found = refl;
        workspace = refl;
      })
      (omega arith) (stranger, tt)
  where
    stranger : ◌≢◌ {A = String} "carla" "dora"
    stranger e = let k : false ≡ true = ap (λ (x : String). str_eq x "dora") e in cc k
