-- ===== src/Guard/Examples.antt =====
-- A request of a customer without bookings, and the theorems at it.
use ms_calendar_service.Base.{◌≡◌, ◌≤◌, ◌*◌, ◌/◌, ◌+◌, none, some, false, [], ◌∷◌, refl, arith}
use ms_calendar_service.Base.Int.{ℤ}
use ms_calendar_service.Base.Sets.{add_all}
use ms_calendar_service.WebBooking.Policies.{matches}
use ms_calendar_service.Booking.Rows.{Group, Participant, Status}
use ms_calendar_service.Guard.{
  refused, next, enforce_user_limits as where_limits, RawAttendee, RawBody, read_attendees,
  base_validation_and_normalize,
}
use ms_calendar_service.Guard.Config.{
  BookingLimits, sanitize_demo_config_overrides, override, resolve_workspace,
}
use ms_calendar_service.Guard.Limits.{
  ClientWorkspace, resolve_client_workspace, total_duration, enforce_time_rules, count_bookings,
  enforce_user_limits, per_day,
}
use ms_calendar_service.Guard.Chain.{
  Days, GuardDeps, Admitted, client_update_guards, client_add_guards,
}
use ms_calendar_service.Guard.Admitted.{
  IsWelcome, IsInTime, IsLimited, day_count, client_add_guards-IsAdmitted,
}
use ms_calendar_service.Guard.Counts.{with_booking, client_add_guards-keeps_limit}

abbrev cut : RawAttendee
cut = record { service_id = "cut"; duration_min = some 30; staff_id = none; category_id = none }

abbrev body : RawBody
body = record {
  id_company = "c";
  id_workspace = "w";
  start_local_iso = some "2026-05-04T10:00:00";
  time_zone_client = some "UTC";
  date = none;
  timezone = none;
  time = none;
  attendees = cut ∷ [];
  exclude_event_id = none;
  id_event = none;
  customer_id = "joe";
}

abbrev config : BookingLimits
config = record {
  min_lead_time_min = some (ℤ.pos 60);
  max_advance_days = none;
  same_day_cutoff_hour_local = none;
  per_user_per_day = none;
  per_user_concurrent = none;
  max_services_per_booking = none;
}

abbrev days : Days
days = record {
  cal = record {
    start_of_day = λ t. t / 86400000 * 86400000;
    date_of = λ t. "";
    week_day_of = λ t. "";
  };
  end_of_day_after = λ t n. (t / 86400000 + n) * 86400000 + 86399999;
  end_of_day = λ t. t / 86400000 * 86400000 + 86399999;
}

abbrev client : ClientWorkspace
client = record { id = "cw"; id_client = "joe"; is_banned = false; client_is_banned = false }

abbrev deps : GuardDeps
deps = record {
  source = record {
    cached = some (record { id = "w"; time_zone = "UTC"; config = config });
    fetched = none;
    demo = false;
    config_overrides = none;
  };
  days_of = λ z. days;
  start_of = λ i. some 7200000;
  now = 0;
  clients = client ∷ [];
  created = none;
  db = record { events = []; groups = []; participants = [] };
}

abbrev admitted : Admitted
admitted = record {
  input = record {
    id_company = "c";
    id_workspace = "w";
    start_local_iso = "2026-05-04T10:00:00";
    time_zone_client = "UTC";
    attendees =
        record { service_id = "cut"; duration_min = 30; staff_id = none; category_id = none } ∷ [];
    exclude_event_id = none;
    id_event = none;
    customer_id = "joe";
  };
  time_zone = "UTC";
  config = config;
  customer = record { id_client = "joe"; id_client_workspace = "cw" };
  time = record { start_ws = 7200000; end_ws = 9000000 };
}

guard_run : Unit {0}
unfolding matches read_attendees base_validation_and_normalize sanitize_demo_config_overrides
    override resolve_workspace resolve_client_workspace total_duration enforce_time_rules
    count_bookings add_all enforce_user_limits client_update_guards client_add_guards
guard_run = tt

admitted_test : client_add_guards deps body ≡ next admitted
unfolding guard_run
admitted_test = refl

abbrev group : Group
group = record {
  id = "g";
  id_company = "c";
  id_workspace = "w";
  title = "";
  start_date = 7200000;
  end_date = 9000000;
  comment_client = none;
  is_comment_read = false;
  status = Status.pending;
  time_zone = "UTC";
  deleted = false;
}

abbrev seat : Participant
seat = record {
  id_group = "g";
  id_client = "joe";
  id_client_workspace = "cw";
  status = Status.pending;
  deleted = false;
}

-- The second request of the day is refused.
limited_test :
    client_add_guards (record deps { db = with_booking group seat deps.db }) body
    ≡ refused 409 where_limits
unfolding guard_run
limited_test = refl

admitted_example :
    IsWelcome deps admitted.customer × IsInTime deps admitted × IsLimited deps admitted
admitted_example = client_add_guards-IsAdmitted deps body admitted admitted_test

limit_example :
    day_count (record deps { db = with_booking group seat deps.db }) admitted ≤ per_day config
limit_example =
    client_add_guards-keeps_limit deps body admitted group seat admitted_test (omega arith) tt
