-- ===== src/Platform/Payload.antt =====
-- What the business sends of a booking, and the row of the booking that it makes or edits
-- (src/services/@database/event/dto/SidebarBackendBookingPayload.ts, and _ensureGroupEvents and
-- _softDeleteGroupCascade of src/services/@database/event/platform/upsertEvent.service.ts). Dates come
-- parsed, the server's own zone is UTC, and the functions that make the identifiers of new rows and
-- trim a text are parameters. The defaults of new rows are those of src/prisma/schema.prisma.
use ms_calendar_service.Base.{
  ℕ, ◌+◌, String, Option, none, some, Bool, true, false, not, ◌&&◌, List, [], ◌∷◌, ◌++◌,
  if◌then◌else◌,
}
use ms_calendar_service.Availability.Zone.{add_minutes}
use ms_calendar_service.WebBooking.Policies.{is_present}
use ms_calendar_service.Booking.{or_else}
use ms_calendar_service.Booking.Rows.{
  Status, pending, Event, Group, Participant, Db, is_live_in, is_seated, group_by_id, take_text,
}
use ms_calendar_service.Update.Persist.{update_rows}
use ms_calendar_service.Platform.{has_key}

pub record SidebarService : Type 0 where
  pub id_event : String
  pub id_service : String
  pub duration : ℕ
  pub name : String
  pub id_worker : String

pub record SidebarClient : Type 0 where
  pub id_client : String
  pub id_client_workspace : String

pub record SidebarPayload : Type 0 where
  pub is_event : Bool
  pub id_group : String
  pub id_company : String
  pub id_workspace : String
  pub event_status : Option Status
  pub comment_client : Option String
  pub services : List SidebarService
  pub clients : List SidebarClient
  pub start_date : Option ℕ
  pub end_date : Option ℕ

pub record Makers : Type 0 where
  pub trim : String → String
  pub fresh_event : List Event → String
  pub fresh_group : List Group → String

abbrev pub present : String → Option String
present s = if is_present s then some s else none

abbrev pub normalize_group_id : Makers → SidebarPayload → Option String
normalize_group_id makers p = present (makers.trim p.id_group)

unfoldable pub sum_minutes : List SidebarService → ℕ
sum_minutes [] = 0
sum_minutes (s ∷ services) = s.duration + sum_minutes services

abbrev pub add_end_from_services : ℕ → List SidebarService → ℕ
add_end_from_services start services = add_minutes start (sum_minutes services)

abbrev pub first_name : Makers → List SidebarService → String
first_name makers [] = ""
first_name makers (s ∷ services) = makers.trim s.name

unfoldable pub derive_group_title : Makers → SidebarPayload → String
derive_group_title makers p =
    take_text 100 (or_else (present (first_name makers p.services)) "Booking")

-- The end of the payload, or that of its services where it has a start.
abbrev pub payload_end : SidebarPayload → Option ℕ
payload_end p = elim p.end_date [
  | some e ↦ some e
  | none ↦ elim p.start_date [ none ↦ none | some s ↦ some (add_end_from_services s p.services) ]
]

-- `_softDeleteGroupCascade`
abbrev pub bury_row : Event → Event
bury_row e = record e { deleted = true }

abbrev pub bury_seat : Participant → Participant
bury_seat p = record p { deleted = true }

abbrev pub bury_group : Group → Group
bury_group g = record g { deleted = true }

unfoldable pub soft_delete_group_cascade : String → Db → Db
soft_delete_group_cascade id db = record {
  events = update_rows (is_live_in id) bury_row db.events;
  participants = update_rows (is_seated id) bury_seat db.participants;
  groups = update_rows (λ (g : Group). has_key id g && not g.deleted) bury_group db.groups;
}

-- `_ensureGroupEvents`
abbrev pub edit_row : Makers → SidebarPayload → Group → Group
edit_row makers p g = record g {
  title = derive_group_title makers p;
  id_company = p.id_company;
  id_workspace = p.id_workspace;
  comment_client = p.comment_client;
  status = or_else p.event_status g.status;
  start_date = or_else p.start_date g.start_date;
  end_date = or_else (payload_end p) g.end_date;
  deleted = false;
}

abbrev pub new_row : Makers → SidebarPayload → String → ℕ → Group
new_row makers p id start = record {
  id = id;
  id_company = p.id_company;
  id_workspace = p.id_workspace;
  title = derive_group_title makers p;
  start_date = start;
  end_date = or_else (payload_end p) (add_end_from_services start p.services);
  comment_client = p.comment_client;
  is_comment_read = false;
  status = or_else p.event_status pending;
  time_zone = "Europe/Madrid";
  deleted = false;
}

abbrev pub created_row : Makers → SidebarPayload → String → Option ℕ → Db → Option (Group × Db)
created_row makers p id none db = none
created_row makers p id (some start) db =
    some (
      new_row makers p id start,
      record db { groups = db.groups ++ new_row makers p id start ∷ [] },
    )

abbrev pub edited_or_created :
    Makers → SidebarPayload → String → Option Group → Db → Option (Group × Db)
edited_or_created makers p id none db = created_row makers p id p.start_date db
edited_or_created makers p id (some g) db = some (
  edit_row makers p g,
  record db { groups = update_rows (has_key id) (edit_row makers p) db.groups },
)

unfoldable pub ensure_group_events :
    Makers → SidebarPayload → Option String → Db → Option (Group × Db)
ensure_group_events makers p none db =
    created_row makers p (makers.fresh_group db.groups) p.start_date db
ensure_group_events makers p (some id) db = edited_or_created makers p id (group_by_id db id) db
