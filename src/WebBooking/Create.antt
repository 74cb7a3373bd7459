-- ===== src/WebBooking/Create.antt =====
-- The transaction that creates the events of an assignment (`_createEventsForAssignment` and
-- `createAssignmentsAndSyncGroupId`). An error rolls the whole transaction back.
use text.Mathlib.Text.{◌==◌ as str_eq}
use ms_calendar_service.Base.{
  String, Option, none, some, Bool, List, [], ◌∷◌, ◌++◌, map, if◌then◌else◌, any,
}
use ms_calendar_service.Availability.Assign.{Segment}
use ms_calendar_service.Booking.{Service, Request, Failure, Result, create_or_join_group_event}
use ms_calendar_service.Booking.Rows.{Event, Db}

pub data Error : Type 0 where
  no_service : Error
  refused_by : Failure → Error

pub data Booked : Type 0 where
  booked : List Event → Db → Booked
  rolled_back : Error → Booked

-- `createEvent`: the service's snapshot is needed. `request` makes the parameters of one segment.
unfoldable pub create_segment :
    (String → Option Service) → (Segment → Service → Db → Request) → Segment → Db → Booked
create_segment services request seg db = elim (services seg.service_id) [
  | none ↦ rolled_back no_service
  | some svc ↦ elim (create_or_join_group_event (request seg svc db) db) [
    | Result.done e action db' ↦ booked (e ∷ []) db'
    | Result.failed why ↦ rolled_back (refused_by why)
  ]
]

-- The loop over the segments; the created items are pushed at the end.
unfoldable pub create_segments :
    (String → Option Service)
    → (Segment → Service → Db → Request)
    → List Segment
    → List Event
    → Db
    → Booked
create_segments services request [] items db = booked items db
create_segments services request (seg ∷ segs) items db =
    elim (create_segment services request seg db) [
      | rolled_back why ↦ rolled_back why
      | booked es db' ↦ create_segments services request segs (items ++ es) db'
    ]

abbrev pub is_id_of : List Event → Event → Bool
is_id_of items e = any (λ (c : Event). str_eq c.id e.id) items

abbrev pub in_group : String → Event → Event
in_group target e = record e { id_group = target }

-- `updateMany` on the created identifiers.
unfoldable pub update_group : String → List Event → List Event → List Event
update_group target items [] = []
update_group target items (e ∷ es) =
    (if is_id_of items e then in_group target e else e) ∷ update_group target items es

-- The group of the first item becomes the group of all.
unfoldable pub sync_group_id : List Event → Db → Booked
sync_group_id [] db = booked [] db
sync_group_id (e ∷ es) db =
    booked (map (in_group e.id_group) (e ∷ es))
      (record db { events = update_group e.id_group (e ∷ es) db.events })

unfoldable pub create_assignments_and_sync_group_id :
    (String → Option Service) → (Segment → Service → Db → Request) → List Segment → Db → Booked
create_assignments_and_sync_group_id services request segs db =
    elim (create_segments services request segs [] db) [
      | rolled_back why ↦ rolled_back why
      | booked items db' ↦ sync_group_id items db'
    ]
