-- ===== src/Lib.antt =====
-- Verification library of the calendar service: what a customer can book, and what a booking does.
--
-- The program serves the calendars of businesses over HTTP. The parts modelled here are the ones that
-- decide a booking from the web. The availability services read the hours of the business and of its
-- professionals and the events of the day, and compute the free windows of each professional. The
-- search for professionals assigns one of them to each requested service. The strategies for one
-- service ask the round robin, which keeps its state and a short hold of the slot in Redis. The write
-- service then creates or joins the events in one database transaction. The update services change a
-- booking in three ways, each one transaction. The slots that a customer is shown come from the same
-- windows and the same search. Guards stand before the handlers: over Redis one refuses a request
-- that is repeated, and others check the customer, the time and the limits of the workspace. The
-- business creates, edits and deletes bookings and changes their statuses on its own routes.
--
-- The files, and the code that each is about:
--   Base            shared names, Boolean tests, lists, the stable sort of arrays, signed integers
--   Availability    the free windows of a day: Zone is what the code uses of moment in one time zone;
--                   Windows (subtractBusyFromShift_SPECIAL, mergeTouchingWindows_SPECIAL), Shifts
--                   (buildShiftsByUser_SPECIAL and the loops of the availability contexts) and Assign
--                   (assignSequentially_SPECIAL) of
--                   src/services/@database/event/availability-special.service.ts
--   Redis           the cache service of src/services/@redis over a client, which is a parameter
--   RoundRobin      src/services/@redis/cache/strategies/roundRobin/round-robin.strategy.ts, and
--                   chooseStaffWithRR of the write service
--   Booking         createOrJoinGroupEvent and _syncGroupStartEndDates of
--                   src/features/event-client/services/create-event/event-client-write.service.ts
--   Assignment      src/features/event-client/domain/strategy/assignment
--   WebBooking      addEventFromWeb of the write service and its helpers: Policies is
--                   src/features/event-client/domain/policies; Start validates the input and resolves
--                   its start; Context is its availability; Join and Create are the reads and
--                   writes of src/features/event-client/services/persistence/booking.persistence.ts
--   Update          the update of a booking: Entry (updateEventFromWebBase of
--                   src/features/event-client/services/update-event), Strategy (the choice of its
--                   flow, src/features/event-client/domain/strategy/update-flow), Flows (its three
--                   flows) and the three transactions Persist, Rebuild and Move of
--                   src/features/event-client/services/persistence/event-client-update.persistence.ts
--   Guard           the guards of a booking request, src/middlewares/booiking-guard, in the order of
--                   src/features/event-client/routes.ts: Guard (the body), Config (the configuration
--                   of the workspace), Limits (the customer, the time and the limits) and Chain
--   Platform        the events that the business edits, src/features/event-platform/services: Platform
--                   (use-cases/change-event-status.use-case.ts), Commands (the answer of a
--                   participant, the deletion of events and the mark of a read comment of
--                   event-platform.command.service.ts), UpdateById with Split
--                   (use-cases/update-event-by-id.use-case.ts), and Upsert with Payload (upsertEvent of
--                   src/services/@database/event/platform/upsertEvent.service.ts)
--   Idempotency     src/middlewares/request-idempotency.middleware.ts
--   Reminders       downgrade.ts and shouldSendNotification of
--                   src/models/notification/util/validator-date; the capture of the regular
--                   expression on a dedupe key is an argument
--   Slots           publicGetAvailableTimeSlots_SPECIAL of
--                   src/services/@database/event/event-times.service.ts: Single (the fast path for
--                   one service), Multi (several in sequence), Day (what a request has and what is
--                   read for it) and Answer (the whole function)
--   DaySlots        hasAnySlotForDay of src/services/@database/event/util/event-availability.ts
-- In each folder the definitions stand in the parent and in the files named above, the other files
-- prove, and Examples holds the tests. A definition bears the name of its function in snake case.
--
-- Representation. An instant is its number of milliseconds since the epoch, a native number. A local
-- time is the same instant in the zone of the workspace: what depends on that zone is a field of Zone
-- or of Calendar, and the record IsZone states the documented behaviour that proofs use, for a zone
-- whose offset is a whole number of minutes. An object used as a map is a function or an association
-- list. A database is the lists of its rows, and a query with `findFirst` returns the first match. A
-- thrown error is a value, and a transaction that throws leaves the database as it was. Buffers that
-- the code mutates are passed on as a state.
--
-- Termination. A loop is a structural recursion over a list, and the backtracking search is one
-- over the requested services. Only the loops over slots, in DaySlots and in Slots, run on fuel:
-- the end of their range and two more at most, which is enough since a slot moves by a millisecond
-- or more. Numbers of the language are exact in the ranges at issue; the credits of the round robin
-- are integers, which the library signs itself.
--
-- Concurrency. Two processes that acquire one hold are modelled as interleaved steps
-- (RoundRobin/Race). A database transaction is one step.
--
-- Not modelled: the coalescing of reminders and the capacity of a day, which nothing calls, HTTP
-- routes, controllers and their schemas, messages over RabbitMQ and their dead letters, the text of
-- notifications, the rules of recurrence, the services of hours and absences, the Prisma client,
-- prices (floating-point numbers), logs and formatted texts.
pub mod Base
pub mod Availability
pub mod Redis
pub mod RoundRobin
pub mod Booking
pub mod Assignment
pub mod WebBooking
pub mod Reminders
pub mod DaySlots
pub mod Update
pub mod Slots
pub mod Guard
pub mod Platform
pub mod Idempotency
