-- ===== src/Update.antt =====
-- The update of a booking from the web (src/features/event-client/services/update-event/event-
-- client-update-write.service.ts and its flows, src/features/event-client/domain/strategy/update-
-- flow and src/features/event-client/services/persistence/event-client-update.persistence.ts).
pub mod Persist
pub mod Rows
pub mod Strategy
pub mod Single
pub mod Rebuild
pub mod Move
pub mod Flows
pub mod Original
pub mod Entry
mod Examples
