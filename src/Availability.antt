-- ===== src/Availability.antt =====
-- Free windows, shifts, the slot grid and the search for an assignment
-- (src/services/@database/event/availability-special.service.ts and event/util).
pub mod Zone
pub mod Windows
pub mod Shifts
pub mod Assign
mod Examples
