-- ===== src/Session/Flight.antt =====
-- web/packages/shared/src/api/client.ts: requests that run at the same time, and the one refresh that
-- they share, `refreshInFlight`.
pub mod Defs
pub mod Reach
pub mod Turns
pub mod Cost
pub mod Sequential
