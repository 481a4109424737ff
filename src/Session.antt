-- ===== src/Session.antt =====
-- web/packages/shared/src/api/client.ts and web/packages/shared/src/stores/auth.ts: requests to the
-- server with one refresh of the access token, and the session of the signed-in user.
pub mod State
pub mod Client
pub mod Token
pub mod Auth
pub mod Stored
pub mod Requests
pub mod Exchange
pub mod Ending
pub mod Outcome
pub mod Flight
pub mod Bounds
pub mod Handler
pub mod SignIn
pub mod Entry
pub mod Renewal
pub mod Fit
pub mod Restore
