-- ===== src/Api/Sessions.antt =====
-- src/api/sessions.rs: the `/v1/sessions` routes.
pub mod Requests
pub mod View
pub mod Handlers
pub mod Inputs
pub mod Flights
pub mod Rendering
pub mod Returning
pub mod Spared
pub mod Isolated
pub mod Refusals
