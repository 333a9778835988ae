-- ===== src/Service.antt =====
-- examples/reference_service: a small HTTP service over a database. The verified part (src/app) is
-- modelled whole; of the host (host/) the database operations and the socket operations are.
pub mod Types
pub mod Http
pub mod Router
pub mod Render
pub mod Database
pub mod Host
pub mod Server
mod Examples
