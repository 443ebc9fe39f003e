-- ===== src/Api.antt =====
-- The routes of app/api/routes over the modelled parts: Guard is app/api/dependencies.py.
pub mod Guard
pub mod Jobs
pub mod Reads
pub mod Sessions
pub mod Files
pub mod Access
mod Examples
