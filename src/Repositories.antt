-- ===== src/Repositories.antt =====
-- app/db/repositories.py: the rows that the service creates, and what a tenant sees of them.
pub mod Tenant
pub mod Reads
pub mod Visibility
pub mod Newest
pub mod Creates
pub mod Records
pub mod Isolation
mod Examples
