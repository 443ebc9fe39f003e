-- ===== src/Jobs.antt =====
-- app/workers/durable.py. Status: the transition table; Lease: claims, heartbeats and recovery;
-- Finish: the requests to run, completion and failure.
mod Status
mod Lease
mod Finish
mod Rows
pub mod Keys
pub mod Interleaving
mod Invariant
mod Preserved
pub mod Claims
mod Safety
mod Fencing
mod Stale
pub mod Owners
pub mod Order
pub mod Outcomes
pub mod Requests
mod Examples
unfoldable pub use Status.*
unfoldable pub use Lease.*
unfoldable pub use Finish.*
