-- ===== src/Jobs/Store.antt =====
-- gca/jobs/store.py: the SQLite job store, its tables, its statements and its operations.
pub mod Table
pub mod WellFormed
pub mod Handles
pub mod Validate
pub mod Create
pub mod Save
pub mod Claim
pub mod Lease
pub mod Rowcount
pub mod Updates
pub mod Preserves
pub mod Claiming
pub mod Expiry
pub mod Saving
pub mod Fencing
pub mod Idempotency
