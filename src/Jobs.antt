-- ===== src/Jobs.antt =====
-- gca/jobs: durable jobs, their lifecycle, the SQLite store with leases, and the queue.
pub mod Models
pub mod Lifecycle
pub mod Store
pub mod Queue
pub mod Interleaving
pub mod Exclusion
