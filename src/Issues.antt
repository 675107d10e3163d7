-- ===== src/Issues.antt =====
-- gca/issue_sessions: the durable sessions that the hosted service keeps for GitLab issues.
pub mod Models
pub mod Tables
pub mod Work
pub mod Outbox
pub mod Remediation
pub mod Contracts
pub mod Consistency
pub mod Redelivery
pub mod Serial
pub mod Settled
pub mod Started
pub mod Outcomes
pub mod Events
pub mod Ingestion
