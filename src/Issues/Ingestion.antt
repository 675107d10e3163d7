-- ===== src/Issues/Ingestion.antt =====
-- gca/issue_sessions/ingestion.py, `IssueSessionIngestor`: one webhook event as one unit of work.
pub mod Records
pub mod Start
pub mod Branches
pub mod Queue
pub mod Existing
pub mod Ingest
