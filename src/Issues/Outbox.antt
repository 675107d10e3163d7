-- ===== src/Issues/Outbox.antt =====
-- gca/issue_sessions/outbox.py, `OutboxProcessor`: the notes, merge requests and merges that the
-- sessions owe GitLab.
pub mod Notes
pub mod Publish
pub mod Handlers
pub mod Process
pub mod Once
pub mod Passed
