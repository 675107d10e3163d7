-- ===== src/Issues/Consistency.antt =====
-- The numbers that `append_event` gives, in gca/issue_sessions/store.py.
pub mod Sequence
