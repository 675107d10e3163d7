-- ===== src/Issues/Remediation/Alone.antt =====
-- A repair leaves a turn that is open alone.
use generic_coding_agent.Issues.Tables.{Tables}
