-- ===== src/Tests.antt =====
-- Runs on concrete inputs: for each component, data that the theorems' conditions hold of.
mod Jobs
mod Workspace
mod Runs
mod Chains
mod Policies
mod Phases
mod Issues
mod Repairs
mod Outbox
