-- ===== src/Patch.antt =====
-- gca/tools/patch.py: the unified-diff parser, the hunk engine and the application to the workspace.
-- Texts are lists of code points here, since the code works on lines and prefixes.
pub mod Text
pub mod Parse
pub mod Hunks
pub mod Apply
