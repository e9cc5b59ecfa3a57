-- ===== src/Actions.antt =====
-- internal/actions/actions.go, one module for each group of functions: `Split` (splitCommand),
-- `Allowed` (isCommandAllowed), `Kill` (the actions that end processes), `Registry` (the other
-- actions and their table), `Scripts` (start and stop scripts, and the two probes).
pub mod Split
pub mod Allowed
pub mod Kill
pub mod Registry
pub mod Scripts
pub mod Oracle
