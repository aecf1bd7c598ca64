-- ===== src/ConsoleController.antt =====
-- internal/controller/workloads/console_controller.go: the reconciler of consoles, in parts.
pub mod Defaults
pub mod Status
pub mod Diffs
pub mod Names
pub mod Job
pub mod Access
pub mod Workloads
pub mod Reconcile
