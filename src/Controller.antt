-- ===== src/Controller.antt =====
-- The controller (internal/controller): its pure decisions, what it takes from its environment, the status
-- conditions, the overlap of policies, the remediation and the reconcile loop.
pub mod Logic
pub mod Env
pub mod Effects
pub mod Status
pub mod Overlap
pub mod Remedy
pub mod Finish
pub mod Reconcile
pub mod Watches
