-- ===== src/Prober.antt =====
-- The prober (internal/prober): its data, the threshold state machine of a pod, the manager of the probes.
pub mod Config
pub mod Threshold
pub mod Manager
pub mod Checker
pub mod Loop
