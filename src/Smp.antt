-- ===== src/Smp.antt =====
-- The lifecycle coordinator of several cores (src/components/core/smp).
pub mod Quiesce
