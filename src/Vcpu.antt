-- ===== src/Vcpu.antt =====
-- src/components/core/core_vcpu: the scheduler's decisions and the lazy FP register file.
pub mod Sched
pub mod Fp
pub mod Power
pub mod Switch
