-- ===== src/Smmu.antt =====
-- The SMMU component (src/components/device/smmu).
pub mod Domain
pub mod Runtime
pub mod Fault
pub mod Queue
