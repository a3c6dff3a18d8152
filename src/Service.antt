-- ===== src/Service.antt =====
-- The services of src/components/service.
pub mod Command
pub mod Timer
pub mod Smccc
pub mod Psci
pub mod Ivc
pub mod Timebase
