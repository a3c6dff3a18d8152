-- ===== src/Vdev.antt =====
-- The devices the hypervisor emulates for a guest (src/components/vdev).
pub mod Uart
pub mod Gic
pub mod Delivery
pub mod Vgic
