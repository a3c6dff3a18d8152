-- ===== src/Dma.antt =====
-- Which guest owns which device, and which memory a device may reach (src/nova/abi/dma.hpp,
-- src/components/device/dma_device).
pub mod Range
pub mod Policy
pub mod Device
