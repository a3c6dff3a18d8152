-- ===== src/Lib.antt =====
-- NovaVisor: an AArch64 hypervisor whose policies are pure headers, which the components drive
-- from exceptions and interrupts. This library models those policies and proves what they promise.
--
-- Parts, files and code (paths from the repository's root):
--   Base        shared names, lists with native indices, bits of words, rings over arrays, and
--               validation loops with an early return.
--   Vcpu.Sched  which vCPU a core runs next: src/components/core/core_vcpu/include/core_vcpu/
--               sched_model.hpp (`pick_next`, `slice_needed`).
--   Vcpu.Fp     lazy FP ownership: fp_model.hpp beside it, with the functions of
--               src/components/core/core_vcpu/src/sched.cpp that move register banks.
--   Vcpu.Power  power states, cold start, warm reset and retirement: lifecycle.cpp in that folder.
--               A machine is the scheduler states, the published states, the counters, the
--               generations and the budgets; calls into other components are logged in order.
--   Vdev.Uart   the emulated PL011: src/components/vdev/vuart/include/vuart/vuart_model.hpp.
--   Vdev.Gic    the emulated GICv3 registers: src/components/vdev/vgic/include/vgic/vgic_model.hpp.
--   Vdev.Delivery  the list registers that carry interrupts to a guest: vgic_delivery.hpp beside it.
--               A bank is a vCPU's state with its VM's distributor and SPI tokens.
--   Vdev.Vgic   the controller as a core runs it: src/components/vdev/vgic/src/vgic.cpp. The state
--               has the vCPUs, the distributors and the running core's virtual CPU interface.
--   Vcpu.Switch the scheduler of a core: sched.cpp again. A frame and a register bank are any types;
--               the interrupts of the idle loop are functions on the core and the machine.
--   Service.Timebase  the conversion of waits to counter ticks: src/nova/arch/timebase.hpp.
--   Service.Command  the host's command ring and its table: src/nova/command.hpp.
--   Service.Ivc      the ring two guests share: src/components/service/ivc/include/ivc/ring.hpp.
--   Service.Timer    the deadline queue (timer_queue.hpp) and the legacy slot
--                    (legacy_slot_model.hpp).
--   Service.Psci, Service.Smccc  the guest's firmware calls: psci_model.hpp, smccc_model.hpp.
--   Dma.Range, Dma.Policy  address ranges and the static ownership of devices and memory:
--                    src/nova/range.hpp, src/nova/abi/dma.hpp.
--   Dma.Device  the registry of devices: src/components/device/dma_device.
--   Smmu.Domain, Smmu.Runtime, Smmu.Fault, Smmu.Queue  stream ownership and contexts,
--               capabilities, event records, and the pointers of the command and event queues:
--               src/components/device/smmu.
--   Smp.Quiesce the barrier of a reset: src/components/core/smp/include/smp/quiesce_model.hpp.
--
-- The parts meet where the code's do: the device registry and the SMMU contexts take the
-- assignments and guests of Dma.Policy, Service.Psci asks Service.Smccc what it implements,
-- Vcpu.Fp and Vcpu.Power stand on the scheduler's states, Vdev.Vgic runs Vdev.Delivery on the
-- registers of Vdev.Gic, and Vcpu.Switch saves and restores a guest through Vdev.Vgic.
--
-- A function that changes its argument returns the new state, paired with its result. A check that
-- returns an error returns an option, with none for success. Words are natural numbers with
-- the wrap-around written out (`% 2 ^ w`), and bit operations are those on numbers; a mask of `w`
-- bits is complemented as `2 ^ w - 1 - x`. Atomics are plain reads and writes: each operation is
-- one step, and interleavings are sequences of steps. Loops are recursion on lists, and the loops
-- over counted ranges on the count, so no fuel runs out; the expiry loop of the timers is given as
-- many pops as there are slots. The refill of the list registers is given one round more than
-- there are registers, and every round but the last fills one; the scan of its candidates is given
-- the 64 bits of their mask. The idle loop runs over the interrupts it is given, one for each round.
-- An access or a post returns the slots whose reevaluation the source requests in the same call;
-- `serve` in Vdev/Vgic.antt runs those that the core serves at once.
--
-- Not modelled: register access and assembly, the trap glue around each policy, page layout and
-- text output, trace events, the walks over devices, the coordination of a
-- reset across cores, and the translation tables.
pub mod Base
pub mod Dma
pub mod Service
pub mod Smmu
pub mod Smp
pub mod Vcpu
pub mod Vdev
