-- ===== src/Vdev/Vgic/Requests.antt =====
-- The reevaluations that an access of the emulated frames asks for (vgic.cpp, `dist_mmio` and
-- `redist_mmio`): all of the VM's own vCPUs.
use novavisor.Base.{ℕ, zero, suc, ◌+◌, ◌≤◌, ◌<◌}
use novavisor.Base.{◌≡◌, inl, inr}
use novavisor.Base.{true, not, Option, none, some, List}
use novavisor.Base.{arith}
use novavisor.Base.{◌==◌, if◌then◌else◌, Bool-cases}
use novavisor.Vcpu.Power.{max_vcpus_per_vm, vm_of, slot_of}
use novavisor.Vdev.Gic.{dist_write, redist_write, decode_redist_frame}
use novavisor.Vdev.Gic.Offsets.{gicd_icpendr1}
use novavisor.Vdev.Delivery.{pending_token_mask}
use novavisor.Vdev.Vgic.{no_resident}
use novavisor.Vdev.Vgic.{Vgic}
use novavisor.Vdev.Vgic.{cpu_at, dist_at}
use novavisor.Vdev.Vgic.{tokens_at}
use novavisor.Vdev.Vgic.{slots_from, vcpus_of}
use novavisor.Vdev.Vgic.{dist_mmio, redist_mmio}
use novavisor.Vdev.Vgic.Serve.{AllOf}

-- A frame that decodes belongs to a vCPU of the VM.
pub frame_vcpu :
    (off vcpus : ℕ)
    → (decode_redist_frame off vcpus).valid ≡ true
    → (decode_redist_frame off vcpus).vcpu < vcpus
frame_vcpu off vcpus h = ground arith

pub vm_of-slot_of : (vm vcpu : ℕ) → vcpu < max_vcpus_per_vm → vm_of (slot_of vm vcpu) ≡ vm
vm_of-slot_of vm vcpu h = omega arith

-- The slots of a VM's vCPUs belong to it.
slots_from-AllOf : (vm v n : ℕ) → v + n ≤ max_vcpus_per_vm → AllOf vm (slots_from vm v n)
unfolding slots_from
slots_from-AllOf vm v zero h = tt
slots_from-AllOf vm v (suc n) h =
    (vm_of-slot_of vm v (omega arith), slots_from-AllOf vm (v + 1) n (omega arith))

pub dist_mmio-AllOf :
    (guests : List ℕ) (s : Vgic) (off size : ℕ) (value : Option ℕ)
    → ((vm : ℕ) → vcpus_of guests vm ≤ max_vcpus_per_vm)
    → AllOf (vm_of s.core.resident) (dist_mmio guests s off size value).2
unfolding dist_mmio
dist_mmio-AllOf guests s off size none few = elim (Bool-cases (s.core.resident == no_resident)) [
  | inl t ↦ rw t tt
  | inr f ↦ rw f tt
]
dist_mmio-AllOf guests s off size (some value) few =
    let vm = vm_of s.core.resident in
    let keep = if off == gicd_icpendr1 then pending_token_mask (tokens_at s vm) else 0 in
    let w = dist_write (dist_at s vm) off size value keep in
    let every = slots_from-AllOf vm 0 (vcpus_of guests vm) (omega (arith, few vm)) in
    elim (Bool-cases (s.core.resident == no_resident)) [
      | inl t ↦ rw t tt
      | inr f ↦ rw f (elim (Bool-cases (not ((w).0).known)) [
        | inl k ↦ rw k tt
        | inr k ↦ rw k (elim (Bool-cases ((w).0).delivery) [ inl q ↦ rw q every | inr q ↦ rw q tt ])
      ])
    ]

pub redist_mmio-AllOf :
    (guests : List ℕ) (s : Vgic) (off size : ℕ) (value : Option ℕ)
    → ((vm : ℕ) → vcpus_of guests vm ≤ max_vcpus_per_vm)
    → AllOf (vm_of s.core.resident) (redist_mmio guests s off size value).2
unfolding redist_mmio
redist_mmio-AllOf guests s off size none few = elim (Bool-cases (s.core.resident == no_resident)) [
  | inl t ↦ rw t tt
  | inr f ↦
      rw f
        (elim (Bool-cases
          (not (decode_redist_frame off (vcpus_of guests (vm_of s.core.resident))).valid)) [
            | inl k ↦ rw k tt
            | inr k ↦ rw k tt
          ])
]
redist_mmio-AllOf guests s off size (some value) few =
    let vm = vm_of s.core.resident in
    let frame = decode_redist_frame off (vcpus_of guests vm) in
    let slot = slot_of vm frame.vcpu in
    let w = redist_write (cpu_at s slot).redist frame.offset size value in
    elim (Bool-cases (s.core.resident == no_resident)) [
      | inl t ↦ rw t tt
      | inr f ↦ rw f (elim (Bool-cases frame.valid) [
        | inr k ↦ rw k tt
        | inl k ↦
            let own =
              vm_of-slot_of vm frame.vcpu
                (omega (arith, frame_vcpu off (vcpus_of guests vm) k, few vm)) in
            rw k (elim (Bool-cases (not ((w).0).known)) [
              | inl q ↦ rw q tt
              | inr q ↦
                  rw q (elim (Bool-cases ((w).0).delivery) [
                    | inl d ↦ rw d (own, tt)
                    | inr d ↦ rw d tt
                  ])
            ])
      ])
    ]
