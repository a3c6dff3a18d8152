-- ===== src/Vdev/Vgic.antt =====
-- The virtual interrupt controller as one core runs it: src/components/vdev/vgic/src/vgic.cpp, with
-- the register views of src/nova/arch/gicv3/vtr.hpp.
use novavisor.Base.{ℕ, zero, suc, ◌+◌, ◌-◌, ◌*◌, ◌/◌, ◌^◌, bit_and, bit_or}
use novavisor.Base.{Bool, true, false, not, ◌&&◌, ◌||◌, Option, none, some, List, [], ◌∷◌}
use novavisor.Base.{ltb, leb, ◌==◌, if◌then◌else◌}
use novavisor.Base.{length, get_or, set, replicate}
use novavisor.Base.{bit_not}
use novavisor.Vcpu.Power.{max_vcpus_per_vm, vm_of, vcpu_of, slot_of}
use novavisor.Vdev.Gic.{all_ones, decode_redist_frame}
use novavisor.Vdev.Gic.{DistState}
use novavisor.Vdev.Gic.{spi_target, RedistState}
use novavisor.Vdev.Gic.{dist_read, dist_write}
use novavisor.Vdev.Gic.{redist_read, redist_write}
use novavisor.Vdev.Gic.Offsets.{gicd_icpendr1}
use novavisor.Vdev.Gic.Offsets.{gicr_frame_size}
use novavisor.Vdev.Gic.Offsets.{num_private}
use novavisor.Vdev.Gic.Offsets.{num_spis, max_intid}
use novavisor.Vdev.Delivery.{max_lrs, lr_state_pending}
use novavisor.Vdev.Delivery.{EoiToken, valid, no_token, CpuState}
use novavisor.Vdev.Delivery.{pending_token_mask}
use novavisor.Vdev.Delivery.{harvest_eois, deliverable}
use novavisor.Vdev.Delivery.{spi_deliverable}
use novavisor.Vdev.Delivery.{Bank}
use novavisor.Vdev.Delivery.{refill}
pub mod Save
pub mod Migrate
pub mod Post
pub mod Serve
pub mod Requests
pub mod Mmio
pub mod Sysreg
mod Tests

abbrev pub no_resident : ℕ
no_resident = 2 ^ 64 - 1

abbrev pub vtr_pri_bits_field : ℕ → ℕ
vtr_pri_bits_field vtr = bit_and (vtr / 2 ^ 29) 7

abbrev pub vtr_pre_bits_field : ℕ → ℕ
vtr_pre_bits_field vtr = bit_and (vtr / 2 ^ 26) 7

abbrev pub vtr_id_bits_field : ℕ → ℕ
vtr_id_bits_field vtr = bit_and (vtr / 2 ^ 23) 7

abbrev pub icc_ctlr_view : ℕ → ℕ
icc_ctlr_view vtr = bit_or (vtr_id_bits_field vtr * 2 ^ 11) (vtr_pri_bits_field vtr * 2 ^ 8)

-- `7U - field` for a field of three bits.
abbrev pub vmcr_reset : ℕ → ℕ
vmcr_reset vtr =
    let vbpr0 = 7 - vtr_pre_bits_field vtr in
    let vbpr1 = if leb 7 vbpr0 then 7 else vbpr0 + 1 in
    bit_or (bit_or (bit_or (255 * 2 ^ 24) (2 ^ 1)) (vbpr0 * 2 ^ 21)) (vbpr1 * 2 ^ 18)

abbrev pub hcr_uie : ℕ
hcr_uie = 2

-- `kIchHcrEn | kIchHcrTc`
abbrev pub hcr_base : ℕ
hcr_base = 1025

pub record HwBank : Type 0 where
  pub vmcr : ℕ
  pub hcr : ℕ

-- The core that runs: who is resident, and its virtual CPU interface (the `ICH_*` registers).
pub record Core : Type 0 where
  pub resident : ℕ
  pub lrs : List ℕ
  pub vmcr : ℕ
  pub hcr : ℕ

pub record Vgic : Type 0 where
  pub cpus : List CpuState
  pub hw : List HwBank
  pub dists : List DistState
  pub spi_tokens : List (List EoiToken)
  pub lr_count : ℕ
  pub vtr : ℕ
  pub vmcr_seed : ℕ
  pub core : Core

abbrev pub fresh_redist : RedistState
fresh_redist = record {
  asleep = true;
  igroupr0 = all_ones;
  isenabler0 = 65535;
  pending = 0;
  prio = replicate 32 0;
}

abbrev pub fresh_cpu : CpuState
fresh_cpu = record {
  redist = fresh_redist;
  lr = replicate max_lrs 0;
  lr_token = replicate max_lrs no_token;
}

abbrev pub fresh_dist : DistState
fresh_dist = record {
  ctlr = 0;
  spi_group = all_ones;
  spi_enabled = 0;
  spi_pending = 0;
  spi_prio = replicate 32 0;
  spi_route = replicate 32 0;
}

abbrev pub cpu_at : Vgic → ℕ → CpuState
cpu_at s index = get_or s.cpus index fresh_cpu

abbrev pub put_cpu : Vgic → ℕ → CpuState → Vgic
put_cpu s index c = record s { cpus = set s.cpus index c }

abbrev pub bank_at : Vgic → ℕ → HwBank
bank_at s index = get_or s.hw index (record { vmcr = 0; hcr = hcr_base })

abbrev pub dist_at : Vgic → ℕ → DistState
dist_at s vm = get_or s.dists vm fresh_dist

abbrev pub tokens_at : Vgic → ℕ → List EoiToken
tokens_at s vm = get_or s.spi_tokens vm (replicate 32 no_token)

abbrev pub put_core : Vgic → Core → Vgic
put_core s c = record s { core = c }

-- The loops that copy the registers from `i` on between the shadow and the hardware.
pub copy_lrs : List ℕ → ℕ → ℕ → List ℕ → List ℕ
copy_lrs src i zero dst = dst
copy_lrs src i (suc n) dst = copy_lrs src (i + 1) n (set dst i (get_or src i 0))

-- The stamp `synced_at` is left out.
unfoldable pub sync_resident_lrs : Vgic → ℕ → Vgic
sync_resident_lrs s index =
    if index == s.core.resident
    then put_cpu s index
        (record (cpu_at s index) { lr = copy_lrs s.core.lrs 0 s.lr_count (cpu_at s index).lr })
    else s

-- What a refill of `index` works on, and where its result goes.
abbrev pub refill_bank : Vgic → ℕ → Bank
refill_bank s index = record {
  cpu = cpu_at s index;
  dist = dist_at s (vm_of index);
  spi_tokens = tokens_at s (vm_of index);
}

abbrev pub put_bank : Vgic → ℕ → Bank → Vgic
put_bank s index b = record s {
  cpus = set s.cpus index b.cpu;
  dists = set s.dists (vm_of index) b.dist;
  spi_tokens = set s.spi_tokens (vm_of index) b.spi_tokens;
}

abbrev pub is_overflow : Option Bool → Bool
is_overflow (some true) = true
is_overflow _ = false

pub any_pending : List ℕ → ℕ → ℕ → Bool
any_pending lrs i zero = false
any_pending lrs i (suc n) =
    not (bit_and (get_or lrs i 0) lr_state_pending == 0) || any_pending lrs (i + 1) n

-- Only the registers that the mask names are read back.
pub read_ended : ℕ → List ℕ → ℕ → ℕ → List ℕ → List ℕ
read_ended eisr src i zero dst = dst
read_ended eisr src i (suc n) dst = read_ended eisr src (i + 1) n (
    if ltb i (length dst)
    then (if bit_and eisr (2 ^ i) == 0 then dst else set dst i (get_or src i 0))
    else dst)

pub zero_cleared : ℕ → ℕ → ℕ → ℕ → List ℕ → List ℕ
zero_cleared cleared bound i zero dst = dst
zero_cleared cleared bound i (suc n) dst =
    zero_cleared cleared bound (i + 1) n
      (if ltb i bound && not (bit_and cleared (2 ^ i) == 0) then set dst i 0 else dst)

-- `eisr` is what `ICH_EISR` reads for these list registers; the calls of the end-of-interrupt
-- service are the tokens of the result, in order.
module _ (eisr : List ℕ → ℕ) where
  unfoldable pub drain_eois : Vgic → ℕ → Vgic × List EoiToken
  drain_eois s index =
      let ended = eisr s.core.lrs in
      let cpu = cpu_at s index in
      let pulled = record cpu { lr = read_ended ended s.core.lrs 0 s.lr_count cpu.lr } in
      let h = harvest_eois pulled ended s.lr_count in
      let s1 = put_cpu s index ((h).0) in
      let s2 = put_core s1 (record s1.core {
        lrs = zero_cleared ((h).1).cleared (length ((h).0).lr) 0 s1.lr_count s1.core.lrs;
      }) in
      if not (index == s.core.resident)
      then (s, [])
      else if ended == 0
      then (s, [])
      else (s2, ((h).1).tokens)

  unfoldable pub cpu_save : Vgic → ℕ → Vgic × List EoiToken
  cpu_save s index =
      let d = drain_eois s index in
      let s1 = (d).0 in
      let cpu = cpu_at s1 index in
      let s2 = put_cpu s1 index (record cpu { lr = copy_lrs s1.core.lrs 0 s1.lr_count cpu.lr }) in
      (
        record s2 { hw = set s2.hw index (record { vmcr = s2.core.vmcr; hcr = s2.core.hcr }) },
        (d).1,
      )

-- `for (v = 0; v < vcpus; ++v) request_reevaluate(slot_of(vm, v))`
pub slots_from : ℕ → ℕ → ℕ → List ℕ
slots_from vm v zero = []
slots_from vm v (suc n) = slot_of vm v ∷ slots_from vm (v + 1) n

-- `guests` has the number of vCPUs of each VM, as `guest_table()[vm].vcpus`.
module _ (guests : List ℕ) where
  abbrev pub vcpus_of : ℕ → ℕ
  vcpus_of vm = get_or guests vm 0

  -- The trace events are left out.
  unfoldable pub flush : Vgic → ℕ → Vgic
  flush s index =
      let s1 = sync_resident_lrs s index in
      let r = refill (refill_bank s1 index) s1.lr_count (vcpu_of index) (vcpus_of (vm_of index)) in
      let s2 = put_bank s1 index ((r).0) in
      let hcr = bit_or hcr_base (if is_overflow ((r).1) then hcr_uie else 0) in
      if index == s.core.resident
      then put_core s2
          (record s2.core { lrs = copy_lrs ((r).0).cpu.lr 0 s2.lr_count s2.core.lrs; hcr = hcr })
      else record s2 { hw = set s2.hw index (record (bank_at s2 index) { hcr = hcr }) }

  unfoldable pub has_deliverable : Vgic → ℕ → Vgic × Bool
  has_deliverable s index =
      let s1 = sync_resident_lrs s index in
      let cpu = cpu_at s1 index in
      let vm = vm_of index in
      (
        s1,
        if any_pending cpu.lr 0 s1.lr_count
            then true
            else not (deliverable cpu.redist == 0)
              || not (spi_deliverable (dist_at s1 vm) (vcpu_of index) (vcpus_of vm) == 0),
      )

  -- `handle_irq` for the maintenance interrupt.
  unfoldable pub maintenance : (List ℕ → ℕ) → Vgic → Vgic × List EoiToken
  maintenance eisr s =
      let resident = s.core.resident in
      let d = drain_eois eisr s resident in (flush ((d).0) resident, (d).1)

  unfoldable pub cpu_restore : Vgic → ℕ → Vgic
  cpu_restore s index =
      let s1 = flush s index in
      put_core s1 (record {
        resident = index;
        lrs = copy_lrs (cpu_at s1 index).lr 0 s1.lr_count s1.core.lrs;
        vmcr = (bank_at s1 index).vmcr;
        hcr = (bank_at s1 index).hcr;
      })

  unfoldable pub post_private : Vgic → ℕ → ℕ → Vgic × Bool
  post_private s index vintid =
      let cpu = cpu_at s index in
      let marked = record cpu {
        redist = record cpu.redist { pending = bit_or cpu.redist.pending (2 ^ vintid) };
      } in
      if leb num_private vintid then (s, false) else (flush (put_cpu s index marked) index, true)

  unfoldable pub reevaluate : Vgic → ℕ → Vgic × Bool
  reevaluate s index = has_deliverable (flush s index) index

  -- `request_reevaluate` for each slot in turn. `here` says which slots this core reevaluates at
  -- once, its own that are on; the others are left to the core that owns them. Waking a blocked
  -- vCPU is the scheduler's part of it.
  pub serve : (ℕ → Bool) → Vgic → List ℕ → Vgic
  serve here s [] = s
  serve here s (slot ∷ slots) =
      let next = if here slot then (reevaluate s slot).0 else s in serve here next slots

  abbrev pub mark_spi : Vgic → ℕ → ℕ → Vgic
  mark_spi s vm vintid = record s {
    dists = set s.dists vm (record (dist_at s vm) {
      spi_pending = bit_or (dist_at s vm).spi_pending (2 ^ (vintid - num_private));
    });
  }

  abbrev pub spi_slot : Vgic → ℕ → ℕ → ℕ
  spi_slot s vm vintid = slot_of vm (spi_target (dist_at s vm) vintid (vcpus_of vm))

  abbrev pub bad_spi : ℕ → ℕ → Bool
  bad_spi vm vintid = ltb vintid num_private || leb max_intid vintid || leb (length guests) vm

  -- The slots of the result are those for which a reevaluation is requested, which `serve` runs.
  unfoldable pub post_spi : Vgic → ℕ → ℕ → Vgic × Bool × List ℕ
  post_spi s vm vintid =
      if bad_spi vm vintid
      then (s, false, [])
      else (mark_spi s vm vintid, true, spi_slot s vm vintid ∷ [])

  unfoldable pub post_spi_tracked : Vgic → ℕ → ℕ → ℕ → ℕ → Vgic × Bool × List ℕ
  post_spi_tracked s vm vintid physical_intid generation =
      let token = get_or (tokens_at s vm) (vintid - num_private) no_token in
      let bound : EoiToken = record {
        virtual_intid = vintid;
        physical_intid = physical_intid;
        generation = generation;
      } in
      let s1 = record s {
        spi_tokens = set s.spi_tokens vm (set (tokens_at s vm) (vintid - num_private) bound);
      } in
      if bad_spi vm vintid || (generation == 0)
      then (s, false, [])
      else if valid token
      then (s, (token.physical_intid == physical_intid) && (token.generation == generation), [])
      else (mark_spi s1 vm vintid, true, spi_slot s vm vintid ∷ [])

  -- One access: its size, the value written or none, and the value read back.
  unfoldable pub dist_mmio : Vgic → ℕ → ℕ → Option ℕ → Vgic × ℕ × List ℕ
  dist_mmio s off size none =
      let vm = vm_of s.core.resident in
      if s.core.resident == no_resident
      then (s, 0, [])
      else (s, (dist_read (dist_at s vm) off size).value, [])
  dist_mmio s off size (some value) =
      let vm = vm_of s.core.resident in
      let keep_pending = if off == gicd_icpendr1 then pending_token_mask (tokens_at s vm) else 0 in
      let w = dist_write (dist_at s vm) off size value keep_pending in
      let s1 = record s { dists = set s.dists vm ((w).1) } in
      if s.core.resident == no_resident
      then (s, value, [])
      else if not ((w).0).known
      then (s1, value, [])
      else (s1, value, if ((w).0).delivery then slots_from vm 0 (vcpus_of vm) else [])

  unfoldable pub redist_mmio : Vgic → ℕ → ℕ → Option ℕ → Vgic × ℕ × List ℕ
  redist_mmio s off size none =
      let vm = vm_of s.core.resident in
      let frame = decode_redist_frame off (vcpus_of vm) in
      let cpu = cpu_at s (slot_of vm frame.vcpu) in
      if s.core.resident == no_resident
      then (s, 0, [])
      else if not frame.valid
      then (s, 0, [])
      else (s, (redist_read cpu.redist frame.offset size frame.id).value, [])
  redist_mmio s off size (some value) =
      let vm = vm_of s.core.resident in
      let frame = decode_redist_frame off (vcpus_of vm) in
      let slot = slot_of vm frame.vcpu in
      let w = redist_write (cpu_at s slot).redist frame.offset size value in
      let s1 = put_cpu s slot (record (cpu_at s slot) { redist = (w).1 }) in
      if s.core.resident == no_resident
      then (s, value, [])
      else if not frame.valid
      then (s, value, [])
      else if not ((w).0).known
      then (s1, value, [])
      else (s1, value, if ((w).0).delivery then slot ∷ [] else [])

abbrev pub gicd_ipa_base : ℕ
gicd_ipa_base = 0x8000000

abbrev pub gicr_ipa_base : ℕ
gicr_ipa_base = 0x80A0000

abbrev pub gicd_frame_size : ℕ
gicd_frame_size = 0x10000

-- `none` if the access is not the controller's.
unfoldable pub handle_mmio : List ℕ → Vgic → ℕ → ℕ → Option ℕ → Option (Vgic × ℕ × List ℕ)
handle_mmio guests s ipa size value =
    if leb gicd_ipa_base ipa && ltb ipa (gicd_ipa_base + gicd_frame_size)
    then some (dist_mmio guests s (ipa - gicd_ipa_base) size value)
    else if leb gicr_ipa_base ipa && ltb ipa (gicr_ipa_base + max_vcpus_per_vm * gicr_frame_size)
    then some (redist_mmio guests s (ipa - gicr_ipa_base) size value)
    else none

abbrev pub vacate : Vgic → Vgic
vacate s = put_core s (record s.core { resident = no_resident })

abbrev pub cpu_reset : Vgic → ℕ → Vgic
cpu_reset s index = record s {
  cpus = set s.cpus index fresh_cpu;
  hw = set s.hw index (record { vmcr = s.vmcr_seed; hcr = hcr_base });
}

abbrev pub vm_reset : Vgic → ℕ → Vgic
vm_reset s vm = record s {
  dists = set s.dists vm fresh_dist;
  spi_tokens = set s.spi_tokens vm (replicate num_spis no_token);
}

-- The trap of a system register access.
pub record SysregTrap : Type 0 where
  pub op0 : ℕ
  pub op1 : ℕ
  pub crn : ℕ
  pub crm : ℕ
  pub op2 : ℕ
  pub rt : ℕ
  pub write : Bool

abbrev pub srt_zero_reg : ℕ
srt_zero_reg = 31

-- The registers `x` of the trapped context; `none` if the access is not the controller's.
unfoldable pub handle_sysreg : ℕ → Core → SysregTrap → List ℕ → Option (Core × List ℕ)
handle_sysreg vtr c s x =
    let vpmr_mask = 255 * 2 ^ 24 in
    let pmr = bit_and (if s.rt == srt_zero_reg then 0 else get_or x s.rt 0) 255 in
    let to_rt = λ (v : ℕ). if s.rt == srt_zero_reg then x else set x s.rt v in
    if not (s.op0 == 3) || not (s.op1 == 0)
    then none
    else if (s.crn == 4) && (s.crm == 6) && (s.op2 == 0)
    then some (
        if s.write
        then (record c { vmcr = bit_or (bit_and c.vmcr (bit_not 64 vpmr_mask)) (pmr * 2 ^ 24) }, x)
        else (c, to_rt (bit_and (c.vmcr / 2 ^ 24) 255)))
    else if not (s.crn == 12) || not (s.crm == 11)
    then (if (s.crn == 12) && (s.crm == 12) && (s.op2 == 4)
        then some (c, if s.write then x else to_rt (icc_ctlr_view vtr))
        else none)
    else if (s.op2 == 1) || (s.op2 == 6) || (s.op2 == 7)
    then some (c, x)
    else if s.op2 == 3
    then some (c, if s.write then x else to_rt 255)
    else none
