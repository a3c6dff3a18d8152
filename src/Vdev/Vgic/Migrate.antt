-- ===== src/Vdev/Vgic/Migrate.antt =====
-- The switch of a virtual CPU from one core to another (vgic.cpp): saved on the one and restored on
-- the other, whoever was resident there.
use novavisor.Base.{ℕ, ◌≤◌, ◌<◌, bit_or}
use novavisor.Base.{◌≡◌, refl, ap, ◌∙◌, ◌≢◌, ◌⊎◌, inl, inr}
use novavisor.Base.{Bool, false, Option, List}
use novavisor.Base.{arith}
use novavisor.Base.{◌==◌, if◌then◌else◌, Bool-cases}
use novavisor.Base.{length, get_or, set}
use novavisor.Base.{get_or-set_self}
use novavisor.Base.{bit}
use novavisor.Vcpu.Power.{vm_of, vcpu_of}
use novavisor.Vdev.Delivery.{lr_eoi, lr_in_flight}
use novavisor.Vdev.Delivery.{CpuState}
use novavisor.Vdev.Delivery.{Bank}
use novavisor.Vdev.Delivery.{refill}
use novavisor.Vdev.Delivery.Scan.{Busy}
use novavisor.Vdev.Delivery.Refill.{Distinct}
use novavisor.Vdev.Delivery.Refill.Whole.{refill-IsRefilled}
use novavisor.Vdev.Delivery.Refill.Whole.{refill_keeps}
use novavisor.Vdev.Vgic.{hcr_uie, hcr_base, HwBank, Core, Vgic}
use novavisor.Vdev.Vgic.{fresh_cpu, cpu_at, bank_at}
use novavisor.Vdev.Vgic.{put_core, sync_resident_lrs, refill_bank, put_bank}
use novavisor.Vdev.Vgic.{is_overflow, cpu_save}
use novavisor.Vdev.Vgic.{vcpus_of, flush, cpu_restore}
use novavisor.Vdev.Vgic.Save.{get_or-copy_lrs, IsEisr, IsResident, saved_lem}
use novavisor.Vdev.Vgic.Save.{IsPosted, saved-IsBank}

module _ (guests : List ℕ) (t : Vgic) (index : ℕ) (away : t.core.resident ≢ index)
    (slot : index < length t.cpus) (banked : index < length t.hw)
    (registers : length t.core.lrs ≡ 16) (count : t.lr_count ≤ 16) where
  abbrev result : Bank × Option Bool
  result = refill (refill_bank t index) t.lr_count (vcpu_of index) (vcpus_of guests (vm_of index))

  -- A refill of a vCPU that is not resident goes to its shadow alone.
  abbrev refilled : Vgic
  refilled =
      let s2 = put_bank t index ((result).0) in
      record s2 {
        hw = set s2.hw index (record (bank_at s2 index) {
          hcr = bit_or hcr_base (if is_overflow ((result).1) then hcr_uie else 0);
        });
      }

  pub flush-away : flush guests t index ≡ refilled
  unfolding flush sync_resident_lrs
  flush-away = let off : (index == t.core.resident) ≡ false = ground arith in rw off refl

  pub restored :
      ((cpu_restore guests t index).core.resident ≡ index)
      × ((cpu_restore guests t index).core.vmcr ≡ (bank_at t index).vmcr)
      × ((j : ℕ)
          → j < t.lr_count
          → get_or (cpu_restore guests t index).core.lrs j 0 ≡ get_or ((result).0).cpu.lr j 0)
  unfolding cpu_restore
  restored =
      let own = get_or-set_self t.cpus index ((result).0).cpu fresh_cpu slot in
      let kept : HwBank = record (bank_at t index) {
        hcr = bit_or hcr_base (if is_overflow ((result).1) then hcr_uie else 0);
      } in
      let bank = get_or-set_self t.hw index kept (record { vmcr = 0; hcr = hcr_base }) banked in
      rw flush-away (
        refl,
        ap (λ (b : HwBank). b.vmcr) bank,
        λ j l.
            get_or-copy_lrs (cpu_at refilled index).lr 0 t.lr_count t.core.lrs j (omega arith)
            ∙ ground (arith, ap (λ (c : CpuState). get_or c.lr j 0) own),
      )

module _ (guests : List ℕ) (eisr : List ℕ → ℕ) (s : Vgic) (index : ℕ) (other : Core) where
  -- The vCPU is saved here and restored on the core `other`.
  abbrev pub migrated : Vgic
  migrated = cpu_restore guests (put_core (cpu_save eisr s index).0 other) index

-- A vCPU that is saved on one core and restored on another is resident there with its mask register, and with every interrupt that was pending or active in a list register, in the same register, changed at most by the maintenance mark; and no interrupt is in two registers.
pub migrate_keeps :
    (guests : List ℕ) (eisr : List ℕ → ℕ) (s : Vgic) (index : ℕ) (other : Core)
    → IsEisr eisr
    → IsResident s index
    → IsPosted s index
    → other.resident ≢ index
    → length other.lrs ≡ 16
    → ((migrated guests eisr s index other).core.resident ≡ index)
      × ((migrated guests eisr s index other).core.vmcr ≡ s.core.vmcr)
      × Distinct s.lr_count (migrated guests eisr s index other).core.lrs
      × ((j : ℕ)
          → j < s.lr_count
          → Busy s.core.lrs j
          → (get_or (migrated guests eisr s index other).core.lrs j 0 ≡ get_or s.core.lrs j 0)
            ⊎ (get_or (migrated guests eisr s index other).core.lrs j 0
                ≡ bit_or (get_or s.core.lrs j 0) lr_eoi))
migrate_keeps guests eisr s index other reads v w away size =
    let (at, _, vm, n_same, inside, _, _, _, _, hw) = saved_lem eisr reads s index v in
    let t = put_core (cpu_save eisr s index).0 other in
    let count = v.count in
    let (here, mask, regs) =
      restored guests t index away inside (omega (arith, hw, v.banked)) size (omega arith) in
    let b = saved-IsBank eisr reads s index v w in
    let vc = vcpu_of index in
    let vs = vcpus_of guests (vm_of index) in
    let r = refill-IsRefilled s.lr_count (refill_bank t index) vc vs b in
    let final : (j : ℕ)
        → j < s.lr_count
        → get_or (migrated guests eisr s index other).core.lrs j 0
          ≡ get_or (refill (refill_bank t index) s.lr_count vc vs).0.cpu.lr j 0 =
      λ j l.
        regs j (omega arith)
        ∙ ap (λ n. get_or (refill (refill_bank t index) n vc vs).0.cpu.lr j 0) n_same in
    (
      here,
      mask ∙ vm,
      λ i j id hi hj ci cj.
          r.bank.distinct i j id hi hj (rw (← (final i hi)) ci) (rw (← (final j hj)) cj),
      λ j l busy.
          let off : bit (eisr s.core.lrs) j ≡ false = elim (Bool-cases (bit (eisr s.core.lrs) j)) [
            | inr f ↦ f
            | inl y ↦ absurd (cc (reads.ended s.core.lrs j y))
          ] in
          let same = at j l ∙ ground arith in
          elim (refill_keeps s.lr_count (refill_bank t index) vc vs b j l
            (ap lr_in_flight same ∙ busy)) [
              | inl e ↦ inl (final j l ∙ e ∙ same)
              | inr e ↦ inr (final j l ∙ e ∙ ap (λ x. bit_or x lr_eoi) same)
            ],
    )
