-- ===== src/Vdev/Vgic/Save.antt =====
-- A virtual CPU that leaves one core and returns on another (vgic.cpp, `cpu_save` and
-- `cpu_restore`).
use novavisor.Base.{ℕ, zero, suc, ◌+◌, ◌^◌, ◌≤◌, ◌<◌, bit_and}
use novavisor.Base.{◌≡◌, refl, sym, ap, ◌∙◌, inl, inr}
use novavisor.Base.{true, false, not, ◌&&◌, List, []}
use novavisor.Base.{arith, dec_lt, ℕ_discrete}
use novavisor.Base.{ltb, leb, ◌==◌, if◌then◌else◌, ==_iff, Bool-cases}
use novavisor.Base.{length, get_or, set}
use novavisor.Base.{length-set, get_or-set_self, get_or-set_ne}
use novavisor.Base.{bit, bit-zero}
use novavisor.Base.{bit_and-test}
use novavisor.Vcpu.Power.{vm_of}
use novavisor.Vdev.Delivery.{lr_in_flight}
use novavisor.Vdev.Delivery.{CpuState}
use novavisor.Vdev.Delivery.{EoiHarvest}
use novavisor.Vdev.Delivery.{harvest_eois}
use novavisor.Vdev.Delivery.{priority_of}
use novavisor.Vdev.Delivery.Lrs.{lr_in_flight-zero}
use novavisor.Vdev.Delivery.Eoi.{harvest_eois_exact, harvest_eois-sizes}
use novavisor.Vdev.Delivery.Scan.{Busy}
use novavisor.Vdev.Delivery.Refill.{Distinct, IsBank}
use novavisor.Vdev.Vgic.{hcr_base, HwBank, Vgic}
use novavisor.Vdev.Vgic.{fresh_cpu, cpu_at, put_cpu, bank_at, dist_at}
use novavisor.Vdev.Vgic.{tokens_at, put_core, copy_lrs, refill_bank}
use novavisor.Vdev.Vgic.{read_ended}
use novavisor.Vdev.Vgic.{zero_cleared, drain_eois, cpu_save}

length-copy_lrs :
    (src : List ℕ) (i n : ℕ) (dst : List ℕ) → length (copy_lrs src i n dst) ≡ length dst
unfolding copy_lrs
length-copy_lrs src i zero dst = refl
length-copy_lrs src i (suc n) dst =
    length-copy_lrs src (i + 1) n (set dst i (get_or src i 0)) ∙ length-set dst i (get_or src i 0)

pub get_or-copy_lrs :
    (src : List ℕ) (i n : ℕ) (dst : List ℕ) (j : ℕ)
    → i + n ≤ length dst
    → get_or (copy_lrs src i n dst) j 0
      ≡ (if leb i j && ltb j (i + n) then get_or src j 0 else get_or dst j 0)
unfolding copy_lrs
get_or-copy_lrs src i zero dst j h = ground arith
get_or-copy_lrs src i (suc n) dst j h =
    let v = get_or src i 0 in
    let ih = get_or-copy_lrs src (i + 1) n (set dst i v) j (omega (arith, length-set dst i v)) in
    ih ∙ (elim (ℕ_discrete i j) [
      | yes p ↦
          let here : get_or (set dst i v) j 0 ≡ get_or src j 0 =
            rw (← p) (get_or-set_self dst i v 0 (omega arith)) in
          ground arith
      | no p ↦ let there = get_or-set_ne dst i j v 0 p in ground arith
    ])

length-zero_cleared :
    (cleared bound i n : ℕ) (dst : List ℕ)
    → length (zero_cleared cleared bound i n dst) ≡ length dst
unfolding zero_cleared
length-zero_cleared cleared bound i zero dst = refl
length-zero_cleared cleared bound i (suc n) dst =
    length-zero_cleared cleared bound (i + 1) n _ ∙ ground (arith, length-set dst i 0)

get_or-zero_cleared :
    (cleared bound i n : ℕ) (dst : List ℕ) (j : ℕ)
    → cleared < 2 ^ 64
    → bound ≤ 64
    → i + n ≤ length dst
    → get_or (zero_cleared cleared bound i n dst) j 0
      ≡ (if leb i j && ltb j (i + n) && ltb j bound && bit cleared j then 0 else get_or dst j 0)
unfolding zero_cleared
get_or-zero_cleared cleared bound i zero dst j c b h = ground arith
get_or-zero_cleared cleared bound i (suc n) dst j c b h =
    let test : (ltb i bound && not (bit_and cleared (2 ^ i) == 0))
        ≡ (ltb i bound && bit cleared i) =
      elim (dec_lt i bound) [
        | yes l ↦ ground (arith, bit_and-test 64 cleared i c (omega arith))
        | no ge ↦ ground arith
      ] in
    rw test (elim (Bool-cases (ltb i bound && bit cleared i)) [
      | inr f ↦ rw f (
          get_or-zero_cleared cleared bound (i + 1) n dst j c b (omega arith)
          ∙ (elim (ℕ_discrete i j) [
            | yes p ↦ let g = ap (λ q. ltb q bound && bit cleared q) p in ground arith
            | no p ↦ ground arith
          ]))
      | inl t ↦ rw t (
          get_or-zero_cleared cleared bound (i + 1) n (set dst i 0) j c b
            (omega (arith, length-set dst i 0))
          ∙ (elim (ℕ_discrete i j) [
            | yes p ↦
                let g = ap (λ q. ltb q bound && bit cleared q) p in
                let here : get_or (set dst i 0) j 0 ≡ 0 =
                  rw (← p) (get_or-set_self dst i 0 0 (omega arith)) in
                ground arith
            | no p ↦ let there = get_or-set_ne dst i j 0 0 p in ground arith
          ]))
    ])

-- `ICH_EISR` names only registers whose interrupt is neither pending nor active.
pub record IsEisr (eisr : List ℕ → ℕ) : Type 0 where
  pub word : (lrs : List ℕ) → eisr lrs < 2 ^ 64
  pub ended :
      (lrs : List ℕ) (j : ℕ) → bit (eisr lrs) j ≡ true → lr_in_flight (get_or lrs j 0) ≡ false

-- The sizes of the arrays of the source, for the vCPU `index`, and the core it is resident on.
pub record IsResident (s : Vgic) (index : ℕ) : Type 0 where
  pub here : s.core.resident ≡ index
  pub slot : index < length s.cpus
  pub banked : index < length s.hw
  pub count : s.lr_count ≤ 16
  pub shadow : length (cpu_at s index).lr ≡ 16
  pub shadow_tokens : length (cpu_at s index).lr_token ≡ 16
  pub registers : length s.core.lrs ≡ 16
  pub distinct : Distinct s.lr_count s.core.lrs

module _ (eisr : List ℕ → ℕ) (reads : IsEisr eisr) (s : Vgic) (index : ℕ)
    (v : IsResident s index) where
  length-read_ended :
      (e : ℕ) (src : List ℕ) (i n : ℕ) (dst : List ℕ)
      → length (read_ended e src i n dst) ≡ length dst
  unfolding read_ended
  length-read_ended e src i zero dst = refl
  length-read_ended e src i (suc n) dst =
      length-read_ended e src (i + 1) n _ ∙ ground (arith, length-set dst i (get_or src i 0))

  abbrev pub saved : Vgic
  saved = (cpu_save eisr s index).0

  abbrev drained : Vgic
  drained = (drain_eois eisr s index).0

  abbrev Drained : Vgic → Type 0
  Drained d =
      (d.lr_count ≡ s.lr_count)
      × (length (cpu_at d index).lr ≡ 16)
      × (length d.core.lrs ≡ 16)
      × (d.core.vmcr ≡ s.core.vmcr)
      × (length d.cpus ≡ length s.cpus)
      × (d.hw ≡ s.hw)
      × (length (cpu_at d index).lr_token ≡ 16)
      × ((cpu_at d index).redist ≡ (cpu_at s index).redist)
      × (d.dists ≡ s.dists)
      × (d.spi_tokens ≡ s.spi_tokens)
      × ((j : ℕ)
          → j < s.lr_count
          → get_or d.core.lrs j 0 ≡ (if bit (eisr s.core.lrs) j then 0 else get_or s.core.lrs j 0))

  abbrev pub ended : ℕ
  ended = eisr s.core.lrs

  abbrev pulled : CpuState
  pulled = record (cpu_at s index) {
    lr = read_ended ended s.core.lrs 0 s.lr_count (cpu_at s index).lr;
  }

  abbrev harvested : CpuState × EoiHarvest
  harvested = harvest_eois pulled ended s.lr_count

  cleared-bit : (j : ℕ) → bit ((harvested).1).cleared j ≡ (ltb j s.lr_count && bit ended j)
  cleared-bit j =
      let size = length-read_ended ended s.core.lrs 0 s.lr_count (cpu_at s index).lr ∙ v.shadow in
      let c = v.count in
      let k = v.shadow_tokens in
      ((harvest_eois_exact pulled ended s.lr_count (reads.word s.core.lrs) (omega arith)
          (k ∙ sym size) (omega arith)).1
        j).2

  after_drain : Vgic
  after_drain =
      let s1 = put_cpu s index ((harvested).0) in
      put_core s1 (record s1.core {
        lrs =
            zero_cleared ((harvested).1).cleared (length ((harvested).0).lr) 0 s1.lr_count
              s1.core.lrs;
      })

  after_drain_lem : Drained after_drain
  unfolding after_drain
  after_drain_lem =
      let size = length-read_ended ended s.core.lrs 0 s.lr_count (cpu_at s index).lr ∙ v.shadow in
      let count = v.count in
      let (a, b, w, r) = harvest_eois-sizes pulled ended s.lr_count (omega arith) in
      let own = get_or-set_self s.cpus index ((harvested).0) fresh_cpu v.slot in
      let regs = v.registers in
      (
        refl,
        ap (λ (c : CpuState). length c.lr) own ∙ a ∙ size,
        length-zero_cleared ((harvested).1).cleared (length ((harvested).0).lr) 0 s.lr_count
              s.core.lrs
            ∙ regs,
        refl,
        length-set s.cpus index ((harvested).0),
        refl,
        ap (λ (c : CpuState). length c.lr_token) own ∙ b ∙ v.shadow_tokens,
        ap (λ (c : CpuState). c.redist) own ∙ r,
        refl,
        refl,
        λ j l.
            get_or-zero_cleared ((harvested).1).cleared (length ((harvested).0).lr) 0 s.lr_count
              s.core.lrs j w (omega arith) (omega arith)
            ∙ ground (arith, cleared-bit j, a, size),
      )

  drain_split : drain_eois eisr s index ≡ (
      if not (index == s.core.resident)
      then (s, [])
      else if ended == 0
      then (s, [])
      else (after_drain, ((harvested).1).tokens))
  unfolding drain_eois after_drain
  drain_split = refl

  drained_eq : drained ≡ (if ended == 0 then s else after_drain)
  drained_eq = ground (arith, drain_split, v.here)

  drained_lem : Drained drained
  drained_lem = rw drained_eq (elim (Bool-cases (ended == 0)) [
    | inr f ↦ rw f after_drain_lem
    | inl z ↦ rw z (
      refl,
      v.shadow,
      v.registers,
      refl,
      refl,
      refl,
      v.shadow_tokens,
      refl,
      refl,
      refl,
      λ j l.
          let none_set : bit ended j ≡ false = rw ((==_iff ended 0).0 z) (bit-zero j) in
          ground arith,
    )
  ])

  -- The saved shadow: the registers in hardware, but those that the guest has ended.
  pub saved_lem :
      ((j : ℕ)
        → j < s.lr_count
        → get_or (cpu_at saved index).lr j 0 ≡ (if bit ended j then 0 else get_or s.core.lrs j 0))
      × (length (cpu_at saved index).lr ≡ 16)
      × ((bank_at saved index).vmcr ≡ s.core.vmcr)
      × (saved.lr_count ≡ s.lr_count)
      × (index < length saved.cpus)
      × (length (cpu_at saved index).lr_token ≡ 16)
      × ((cpu_at saved index).redist ≡ (cpu_at s index).redist)
      × (saved.dists ≡ s.dists)
      × (saved.spi_tokens ≡ s.spi_tokens)
      × (length saved.hw ≡ length s.hw)
  unfolding cpu_save
  saved_lem =
      let (n_same, size, regs, vm, cpus_same, hw_same, toks, red, ds, ts, at) = drained_lem in
      let lr' = copy_lrs drained.core.lrs 0 drained.lr_count (cpu_at drained index).lr in
      let c = record (cpu_at drained index) { lr = lr' } in
      let inside : index < length drained.cpus = rw cpus_same v.slot in
      let own = get_or-set_self drained.cpus index c fresh_cpu inside in
      let bank : HwBank = record { vmcr = drained.core.vmcr; hcr = drained.core.hcr } in
      let banked =
        get_or-set_self drained.hw index bank (record { vmcr = 0; hcr = hcr_base })
          (rw hw_same v.banked) in
      let count = v.count in
      (
        λ j l.
            ap (λ (k : CpuState). get_or k.lr j 0) own
            ∙ get_or-copy_lrs drained.core.lrs 0 drained.lr_count (cpu_at drained index).lr j
                (omega (arith, n_same, size))
            ∙ ground (arith, n_same, at j l),
        ap (λ (k : CpuState). length k.lr) own
            ∙ length-copy_lrs drained.core.lrs 0 drained.lr_count (cpu_at drained index).lr
            ∙ size,
        ap (λ (b : HwBank). b.vmcr) banked ∙ vm,
        n_same,
        omega (arith, length-set drained.cpus index c, inside),
        ap (λ (k : CpuState). length k.lr_token) own ∙ toks,
        ap (λ (k : CpuState). k.redist) own ∙ red,
        ds,
        ts,
        length-set drained.hw index bank ∙ ap length hw_same,
      )

-- What a refill of `index` reads beside the registers, of the source's widths.
pub record IsPosted (s : Vgic) (index : ℕ) : Type 0 where
  pub spis : length (tokens_at s (vm_of index)) ≡ 32
  pub private_word : (cpu_at s index).redist.pending < 2 ^ 32
  pub spi_word : (dist_at s (vm_of index)).spi_pending < 2 ^ 32
  pub bytes : (id : ℕ) → priority_of (refill_bank s index) id < 256

module _ (eisr : List ℕ → ℕ) (reads : IsEisr eisr) (s : Vgic) (index : ℕ) (v : IsResident s index)
    (w : IsPosted s index) where
  kept : Vgic
  kept = (cpu_save eisr s index).0

  -- A register of the saved shadow that is in flight is that of the hardware.
  saved-Busy :
      (j : ℕ)
      → j < s.lr_count
      → Busy (cpu_at (cpu_save eisr s index).0 index).lr j
      → get_or (cpu_at (cpu_save eisr s index).0 index).lr j 0 ≡ get_or s.core.lrs j 0
  saved-Busy j l b =
      let at = (saved_lem eisr reads s index v).0 j l in
      elim (Bool-cases (bit (eisr s.core.lrs) j)) [
        | inr f ↦ at ∙ ground arith
        | inl t ↦
            let gone : get_or (cpu_at (cpu_save eisr s index).0 index).lr j 0 ≡ 0 =
              at ∙ ground arith in
            absurd (cc (sym b ∙ ap lr_in_flight gone ∙ lr_in_flight-zero))
      ]

  pub saved-IsBank : IsBank s.lr_count (refill_bank (cpu_save eisr s index).0 index)
  saved-IsBank =
      let (at, size, _, _, _, toks, red, ds, ts, _) = saved_lem eisr reads s index v in
      let count = v.count in
      record {
        slots = omega arith;
        slot_tokens = toks ∙ sym size;
        spis = rw ts w.spis;
        private_word = rw red w.private_word;
        spi_word = rw ds w.spi_word;
        bytes = λ id. rw (red, ds) (w.bytes id);
        distinct = λ i j id hi hj (bi, ei) (bj, ej).
            let si = saved-Busy i hi bi in
            let sj = saved-Busy j hj bj in
            v.distinct i j id hi hj (rw (← si) (bi, ei)) (rw (← sj) (bj, ej));
      }
