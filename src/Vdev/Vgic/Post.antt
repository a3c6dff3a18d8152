-- ===== src/Vdev/Vgic/Post.antt =====
-- The posting of interrupts (vgic.cpp, `post_private`, `post_spi` and `post_spi_tracked`).
use novavisor.Base.{ℕ, ◌-◌, ◌^◌, ◌≤◌, ◌<◌, bit_or}
use novavisor.Base.{◌≡◌, refl, sym, ap, ◌∙◌, ◌≢◌, ◌⊎◌, inl, inr}
use novavisor.Base.{Bool, true, false, ◌||◌, Option, List}
use novavisor.Base.{arith, dec_lt}
use novavisor.Base.{leb, ◌==◌, Bool-cases}
use novavisor.Base.{length, get_or, set, replicate}
use novavisor.Base.{length-set, get_or-set_self, get_or-set_ne}
use novavisor.Base.{bit, bit-bit_or, bit-pow}
use novavisor.Base.{bit_or-lt}
use novavisor.Base.{pow_lt}
use novavisor.Vcpu.Power.{vm_of, vcpu_of}
use novavisor.Vdev.Gic.Offsets.{max_intid, num_private}
use novavisor.Vdev.Delivery.{EoiToken, valid, no_token, CpuState}
use novavisor.Vdev.Delivery.{Bank}
use novavisor.Vdev.Delivery.{refill}
use novavisor.Vdev.Delivery.Scan.{Holds}
use novavisor.Vdev.Delivery.Refill.{pending_at, IsBank}
use novavisor.Vdev.Delivery.Refill.Guarantees.{refill_conserves}
use novavisor.Vdev.Vgic.{Vgic}
use novavisor.Vdev.Vgic.{fresh_cpu, fresh_dist, cpu_at, put_cpu, dist_at}
use novavisor.Vdev.Gic.{DistState}
use novavisor.Vdev.Vgic.Save.{get_or-copy_lrs}
use novavisor.Vdev.Vgic.{tokens_at, copy_lrs, sync_resident_lrs, refill_bank, put_bank}
use novavisor.Vdev.Vgic.{vcpus_of, flush}
use novavisor.Vdev.Vgic.{post_private, bad_spi}
use novavisor.Vdev.Vgic.{post_spi_tracked}

-- What `flush` refills.
abbrev pub flushed_bank : Vgic → ℕ → Bank
flushed_bank s index = refill_bank (sync_resident_lrs s index) index

abbrev pub IsReady : Vgic → ℕ → Type 0
IsReady s index =
    (index < length s.cpus)
    × (vm_of index < length s.dists)
    × (vm_of index < length s.spi_tokens)
    × IsBank s.lr_count (flushed_bank s index)

refill_bank-put_bank :
    (s : Vgic) (index : ℕ) (b : Bank)
    → index < length s.cpus
    → vm_of index < length s.dists
    → vm_of index < length s.spi_tokens
    → refill_bank (put_bank s index b) index ≡ b
refill_bank-put_bank s index b h k l =
    let c = get_or-set_self s.cpus index b.cpu fresh_cpu h in
    let d = get_or-set_self s.dists (vm_of index) b.dist fresh_dist k in
    let t = get_or-set_self s.spi_tokens (vm_of index) b.spi_tokens (replicate 32 no_token) l in cc

sync_same :
    (s : Vgic) (index : ℕ)
    → (length (sync_resident_lrs s index).cpus ≡ length s.cpus)
      × ((sync_resident_lrs s index).dists ≡ s.dists)
      × ((sync_resident_lrs s index).spi_tokens ≡ s.spi_tokens)
      × ((sync_resident_lrs s index).lr_count ≡ s.lr_count)
unfolding sync_resident_lrs
sync_same s index = elim (Bool-cases (index == s.core.resident)) [
  | inl t ↦ rw t (length-set s.cpus index _, refl, refl, refl)
  | inr f ↦ rw f (refl, refl, refl, refl)
]

sync_core : (s : Vgic) (index : ℕ) → (sync_resident_lrs s index).core ≡ s.core
unfolding sync_resident_lrs
sync_core s index = elim (Bool-cases (index == s.core.resident)) [
  | inl t ↦ rw t refl
  | inr f ↦ rw f refl
]

module _ (guests : List ℕ) (s : Vgic) (index : ℕ) (h : IsReady s index) where
  abbrev result : Bank × Option Bool
  result = refill (flushed_bank s index) s.lr_count (vcpu_of index) (vcpus_of guests (vm_of index))

  -- A flush leaves the refilled bank, wherever the vCPU is.
  pub flush_bank : refill_bank (flush guests s index) index ≡ (result).0
  unfolding flush
  flush_bank =
      let (a, b, c, _) = h in
      let (x, y, z, n) = sync_same s index in
      let put =
        refill_bank-put_bank (sync_resident_lrs s index) index ((result).0) (rw x a) (rw y b)
          (rw z c) in
      elim (Bool-cases (index == s.core.resident)) [
        | inl t ↦ rw t (rw n put)
        | inr f ↦ rw f (rw n put)
      ]

  -- A flush writes the shadow registers of the resident vCPU to the hardware.
  pub flush_writes :
      s.lr_count ≤ length s.core.lrs
      → index ≡ s.core.resident
      → (j : ℕ) → j < s.lr_count
      → get_or (flush guests s index).core.lrs j 0 ≡ get_or ((result).0).cpu.lr j 0
  unfolding flush
  flush_writes fits here j l =
      let t : (index == s.core.resident) ≡ true = ground arith in
      let (_, _, _, n) = sync_same s index in
      rw t (
        rw (n, sync_core s index)
          (get_or-copy_lrs ((result).0).cpu.lr 0 s.lr_count s.core.lrs j (omega (arith, fits))
            ∙ ground (arith, l)))

  -- The list registers that the vCPU has, the hardware's among them if it is resident, hold `id`.
  abbrev pub IsLoaded : Vgic → ℕ → Type 0
  IsLoaded s' id =
      Holds (cpu_at s' index).lr s.lr_count id
      × (index ≡ s.core.resident → Holds s'.core.lrs s.lr_count id)

  -- A flush loses no interrupt: one that was pending is pending still, or in a list register of the shadow, and of the hardware if the vCPU is resident.
  pub flush_keeps :
      (id : ℕ)
      → s.lr_count ≤ length s.core.lrs
      → id < max_intid
      → pending_at (flushed_bank s index) id ≡ true
      → (pending_at (refill_bank (flush guests s index) index) id ≡ true)
        ⊎ IsLoaded (flush guests s index) id
  flush_keeps id fits l p =
      let (_, _, _, v) = h in
      elim (refill_conserves s.lr_count (flushed_bank s index) (vcpu_of index)
        (vcpus_of guests (vm_of index)) v id l) [
          | inl (same, _, _) ↦ inl (ap (λ b. pending_at b id) flush_bank ∙ same ∙ p)
          | inr (_, _, _, _, (i, hi, c, _, _)) ↦
              let shadow = ap (λ (b : Bank). b.cpu.lr) flush_bank in
              inr ((i, hi, rw shadow c), λ here. (i, hi, rw (flush_writes fits here i hi) c))
        ]

abbrev marked : CpuState → ℕ → CpuState
marked cpu vintid = record cpu {
  redist = record cpu.redist { pending = bit_or cpu.redist.pending (2 ^ vintid) };
}

abbrev marked_bank : Bank → ℕ → Bank
marked_bank b vintid = record b { cpu = marked b.cpu vintid }

-- Marking an interrupt pending commutes with reading the registers back.
flushed_bank-marked :
    (s : Vgic) (index vintid : ℕ)
    → index < length s.cpus
    → flushed_bank (put_cpu s index (marked (cpu_at s index) vintid)) index
      ≡ marked_bank (flushed_bank s index) vintid
unfolding sync_resident_lrs
flushed_bank-marked s index vintid h =
    let own = get_or-set_self s.cpus index (marked (cpu_at s index) vintid) fresh_cpu h in
    elim (Bool-cases (index == s.core.resident)) [
      | inl t ↦
          let c = record (cpu_at s index) {
            lr = copy_lrs s.core.lrs 0 s.lr_count (cpu_at s index).lr;
          } in
          let s' = put_cpu s index (marked (cpu_at s index) vintid) in
          let c' = record (cpu_at s' index) {
            lr = copy_lrs s.core.lrs 0 s.lr_count (cpu_at s' index).lr;
          } in
          let a = get_or-set_self s.cpus index c fresh_cpu h in
          let b =
            get_or-set_self s'.cpus index c' fresh_cpu
              (rw (length-set s.cpus index (marked (cpu_at s index) vintid)) h) in
          rw t (rw (b, a, own) refl)
      | inr f ↦ rw f (rw own refl)
    ]

marked-IsBank :
    (n : ℕ) (b : Bank) (vintid : ℕ) → vintid < 32 → IsBank n b → IsBank n (marked_bank b vintid)
marked-IsBank n b vintid h v = record {
  slots = v.slots;
  slot_tokens = v.slot_tokens;
  spis = v.spis;
  private_word = bit_or-lt 32 b.cpu.redist.pending (2 ^ vintid) v.private_word (pow_lt vintid 32 h);
  spi_word = v.spi_word;
  bytes = v.bytes;
  distinct = v.distinct;
}

marked-IsReady :
    (s : Vgic) (index vintid : ℕ)
    → vintid < 32
    → IsReady s index
    → IsReady (put_cpu s index (marked (cpu_at s index) vintid)) index
marked-IsReady s index vintid l (a, b, c, v) = (
  rw (length-set s.cpus index (marked (cpu_at s index) vintid)) a,
  b,
  c,
  rw (flushed_bank-marked s index vintid a)
      (marked-IsBank s.lr_count (flushed_bank s index) vintid l v),
)

marked_pending :
    (b : Bank) (vintid : ℕ) → vintid < 32 → pending_at (marked_bank b vintid) vintid ≡ true
marked_pending b vintid l =
    let low : leb num_private vintid ≡ false = ground arith in
    rw low
      (bit-bit_or b.cpu.redist.pending (2 ^ vintid) vintid ∙ ground (arith, bit-pow vintid vintid))

post_private-ok :
    (guests : List ℕ) (s : Vgic) (index vintid : ℕ)
    → vintid < 32
    → post_private guests s index vintid
      ≡ (flush guests (put_cpu s index (marked (cpu_at s index) vintid)) index, true)
unfolding post_private
post_private-ok guests s index vintid l =
    let low : leb num_private vintid ≡ false = ground arith in rw low refl

-- A private interrupt that is posted is accepted just when its number is below 32, and is then pending, or in a list register of its vCPU: in the shadow, and in the hardware register too if the vCPU is resident. A refused post changes nothing.
pub post_private-kept :
    (guests : List ℕ) (s : Vgic) (index vintid : ℕ)
    → (h : IsReady s index) → s.lr_count ≤ length s.core.lrs
    → ((vintid < num_private)
        × ((post_private guests s index vintid).1 ≡ true)
        × ((pending_at (refill_bank (post_private guests s index vintid).0 index) vintid ≡ true)
            ⊎ IsLoaded guests s index h (post_private guests s index vintid).0 vintid))
      ⊎ ((num_private ≤ vintid) × (post_private guests s index vintid ≡ (s, false)))
unfolding post_private
post_private-kept guests s index vintid h fits = elim (dec_lt vintid num_private) [
  | no ge ↦ inr (omega arith, ground arith)
  | yes l ↦
      let m = put_cpu s index (marked (cpu_at s index) vintid) in
      let bank = flushed_bank-marked s index vintid (h).0 in
      let set_bit =
        ap (λ (b : Bank). pending_at b vintid) bank
        ∙ marked_pending (flushed_bank s index) vintid l in
      rw (post_private-ok guests s index vintid l) (
        inl (
          l,
          refl,
          flush_keeps guests m index (marked-IsReady s index vintid l h) vintid fits (omega arith)
              set_bit,
        ))
]

-- Nothing differs but, in the VM's distributor, the pending bit `k`, and among its SPI tokens, the one at `k`.
abbrev pub SameButSpi : ℕ → ℕ → Vgic → Vgic → Type 0
SameButSpi vm k s s' =
    (s'.cpus ≡ s.cpus)
    × (s'.hw ≡ s.hw)
    × (s'.core ≡ s.core)
    × ((other : ℕ) → other ≢ vm → dist_at s' other ≡ dist_at s other)
    × ((other : ℕ) → other ≢ vm → tokens_at s' other ≡ tokens_at s other)
    × (dist_at s' vm ≡ record (dist_at s vm) { spi_pending = (dist_at s' vm).spi_pending })
    × ((j : ℕ)
        → k ≢ j
        → (bit (dist_at s' vm).spi_pending j ≡ bit (dist_at s vm).spi_pending j)
          × (get_or (tokens_at s' vm) j no_token ≡ get_or (tokens_at s vm) j no_token))

same_SameButSpi : (vm k : ℕ) (s : Vgic) → SameButSpi vm k s s
same_SameButSpi vm k s = (refl, refl, refl, λ o n. refl, λ o n. refl, refl, λ j n. (refl, refl))

bound_SameButSpi :
    (s : Vgic) (vm k : ℕ) (t : EoiToken)
    → vm < length s.dists
    → vm < length s.spi_tokens
    → SameButSpi vm k s (record s {
      spi_tokens = set s.spi_tokens vm (set (tokens_at s vm) k t);
      dists =
          set s.dists vm
            (record (dist_at s vm) { spi_pending = bit_or (dist_at s vm).spi_pending (2 ^ k) });
    })
bound_SameButSpi s vm k t h l =
    let d = record (dist_at s vm) { spi_pending = bit_or (dist_at s vm).spi_pending (2 ^ k) } in
    let ts = set (tokens_at s vm) k t in
    let own = get_or-set_self s.dists vm d fresh_dist h in
    let own_tokens = get_or-set_self s.spi_tokens vm ts (replicate 32 no_token) l in
    (
      refl,
      refl,
      refl,
      λ o n. get_or-set_ne s.dists vm o d fresh_dist (λ e. n (sym e)),
      λ o n. get_or-set_ne s.spi_tokens vm o ts (replicate 32 no_token) (λ e. n (sym e)),
      rw own refl,
      λ j n. (
        ap (λ (x : DistState). bit x.spi_pending j) own
            ∙ bit-bit_or (dist_at s vm).spi_pending (2 ^ k) j
            ∙ ground (arith, bit-pow k j, n),
        ap (λ x. get_or x j no_token) own_tokens ∙ get_or-set_ne (tokens_at s vm) k j t no_token n,
      ),
    )

-- The token that `post_spi_tracked` binds is for the physical interrupt and the generation it was called with, if it answers true; a live token is never replaced, and a refusal changes nothing. In every case, before the reevaluation that it asks for, no list register, no hardware register and no other VM's state differs, and of the VM's own distributor and SPI tokens only the pending bit and the token of that interrupt may.
pub post_spi_tracked-binds :
    (guests : List ℕ) (s : Vgic) (vm vintid physical generation : ℕ)
    → vm < length s.dists
    → vm < length s.spi_tokens
    → length (tokens_at s vm) ≡ 32
    → let r = post_spi_tracked guests s vm vintid physical generation in
      let before = get_or (tokens_at s vm) (vintid - num_private) no_token in
      let after = get_or (tokens_at ((r).0) vm) (vintid - num_private) no_token in
      ((r).1 ≡ true
        → (num_private ≤ vintid)
          × (vintid < max_intid)
          × (after.physical_intid ≡ physical)
          × (after.generation ≡ generation)
          × (generation ≢ 0))
      × ((r).1 ≡ false → (r).0 ≡ s)
      × (valid before ≡ true → (r).0 ≡ s)
      × SameButSpi vm (vintid - num_private) s ((r).0)
unfolding post_spi_tracked
post_spi_tracked-binds guests s vm vintid physical generation inside h size =
    let k = vintid - num_private in
    let bound : EoiToken = record {
      virtual_intid = vintid;
      physical_intid = physical;
      generation = generation;
    } in
    let ts = set (tokens_at s vm) k bound in
    let own = get_or-set_self s.spi_tokens vm ts (replicate 32 no_token) h in
    let here = λ (l : k < 32). get_or-set_self (tokens_at s vm) k bound no_token (rw size l) in
    elim (Bool-cases (bad_spi guests vm vintid || (generation == 0))) [
      | inl t ↦ rw t (λ e. absurd (cc e), λ _. refl, λ _. refl, same_SameButSpi vm k s)
      | inr f ↦ rw f (elim (Bool-cases (valid (get_or (tokens_at s vm) k no_token))) [
        | inl live ↦ rw live (λ e. ground arith, λ _. refl, λ _. refl, same_SameButSpi vm k s)
        | inr dead ↦ rw dead (
          λ e. rw (own, here (ground arith)) (ground arith),
          λ e. absurd (cc e),
          λ e. absurd (cc),
          bound_SameButSpi s vm k bound inside h,
        )
      ])
    ]
