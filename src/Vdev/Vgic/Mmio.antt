-- ===== src/Vdev/Vgic/Mmio.antt =====
-- What a guest's access to the emulated frames can change (vgic.cpp, `handle_mmio`, `dist_mmio` and
-- `redist_mmio`).
use novavisor.Base.{ℕ, zero, suc, ◌+◌, ◌-◌, ◌*◌, ◌%◌, ◌^◌, ◌≤◌, ◌<◌}
use novavisor.Base.{◌≡◌, refl, sym, ap, ◌∙◌, ◌≢◌, inl, inr}
use novavisor.Base.{Bool, true, false, not, ◌&&◌, ◌||◌, Option, none, some, List, [], ◌∷◌}
use novavisor.Base.{arith}
use novavisor.Base.{ltb, leb, ◌==◌, if◌then◌else◌, Bool-cases}
use novavisor.Base.{length, get_or, set, replicate}
use novavisor.Base.{get_or-set_self, get_or-set_ne}
use novavisor.Base.{bit}
use mathlib.Core.Path.{subst}
use novavisor.Vcpu.Power.{max_vcpus_per_vm, vm_of, slot_of}
use novavisor.Vdev.Gic.{RedistState, DistState, dist_write, redist_write, decode_redist_frame}
use novavisor.Vdev.Gic.Offsets.{gicd_icpendr1, gicr_frame_size}
use novavisor.Vdev.Gic.Enables.{dist_write-bits}
use novavisor.Vdev.Delivery.{CpuState, no_token, valid, pending_token_mask}
use novavisor.Vdev.Delivery.Wanted.{pending_token_mask-bit}
use novavisor.Vdev.Vgic.{no_resident}
use novavisor.Vdev.Vgic.{Vgic}
use novavisor.Vdev.Vgic.{fresh_cpu, fresh_dist, cpu_at, put_cpu, dist_at}
use novavisor.Vdev.Vgic.{tokens_at}
use novavisor.Vdev.Vgic.{vcpus_of, serve, hcr_base, Core}
use novavisor.Vdev.Vgic.Requests.{frame_vcpu, vm_of-slot_of, dist_mmio-AllOf, redist_mmio-AllOf}
use novavisor.Vdev.Vgic.Serve.{SameVms, SameVms-trans, AllOf, serve-SameVms}
use novavisor.Vdev.Vgic.{dist_mmio, redist_mmio, gicd_ipa_base, gicr_ipa_base}
use novavisor.Vdev.Vgic.{gicd_frame_size, handle_mmio}

-- Nothing of another VM, and nothing that this core or the list registers hold, differs.
abbrev pub SameBeyond : ℕ → Vgic → Vgic → Type 0
SameBeyond vm s s' =
    ((slot : ℕ) → vm_of slot ≢ vm → cpu_at s' slot ≡ cpu_at s slot)
    × ((other : ℕ) → other ≢ vm → dist_at s' other ≡ dist_at s other)
    × ((slot : ℕ) → (cpu_at s' slot).lr ≡ (cpu_at s slot).lr)
    × ((slot : ℕ) → (cpu_at s' slot).lr_token ≡ (cpu_at s slot).lr_token)
    × (s'.spi_tokens ≡ s.spi_tokens)
    × (s'.hw ≡ s.hw)
    × (s'.core ≡ s.core)

same_SameBeyond : (vm : ℕ) (s : Vgic) → SameBeyond vm s s
same_SameBeyond vm s = (λ slot n. refl, λ o n. refl, λ slot. refl, λ slot. refl, refl, refl, refl)

dist_mmio-SameBeyond :
    (guests : List ℕ) (s : Vgic) (off size : ℕ) (value : Option ℕ)
    → SameBeyond (vm_of s.core.resident) s (dist_mmio guests s off size value).0
unfolding dist_mmio
dist_mmio-SameBeyond guests s off size none = elim (Bool-cases (s.core.resident == no_resident)) [
  | inl t ↦ rw t (same_SameBeyond (vm_of s.core.resident) s)
  | inr f ↦ rw f (same_SameBeyond (vm_of s.core.resident) s)
]
dist_mmio-SameBeyond guests s off size (some value) =
    let vm = vm_of s.core.resident in
    let keep = if off == gicd_icpendr1 then pending_token_mask (tokens_at s vm) else 0 in
    let w = dist_write (dist_at s vm) off size value keep in
    let d = λ (other : ℕ) (n : other ≢ vm).
      get_or-set_ne s.dists vm other ((w).1) fresh_dist (λ e. n (sym e)) in
    let changed : SameBeyond vm s (record s { dists = set s.dists vm ((w).1) }) =
      (λ slot n. refl, d, λ slot. refl, λ slot. refl, refl, refl, refl) in
    elim (Bool-cases (s.core.resident == no_resident)) [
      | inl t ↦ rw t (same_SameBeyond vm s)
      | inr f ↦
          rw f
            (elim (Bool-cases (not ((w).0).known)) [ inl k ↦ rw k changed | inr k ↦ rw k changed ])
    ]

-- A write of a redistributor's registers leaves the list registers and their tokens.
redist_only :
    (cpus : List CpuState) (slot other : ℕ) (r : RedistState)
    → let after = get_or (set cpus slot (record (get_or cpus slot fresh_cpu) { redist = r })) in
      ((after other fresh_cpu).lr ≡ (get_or cpus other fresh_cpu).lr)
      × ((after other fresh_cpu).lr_token ≡ (get_or cpus other fresh_cpu).lr_token)
redist_only [] slot other r = (refl, refl)
redist_only (c ∷ cpus) zero zero r = (refl, refl)
redist_only (c ∷ cpus) zero (suc other) r = (refl, refl)
redist_only (c ∷ cpus) (suc slot) zero r = (refl, refl)
redist_only (c ∷ cpus) (suc slot) (suc other) r = redist_only cpus slot other r

redist_mmio-SameBeyond :
    (guests : List ℕ) (s : Vgic) (off size : ℕ) (value : Option ℕ)
    → ((vm : ℕ) → vcpus_of guests vm ≤ max_vcpus_per_vm)
    → SameBeyond (vm_of s.core.resident) s (redist_mmio guests s off size value).0
unfolding redist_mmio
redist_mmio-SameBeyond guests s off size none few =
    let vm = vm_of s.core.resident in
    elim (Bool-cases (s.core.resident == no_resident)) [
      | inl t ↦ rw t (same_SameBeyond vm s)
      | inr f ↦ rw f (elim (Bool-cases (not (decode_redist_frame off (vcpus_of guests vm)).valid)) [
        | inl k ↦ rw k (same_SameBeyond vm s)
        | inr k ↦ rw k (same_SameBeyond vm s)
      ])
    ]
redist_mmio-SameBeyond guests s off size (some value) few =
    let vm = vm_of s.core.resident in
    let frame = decode_redist_frame off (vcpus_of guests vm) in
    let slot = slot_of vm frame.vcpu in
    let w = redist_write (cpu_at s slot).redist frame.offset size value in
    let new = record (cpu_at s slot) { redist = (w).1 } in
    let changed : frame.valid ≡ true → SameBeyond vm s (put_cpu s slot new) = λ ok. (
      λ other n. get_or-set_ne s.cpus slot other new fresh_cpu (λ e. n (
          ap vm_of (sym e)
          ∙ vm_of-slot_of vm frame.vcpu
              (omega (arith, frame_vcpu off (vcpus_of guests vm) ok, few vm)))),
      λ other n. refl,
      λ other. (redist_only s.cpus slot other ((w).1)).0,
      λ other. (redist_only s.cpus slot other ((w).1)).1,
      refl,
      refl,
      refl,
    ) in
    elim (Bool-cases (s.core.resident == no_resident)) [
      | inl t ↦ rw t (same_SameBeyond vm s)
      | inr f ↦ rw f (elim (Bool-cases frame.valid) [
        | inr k ↦ rw k (same_SameBeyond vm s)
        | inl k ↦ rw k (elim (Bool-cases (not ((w).0).known)) [
          | inl q ↦ rw q (changed k)
          | inr q ↦ rw q (changed k)
        ])
      ])
    ]

-- What an access leaves before the reevaluations that it asks for, all of them of the VM's vCPUs.
abbrev pub Isolated : ℕ → Vgic → Vgic × ℕ × List ℕ → Type 0
Isolated vm s r = SameBeyond vm s ((r).0) × AllOf vm ((r).2)

dist_mmio-Isolated :
    (guests : List ℕ) (s : Vgic) (off size : ℕ) (value : Option ℕ)
    → ((vm : ℕ) → vcpus_of guests vm ≤ max_vcpus_per_vm)
    → Isolated (vm_of s.core.resident) s (dist_mmio guests s off size value)
dist_mmio-Isolated guests s off size value few =
    (dist_mmio-SameBeyond guests s off size value, dist_mmio-AllOf guests s off size value few)

redist_mmio-Isolated :
    (guests : List ℕ) (s : Vgic) (off size : ℕ) (value : Option ℕ)
    → ((vm : ℕ) → vcpus_of guests vm ≤ max_vcpus_per_vm)
    → Isolated (vm_of s.core.resident) s (redist_mmio guests s off size value)
redist_mmio-Isolated guests s off size value few = (
  redist_mmio-SameBeyond guests s off size value few,
  redist_mmio-AllOf guests s off size value few,
)

SameBeyond-SameVms : (vm : ℕ) (s t : Vgic) → SameBeyond vm s t → SameVms vm s t
SameBeyond-SameVms vm s t (a, b, _, _, tokens, hw, core) = (
  a,
  λ o n. ap (λ h. get_or h o (record { vmcr = 0; hcr = hcr_base })) hw,
  b,
  λ o n. ap (λ x. get_or x o (replicate 32 no_token)) tokens,
  ap (λ (c : Core). c.resident) core,
)

handle_mmio-Isolated :
    (guests : List ℕ) (s : Vgic) (ipa size : ℕ) (value : Option ℕ) (r : Vgic × ℕ × List ℕ)
    → ((vm : ℕ) → vcpus_of guests vm ≤ max_vcpus_per_vm)
    → handle_mmio guests s ipa size value ≡ some r
    → Isolated (vm_of s.core.resident) s r
unfolding handle_mmio
handle_mmio-Isolated guests s ipa size value r few h =
    let vm = vm_of s.core.resident in
    elim (Bool-cases (leb gicd_ipa_base ipa && ltb ipa (gicd_ipa_base + gicd_frame_size))) [
      | inl t ↦
          let e : dist_mmio guests s (ipa - gicd_ipa_base) size value ≡ r = ground arith in
          subst (Isolated vm s) e (dist_mmio-Isolated guests s (ipa - gicd_ipa_base) size value few)
      | inr f ↦
          elim (Bool-cases (
            leb gicr_ipa_base ipa
            && ltb ipa (gicr_ipa_base + max_vcpus_per_vm * gicr_frame_size))) [
              | inl t ↦
                  let e : redist_mmio guests s (ipa - gicr_ipa_base) size value ≡ r =
                    ground arith in
                  subst (Isolated vm s) e
                    (redist_mmio-Isolated guests s (ipa - gicr_ipa_base) size value few)
              | inr g ↦ absurd (ground arith)
            ]
    ]

-- A guest's access to the emulated frames changes nothing of another VM's controller state, and no list register, no token and no hardware register at all before the reevaluations that it asks for; these are of its own VM's vCPUs only, and after those that this core serves at once there is still nothing changed of another VM, and the same vCPU is resident.
pub handle_mmio-isolates :
    (guests : List ℕ) (here : ℕ → Bool) (s s' : Vgic) (ipa size v : ℕ) (value : Option ℕ)
    (requests : List ℕ)
    → ((vm : ℕ) → vcpus_of guests vm ≤ max_vcpus_per_vm)
    → handle_mmio guests s ipa size value ≡ some (s', v, requests)
    → SameBeyond (vm_of s.core.resident) s s'
      × AllOf (vm_of s.core.resident) requests
      × SameVms (vm_of s.core.resident) s (serve guests here s' requests)
handle_mmio-isolates guests here s s' ipa size v value requests few h =
    let vm = vm_of s.core.resident in
    let (same, all) = handle_mmio-Isolated guests s ipa size value (s', v, requests) few h in
    (
      same,
      all,
      SameVms-trans vm s s' (serve guests here s' requests) (SameBeyond-SameVms vm s s' same)
          (serve-SameVms guests vm here requests s' all),
    )

-- When a guest clears pending SPIs, exactly those that it named and that owe no device an end of interrupt are cleared; every SPI with a live token is pending afterwards.
pub live_tokens_survive :
    (guests : List ℕ) (s : Vgic) (value j : ℕ)
    → s.core.resident ≢ no_resident
    → vm_of s.core.resident < length s.dists
    → length (tokens_at s (vm_of s.core.resident)) ≡ 32
    → j < 32
    → bit
        (dist_at
          (dist_mmio guests s gicd_icpendr1 4 (some value)).0
          (vm_of s.core.resident)).spi_pending
        j
      ≡ ((bit (dist_at s (vm_of s.core.resident)).spi_pending j && not (bit (value % 2 ^ 32) j))
          || valid (get_or (tokens_at s (vm_of s.core.resident)) j no_token))
unfolding dist_mmio
live_tokens_survive guests s value j here inside size l =
    let vm = vm_of s.core.resident in
    let keep = pending_token_mask (tokens_at s vm) in
    let w = dist_write (dist_at s vm) gicd_icpendr1 4 value keep in
    let own = get_or-set_self s.dists vm ((w).1) fresh_dist inside in
    let some_here : (s.core.resident == no_resident) ≡ false = ground arith in
    rw some_here (
      ap (λ (d : DistState). bit d.spi_pending j) own
      ∙ (dist_write-bits (dist_at s vm) value keep j l).3
      ∙ ground (arith, pending_token_mask-bit (tokens_at s vm) j))
