-- ===== src/Vdev/Vgic/Serve.antt =====
-- What the reevaluations that an access asks for can change (vgic.cpp, `request_reevaluate`, `flush`
-- and `reevaluate`).
use novavisor.Base.{ℕ}
use novavisor.Base.{◌≡◌, refl, sym, ap, ◌∙◌, ◌≢◌, inl, inr}
use novavisor.Base.{Bool, List, [], ◌∷◌}
use novavisor.Base.{◌==◌, if◌then◌else◌, Bool-cases}
use novavisor.Base.{if-cases, replicate}
use novavisor.Base.{get_or-set_ne}
use novavisor.Vcpu.Power.{vm_of, vcpu_of}
use novavisor.Vdev.Delivery.{no_token, Bank, refill}
use novavisor.Vdev.Vgic.{hcr_base, Vgic}
use novavisor.Vdev.Vgic.{fresh_cpu, fresh_dist, cpu_at, bank_at, dist_at}
use novavisor.Vdev.Vgic.{tokens_at, sync_resident_lrs, refill_bank, put_bank}
use novavisor.Vdev.Vgic.{vcpus_of, flush, has_deliverable}
use novavisor.Vdev.Vgic.{reevaluate, serve}

-- Nothing of another VM differs, and the same vCPU is resident.
abbrev pub SameVms : ℕ → Vgic → Vgic → Type 0
SameVms vm s s' =
    ((slot : ℕ) → vm_of slot ≢ vm → cpu_at s' slot ≡ cpu_at s slot)
    × ((slot : ℕ) → vm_of slot ≢ vm → bank_at s' slot ≡ bank_at s slot)
    × ((other : ℕ) → other ≢ vm → dist_at s' other ≡ dist_at s other)
    × ((other : ℕ) → other ≢ vm → tokens_at s' other ≡ tokens_at s other)
    × (s'.core.resident ≡ s.core.resident)

pub same_SameVms : (vm : ℕ) (s : Vgic) → SameVms vm s s
same_SameVms vm s = (λ o n. refl, λ o n. refl, λ o n. refl, λ o n. refl, refl)

pub SameVms-trans : (vm : ℕ) (s t u : Vgic) → SameVms vm s t → SameVms vm t u → SameVms vm s u
SameVms-trans vm s t u (a, b, c, d, e) (a', b', c', d', e') = (
  λ o n. a' o n ∙ a o n,
  λ o n. b' o n ∙ b o n,
  λ o n. c' o n ∙ c o n,
  λ o n. d' o n ∙ d o n,
  e' ∙ e,
)

-- Every slot of the list belongs to the VM.
abbrev pub AllOf : ℕ → List ℕ → Type 0
AllOf vm [] = Unit
AllOf vm (slot ∷ slots) = (vm_of slot ≡ vm) × AllOf vm slots

-- A slot of another VM is another slot.
apart : (vm slot other : ℕ) → vm_of slot ≡ vm → vm_of other ≢ vm → slot ≢ other
apart vm slot other e n same = n (ap vm_of (sym same) ∙ e)

sync-SameVms : (vm slot : ℕ) (s : Vgic) → vm_of slot ≡ vm → SameVms vm s (sync_resident_lrs s slot)
unfolding sync_resident_lrs
sync-SameVms vm slot s e = elim (Bool-cases (slot == s.core.resident)) [
  | inl t ↦ rw t (
    λ o n. get_or-set_ne s.cpus slot o _ fresh_cpu (apart vm slot o e n),
    λ o n. refl,
    λ o n. refl,
    λ o n. refl,
    refl,
  )
  | inr f ↦ rw f (same_SameVms vm s)
]

put_bank-SameVms :
    (vm slot : ℕ) (s : Vgic) (b : Bank) → vm_of slot ≡ vm → SameVms vm s (put_bank s slot b)
put_bank-SameVms vm slot s b e = (
  λ o n. get_or-set_ne s.cpus slot o b.cpu fresh_cpu (apart vm slot o e n),
  λ o n. refl,
  λ o n. get_or-set_ne s.dists (vm_of slot) o b.dist fresh_dist (λ q. n (sym q ∙ e)),
  λ o n.
      get_or-set_ne s.spi_tokens (vm_of slot) o b.spi_tokens (replicate 32 no_token)
        (λ q. n (sym q ∙ e)),
  refl,
)

module _ (guests : List ℕ) (vm : ℕ) where
  pub flush-SameVms : (s : Vgic) (slot : ℕ) → vm_of slot ≡ vm → SameVms vm s (flush guests s slot)
  unfolding flush
  flush-SameVms s slot e =
      let s1 = sync_resident_lrs s slot in
      let r =
        refill (refill_bank s1 slot) s1.lr_count (vcpu_of slot) (vcpus_of guests (vm_of slot)) in
      let s2 = put_bank s1 slot ((r).0) in
      let (a, b, c, d, k) =
        SameVms-trans vm s s1 s2 (sync-SameVms vm slot s e)
          (put_bank-SameVms vm slot s1 ((r).0) e) in
      elim (Bool-cases (slot == s.core.resident)) [
        | inl t ↦ rw t (a, b, c, d, k)
        | inr f ↦ rw f (
          a,
          λ o n.
              get_or-set_ne s2.hw slot o _ (record { vmcr = 0; hcr = hcr_base })
                (apart vm slot o e n)
              ∙ b o n,
          c,
          d,
          k,
        )
      ]

  reevaluate-SameVms :
      (s : Vgic) (slot : ℕ) → vm_of slot ≡ vm → SameVms vm s (reevaluate guests s slot).0
  unfolding reevaluate has_deliverable
  reevaluate-SameVms s slot e =
      let t = flush guests s slot in
      SameVms-trans vm s t (sync_resident_lrs t slot) (flush-SameVms s slot e)
        (sync-SameVms vm slot t e)

  -- Reevaluations of a VM's vCPUs change nothing of another VM.
  pub serve-SameVms :
      (here : ℕ → Bool) (slots : List ℕ) (s : Vgic)
      → AllOf vm slots
      → SameVms vm s (serve guests here s slots)
  unfolding serve
  serve-SameVms here [] s all = same_SameVms vm s
  serve-SameVms here (slot ∷ slots) s (e, all) =
      let next : Vgic = if here slot then (reevaluate guests s slot).0 else s in
      let one : SameVms vm s next =
        if-cases {A = Vgic} (SameVms vm s) (here slot) (λ t. reevaluate-SameVms s slot e)
          (λ f. same_SameVms vm s) in
      SameVms-trans vm s next (serve guests here next slots) one (serve-SameVms here slots next all)
