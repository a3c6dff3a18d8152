-- ===== src/Vcpu/Switch/Swap.antt =====
-- A guest that is switched away and back (sched.cpp, `switch_to`).
use novavisor.Base.{ℕ}
use novavisor.Base.{◌≡◌, refl, sym, ap, ◌∙◌, ◌≢◌, inl, inr}
use novavisor.Base.{false, not, ◌&&◌, some, List}
use novavisor.Base.{arith}
use novavisor.Base.{◌==◌, Bool-cases}
use novavisor.Base.{get_elem?, get_or}
use novavisor.Vcpu.Power.{vm_of, vcpu_of}
use novavisor.Vcpu.Sched.{ready, running, is_running, slice_needed}
use novavisor.Vcpu.Sched.RoundRobin.{no_vcpu}
use novavisor.Vcpu.Switch.{El1SysregBank, load_found, Vcpu, CoreSched}
use novavisor.Vcpu.Switch.{states}
use novavisor.Vcpu.Switch.{cntvoff_of, reschedule_slice, update, with_state}
use novavisor.Vcpu.Switch.{set_state, parked, park_outgoing, load_incoming}
use novavisor.Vcpu.Switch.{switch_to}
use novavisor.Vcpu.Switch.Views.{get_elem?-update_self, get_elem?-update_ne}

module _ {A B : Type 0} where
  pub reschedule_same :
      (s : CoreSched A B)
      → ((reschedule_slice s).vcpus ≡ s.vcpus)
        × ((reschedule_slice s).current ≡ s.current)
        × ((reschedule_slice s).live ≡ s.live)
        × ((reschedule_slice s).el1 ≡ s.el1)
        × ((reschedule_slice s).affinity ≡ s.affinity)
        × ((reschedule_slice s).self ≡ s.self)
        × ((reschedule_slice s).vm ≡ s.vm)
        × ((reschedule_slice s).vmpidr ≡ s.vmpidr)
        × ((reschedule_slice s).cntvoff_reg ≡ s.cntvoff_reg)
        × ((reschedule_slice s).cntvoff ≡ s.cntvoff)
  unfolding reschedule_slice
  reschedule_same s = elim (Bool-cases (not (s.current == no_vcpu) && slice_needed (states s))) [
    | inl t ↦ rw t (refl, refl, refl, refl, refl, refl, refl, refl, refl, refl)
    | inr f ↦ rw f (refl, refl, refl, refl, refl, refl, refl, refl, refl, refl)
  ]

  module _ (guests : List ℕ) (eisr : List ℕ → ℕ) (s : CoreSched A B) where
    -- What a switch to `next` does, when somebody is resident.
    abbrev left : CoreSched A B
    left = park_outgoing guests eisr s

    pub switch_eq :
        (next : ℕ) (v : Vcpu A B)
        → get_elem? (park_outgoing guests eisr s).vcpus next ≡ some v
        → switch_to guests eisr s next
          ≡ reschedule_slice (load_incoming guests eisr (park_outgoing guests eisr s) next v)
    unfolding switch_to
    switch_eq next v h = ap (load_found guests eisr left next) h

    pub park_vcpus :
        s.current ≢ no_vcpu
        → ((park_outgoing guests eisr s).vcpus ≡ update s.vcpus s.current (parked s))
          × ((park_outgoing guests eisr s).cntvoff ≡ s.cntvoff)
    unfolding park_outgoing
    park_vcpus h = let f : (s.current == no_vcpu) ≡ false = ground arith in rw f (refl, refl)

    -- The live registers after a switch are the saved ones of the vCPU that enters; those of the one that left are in its entry.
    pub switch_swaps :
        (next : ℕ) (v w : Vcpu A B)
        → s.current ≢ no_vcpu
        → s.current ≢ next
        → get_elem? s.vcpus next ≡ some v
        → get_elem? s.vcpus s.current ≡ some w
        → ((switch_to guests eisr s next).live ≡ v.ctx)
          × ((switch_to guests eisr s next).el1 ≡ v.el1)
          × ((switch_to guests eisr s next).current ≡ next)
          × ((switch_to guests eisr s next).vm ≡ vm_of next)
          × ((switch_to guests eisr s next).vmpidr ≡ vcpu_of next)
          × ((switch_to guests eisr s next).cntvoff_reg ≡ cntvoff_of s (vm_of next))
          × (get_elem? (switch_to guests eisr s next).vcpus s.current ≡ some (parked s w))
          × (get_elem? (switch_to guests eisr s next).vcpus next
              ≡ some (record v { state = running }))
          × ((switch_to guests eisr s next).cntvoff ≡ s.cntvoff)
    unfolding load_incoming set_state
    switch_swaps next v w some_here ne at_next at_current =
        let (vs, offs) = park_vcpus some_here in
        let at =
          ap (λ l. get_elem? l next) vs
          ∙ get_elem?-update_ne s.vcpus s.current next (parked s) ne
          ∙ at_next in
        let out =
          ap (λ l. get_elem? l s.current) vs
          ∙ get_elem?-update_self s.vcpus s.current (parked s) w at_current in
        let mid = load_incoming guests eisr (park_outgoing guests eisr s) next v in
        let (a, b, c, d, _, _, e, f, g, h) = reschedule_same mid in
        rw (switch_eq next v at) (
          rw (a, b, c, d, e, f, g, h)
            (
              refl,
              refl,
              refl,
              refl,
              refl,
              ap (λ l. get_or l (vm_of next) 0) offs,
              get_elem?-update_ne left.vcpus next s.current (with_state running) (λ q. ne (sym q))
                  ∙ out,
              get_elem?-update_self left.vcpus next (with_state running) v at,
              offs,
            ))

-- A guest that is switched out for another one finds its own trap frame and EL1 registers, the virtual timer's among them, when it is switched back in, whatever the other did to the live ones; what the other left is kept for it in turn, and the stage-2 tables, the affinity register and the virtual counter's offset are those of the guest that runs.
pub switch_roundtrip :
    {A B : Type 0} (guests : List ℕ) (eisr : List ℕ → ℕ) (s : CoreSched A B) (next : ℕ)
    (v w : Vcpu A B) (x : A) (y : El1SysregBank B)
    → s.current ≢ no_vcpu
    → next ≢ no_vcpu
    → s.current ≢ next
    → get_elem? s.vcpus next ≡ some v
    → get_elem? s.vcpus s.current ≡ some w
    → let there = switch_to guests eisr s next in
      let back = switch_to guests eisr (record there { live = x; el1 = y }) s.current in
      (there.live ≡ v.ctx)
      × (there.el1 ≡ v.el1)
      × (there.vm ≡ vm_of next)
      × (there.cntvoff_reg ≡ cntvoff_of s (vm_of next))
      × (back.live ≡ s.live)
      × (back.el1 ≡ s.el1)
      × (back.vm ≡ vm_of s.current)
      × (back.vmpidr ≡ vcpu_of s.current)
      × (back.cntvoff_reg ≡ cntvoff_of s (vm_of s.current))
      × (get_elem? back.vcpus next
          ≡ some (record { state = ready; ctx = x; el1 = y; synced_at = there.turn }))
unfolding is_running
switch_roundtrip guests eisr s next v w x y some_here some_next ne at_next at_current =
    let (a, b, c, d, e, f, g, h, o) =
      switch_swaps guests eisr s next v w some_here ne at_next at_current in
    let there = switch_to guests eisr s next in
    let s2 = record there { live = x; el1 = y } in
    let (a', b', _, d', e', f', g', _, _) =
      switch_swaps guests eisr s2 s.current (parked s w) (record v { state = running })
        (λ q. some_next (sym c ∙ q)) (λ q. ne (sym q ∙ c)) g (ap (get_elem? there.vcpus) c ∙ h) in
    (
      a,
      b,
      d,
      f,
      a',
      b',
      d',
      e',
      f' ∙ ap (λ l. get_or l (vm_of s.current) 0) o,
      ap (get_elem? (switch_to guests eisr s2 s.current).vcpus) (sym c) ∙ g',
    )
