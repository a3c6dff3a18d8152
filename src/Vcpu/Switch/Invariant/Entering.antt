-- ===== src/Vcpu/Switch/Invariant/Entering.antt =====
-- A switch keeps the scheduler's invariant (sched.cpp, `switch_to`, `yield_current`, `on_slice`).
use novavisor.Base.{ℕ, ◌<◌}
use novavisor.Base.{◌≡◌, refl, sym, ap, ◌∙◌, ◌≢◌, inl, inr}
use novavisor.Base.{true, false, not, ◌&&◌, List}
use novavisor.Base.{arith, ℕ_discrete}
use novavisor.Base.{ltb, ◌==◌, ==_iff, Bool-cases}
use novavisor.Base.{length, get_or}
use novavisor.Vcpu.Sched.{running, is_running}
use novavisor.Vcpu.Sched.RoundRobin.{no_vcpu}
use novavisor.Vcpu.Switch.{CoreSched}
use novavisor.Vcpu.Switch.{count}
use novavisor.Vcpu.Switch.{pick, with_state, state_at}
use novavisor.Vcpu.Switch.{set_state, parked, park_outgoing, load_incoming}
use novavisor.Vcpu.Switch.{switch_to, yield_current, on_slice}
use novavisor.Vcpu.Switch.Views.{length-update}
use novavisor.Vcpu.Switch.Views.{get_elem?-in_range, state_at-range, state_at-set}
use novavisor.Vcpu.Switch.Views.{state_at-parked}
use novavisor.Vcpu.Switch.Swap.{reschedule_same, switch_eq}
use novavisor.Vcpu.Switch.Invariant.{Owns, IsSteady, IsScheduled}
use novavisor.Vcpu.Switch.Invariant.{reschedule-IsScheduled, pick-Owns}

running_lem : is_running running ≡ true
unfolding is_running
running_lem = refl

module _ {A B : Type 0} (guests : List ℕ) (eisr : List ℕ → ℕ) where
  -- What a park leaves as it was.
  park_same :
      (s : CoreSched A B)
      → ((park_outgoing guests eisr s).affinity ≡ s.affinity)
        × ((park_outgoing guests eisr s).self ≡ s.self)
        × (count (park_outgoing guests eisr s) ≡ count s)
  unfolding park_outgoing
  park_same s = elim (Bool-cases (s.current == no_vcpu)) [
    | inl t ↦ rw t (refl, refl, refl)
    | inr f ↦ rw f (refl, refl, length-update s.vcpus s.current (parked s))
  ]

  -- After a park none of this core's vCPUs runs.
  park_stops :
      (s : CoreSched A B)
      → IsSteady s
      → (j : ℕ) → get_or s.affinity j 0 ≡ s.self
      → state_at (park_outgoing guests eisr s).vcpus j ≢ running
  unfolding park_outgoing
  park_stops s v j a = elim (Bool-cases (s.current == no_vcpu)) [
    | inl t ↦ rw t (λ e.
        let l = state_at-range s.vcpus j (λ z. cc) in
        absurd (omega (arith, v.sole j e a, (==_iff s.current no_vcpu).0 t, l, v.few)))
    | inr f ↦ rw f (
        rw (state_at-parked s s.vcpus s.current j)
          (elim (Bool-cases ((s.current == j) && is_running (state_at s.vcpus j))) [
            | inl y ↦ rw y (λ e. cc)
            | inr n ↦ rw n (λ e. not_both s v j a n e)
          ]))
  ]
    where
      not_both :
          (s : CoreSched A B)
          → IsSteady s
          → (j : ℕ) → get_or s.affinity j 0 ≡ s.self
          → ((s.current == j) && is_running (state_at s.vcpus j)) ≡ false
          → state_at s.vcpus j ≡ running
          → ⊥
      not_both s v j a n e =
          let c = v.sole j e a in let r = ap is_running e in absurd (ground (arith, r, running_lem))

  -- A switch to another vCPU of this core keeps the invariant, and it is resident and runs.
  pub switch_to-IsScheduled :
      (s : CoreSched A B) (next : ℕ)
      → IsSteady s
      → Owns s next
      → IsScheduled (switch_to guests eisr s next)
        × ((switch_to guests eisr s next).current ≡ next)
        × (state_at (switch_to guests eisr s next).vcpus next ≡ running)
  unfolding load_incoming set_state
  switch_to-IsScheduled s next v (l, a) =
      let p = park_outgoing guests eisr s in
      let (affs, selfs, counts) = park_same s in
      let inside : next < count p = omega (arith, counts, l) in
      let (w, at, _) = get_elem?-in_range p.vcpus next inside in
      let mid = load_incoming guests eisr p next w in
      let after = state_at-set p.vcpus next next running inside ∙ ground arith in
      let steady : IsSteady mid = record {
        sizes =
            ap length affs
            ∙ v.sizes
            ∙ sym counts
            ∙ sym (length-update p.vcpus next (with_state running));
        few = omega (arith, v.few, counts, length-update p.vcpus next (with_state running));
        sole = λ j e own. elim (ℕ_discrete next j) [
          | yes q ↦ sym q
          | no q ↦ absurd (
              park_stops s v j (ap (λ t. get_or t j 0) (sym affs) ∙ own ∙ selfs)
                (sym (state_at-set p.vcpus next j running inside ∙ ground arith) ∙ e))
        ];
        here = inr (
          omega (arith, inside, length-update p.vcpus next (with_state running)),
          ap (λ t. get_or t next 0) affs ∙ a ∙ sym selfs,
        );
        context = λ _. (refl, refl, refl);
      } in
      let (vs, cur, _, _, _, _, _, _, _, _) = reschedule_same mid in
      rw (switch_eq guests eisr s next w at)
        (reschedule-IsScheduled mid steady, cur, ap (λ t. state_at t next) vs ∙ after)

  pub yield_current-IsScheduled :
      (s : CoreSched A B) → IsScheduled s → IsScheduled (yield_current guests eisr s)
  unfolding yield_current
  yield_current-IsScheduled s (v, armed) = elim (Bool-cases (s.current == no_vcpu)) [
    | inl t ↦ rw t (v, armed)
    | inr f ↦ rw f (elim (Bool-cases (ltb (pick s) (count s) && not (pick s == s.current))) [
      | inr n ↦ rw n (v, armed)
      | inl y ↦ rw y (switch_to-IsScheduled s (pick s) v (pick-Owns s v (ground arith)).0).0
    ])
  ]

  pub on_slice-IsScheduled :
      (s : CoreSched A B) → IsScheduled s → IsScheduled (on_slice guests eisr s)
  unfolding on_slice
  on_slice-IsScheduled s h =
      reschedule-IsScheduled (yield_current guests eisr s) (yield_current-IsScheduled s h).0
