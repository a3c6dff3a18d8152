-- ===== src/Vcpu/Switch/Invariant.antt =====
-- What the scheduler of a core keeps (sched.cpp): one vCPU runs, it is the resident one, the
-- registers in force are its VM's, and the slice is armed exactly while somebody waits.
pub mod Entering
pub mod Loop
use novavisor.Base.{ℕ, ◌^◌, ◌≤◌, ◌<◌}
use novavisor.Base.{◌≡◌, sym, ap, ◌∙◌, ◌≢◌, ◌↔◌, ◌⊎◌, inl, inr}
use novavisor.Base.{Bool, true, false, not, ◌&&◌, Option, none, some}
use novavisor.Base.{arith, ℕ_discrete}
use novavisor.Base.{ltb, ◌==◌, Bool-cases}
use novavisor.Base.{length, get_or, set}
use novavisor.Vcpu.Power.{vm_of, vcpu_of}
use novavisor.Vcpu.Sched.{State, off, ready, running, is_ready, slice_needed}
use novavisor.Vcpu.Sched.RoundRobin.{no_vcpu}
use novavisor.Vcpu.Switch.{CoreSched}
use novavisor.Vcpu.Switch.{is_blocked, states, count}
use novavisor.Vcpu.Switch.{pick, cntvoff_of, reschedule_slice, with_state, state_at}
use novavisor.Vcpu.Switch.{set_state, wake}
use novavisor.Vcpu.Switch.Views.{length-update}
use novavisor.Vcpu.Switch.Views.{state_at-set}
use novavisor.Vcpu.Switch.Views.{length-states_of, get_or-states_of}
use novavisor.Vcpu.Sched.RoundRobin.{IsCurrent}
use novavisor.Vcpu.Sched.Pick.{pick_next-IsPick}

abbrev pub is_armed : Option ℕ → Bool
is_armed (some d) = true
is_armed none = false

module _ {A B : Type 0} where
  -- The vCPU `i` is this core's.
  abbrev pub Owns : CoreSched A B → ℕ → Type 0
  Owns s i = (i < count s) × (get_or s.affinity i 0 ≡ s.self)

  pub record IsSteady (s : CoreSched A B) : Type 0 where
    pub sizes : length s.affinity ≡ count s
    pub few : count s ≤ 2 ^ 32
    pub sole :
        (i : ℕ) → state_at s.vcpus i ≡ running → get_or s.affinity i 0 ≡ s.self → i ≡ s.current
    pub here : (s.current ≡ no_vcpu) ⊎ Owns s s.current
    pub context :
        s.current ≢ no_vcpu
        → (s.vm ≡ vm_of s.current)
          × (s.vmpidr ≡ vcpu_of s.current)
          × (s.cntvoff_reg ≡ cntvoff_of s (vm_of s.current))

  abbrev pub IsArmed : CoreSched A B → Type 0
  IsArmed s = is_armed s.slice ≡ (not (s.current == no_vcpu) && slice_needed (states s))

  abbrev pub IsScheduled : CoreSched A B → Type 0
  IsScheduled s = IsSteady s × IsArmed s

  pub reschedule-IsScheduled : (s : CoreSched A B) → IsSteady s → IsScheduled (reschedule_slice s)
  unfolding reschedule_slice
  reschedule-IsScheduled s v =
      elim (Bool-cases (not (s.current == no_vcpu) && slice_needed (states s))) [
        | inl t ↦ rw t (
          record {
            sizes = v.sizes;
            few = v.few;
            sole = v.sole;
            here = v.here;
            context = v.context;
          },
          sym t,
        )
        | inr f ↦ rw f (
          record {
            sizes = v.sizes;
            few = v.few;
            sole = v.sole;
            here = v.here;
            context = v.context;
          },
          sym f,
        )
      ]

  -- A ready vCPU of this core reads ready in the scheduler's view, and conversely.
  pub states-ready :
      (s : CoreSched A B) (i : ℕ)
      → IsSteady s
      → (is_ready (get_or (states s) i off) ≡ true)
        ↔ (Owns s i × (is_ready (state_at s.vcpus i) ≡ true))
  states-ready s i v =
      let at = get_or-states_of s.self s.vcpus s.affinity i v.sizes in
      elim (Bool-cases (ltb i (count s) && (get_or s.affinity i 0 == s.self))) [
        | inl t ↦
            let same : get_or (states s) i off ≡ state_at s.vcpus i = at ∙ ground arith in
            (
              λ h. ((ground arith, ground arith), ap is_ready (sym same) ∙ h),
              λ (o, h). ap is_ready same ∙ h,
            )
        | inr f ↦
            let none_here : get_or (states s) i off ≡ off = at ∙ ground arith in
            (λ h. absurd (cc (ap is_ready none_here, h)), λ ((l, a), h). absurd (ground arith))
      ]

  pub is_current : (s : CoreSched A B) → IsSteady s → IsCurrent (length (states s)) s.current
  is_current s v =
      let size = length-states_of s.self s.vcpus s.affinity in
      (omega (arith, v.few), elim v.here [ inl e ↦ inr e | inr (l, _) ↦ inl (omega arith) ])

  -- The pick is a ready vCPU of this core, if there is any.
  pub pick-Owns :
      (s : CoreSched A B)
      → IsSteady s
      → pick s < count s
      → Owns s (pick s) × (is_ready (state_at s.vcpus (pick s)) ≡ true)
  pick-Owns s v l =
      let size = length-states_of s.self s.vcpus s.affinity in
      let p = pick_next-IsPick (states s) s.current (is_current s v) in
      (states-ready s (pick s) v).0 (p.runnable (omega arith))

  pub pick-none :
      (s : CoreSched A B)
      → IsSteady s
      → count s ≤ pick s
      → (i : ℕ) → Owns s i
      → is_ready (state_at s.vcpus i) ≡ false
  pick-none s v h i (l, a) =
      let size = length-states_of s.self s.vcpus s.affinity in
      let p = pick_next-IsPick (states s) s.current (is_current s v) in
      elim (Bool-cases (is_ready (state_at s.vcpus i))) [
        | inr f ↦ f
        | inl t ↦
            let (found, _) = p.nearest i (omega arith) ((states-ready s i v).1 ((l, a), t)) in
            absurd (omega arith)
      ]

  -- A change of state that starts no vCPU keeps the invariant.
  pub set_state-IsSteady :
      (s : CoreSched A B) (i : ℕ) (st : State)
      → IsSteady s
      → i < count s
      → st ≢ running
      → IsSteady (set_state s i st)
  unfolding set_state
  set_state-IsSteady s i st v h ne = record {
    sizes = v.sizes ∙ sym (length-update s.vcpus i (with_state st));
    few = omega (arith, v.few, length-update s.vcpus i (with_state st));
    sole = λ j e a. elim (ℕ_discrete i j) [
      | yes p ↦ absurd (ne (sym (state_at-set s.vcpus i j st h ∙ ground arith) ∙ e))
      | no q ↦ v.sole j (sym (state_at-set s.vcpus i j st h ∙ ground arith) ∙ e) a
    ];
    here = elim v.here [
      | inl e ↦ inl e
      | inr (l, a) ↦ inr (omega (arith, l, length-update s.vcpus i (with_state st)), a)
    ];
    context = v.context;
  }

  -- Waking a vCPU keeps the invariant, with the slice armed if it now competes.
  pub wake-IsScheduled : (s : CoreSched A B) (i : ℕ) → IsScheduled s → IsScheduled (wake s i)
  unfolding wake
  wake-IsScheduled s i (v, armed) =
      elim (Bool-cases
        (ltb i (count s) && get_or s.valid i false && is_blocked (state_at s.vcpus i))) [
          | inr f ↦ rw f (v, armed)
          | inl t ↦ rw t (
              reschedule-IsScheduled (record (set_state s i ready) { wakes = set s.wakes i none })
                (rewake s i (set_state-IsSteady s i ready v (ground arith) (λ e. cc))))
        ]
    where
      rewake :
          (s : CoreSched A B) (i : ℕ)
          → IsSteady (set_state s i ready)
          → IsSteady (record (set_state s i ready) { wakes = set s.wakes i none })
      rewake s i w = record {
        sizes = w.sizes;
        few = w.few;
        sole = w.sole;
        here = w.here;
        context = w.context;
      }
