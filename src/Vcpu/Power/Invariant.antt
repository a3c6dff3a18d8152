-- ===== src/Vcpu/Power/Invariant.antt =====
-- The bookkeeping that ties the scheduler's states, the published power states and the two machine-
-- wide counters together.
use novavisor.Base.{ℕ, ◌+◌, ◌^◌, ◌≤◌, ◌<◌, ◌≡◌, refl, ◌∙◌, Bool, false, not, List, length, get_or}
use novavisor.Base.{set, get_or-set, length-set, count_if, count_if-le, count_if-set}
use novavisor.Base.{if◌then◌else◌, arith}
use novavisor.Vcpu.Sched.{State, off, ready}
use novavisor.Vcpu.Power.{PowerState, p_off, p_pending, p_on, is_p_pending, is_p_on, is_off}
use novavisor.Vcpu.Power.{max_vcpus, Machine, inc, dec, power_at, set_power}
use novavisor.Vcpu.Power.{begin_lifecycle_transition, end_lifecycle_transition}
use novavisor.Vcpu.Power.Ops.{publish_on}

-- `others` is the number of transitions that the callers of `begin_lifecycle_transition` hold open.
pub record IsBooked (others : ℕ) (run : List State) (published : List PowerState)
    (alive transitions : ℕ) : Type 0 where
  pub slots : length published ≡ max_vcpus
  pub run_slots : length run ≡ max_vcpus
  pub few_others : others ≤ 2 ^ 32
  pub alive_counts : alive ≡ count_if is_p_on published
  pub transitions_count : transitions ≡ others + count_if is_p_pending published
  pub on_runs :
      (i : ℕ) → i < max_vcpus → is_p_on (get_or published i p_off) ≡ not (is_off (get_or run i off))

abbrev pub IsConsistent : ℕ → Machine → Type 0
IsConsistent others m = IsBooked others m.run m.published m.alive m.transitions

-- A slot changes its power state, and its scheduler state with it or not at all.
abbrev was : List PowerState → (PowerState → Bool) → ℕ → ℕ
was published test slot = if test (get_or published slot p_off) then 1 else 0

module _ (others : ℕ) (run : List State) (published : List PowerState) (alive transitions : ℕ) where
  pub IsBooked-move :
      (slot : ℕ) (s : State) (p : PowerState) (alive' transitions' : ℕ)
      → slot < max_vcpus
      → is_p_on p ≡ not (is_off s)
      → alive' + was published is_p_on slot ≡ alive + (if is_p_on p then 1 else 0)
      → transitions' + was published is_p_pending slot
        ≡ transitions + (if is_p_pending p then 1 else 0)
      → IsBooked others run published alive transitions
      → IsBooked others (set run slot s) (set published slot p) alive' transitions'
  IsBooked-move slot s p alive' transitions' h agree ha ht b = record {
    slots = length-set published slot p ∙ b.slots;
    run_slots = length-set run slot s ∙ b.run_slots;
    few_others = b.few_others;
    alive_counts =
        omega (arith, count_if-set is_p_on published slot p p_off (omega arith), b.alive_counts);
    transitions_count = omega (
      arith,
      count_if-set is_p_pending published slot p p_off (omega arith),
      b.transitions_count,
    );
    on_runs = λ i hi.
        rw
          (
            get_or-set published slot i p p_off (omega arith),
            get_or-set run slot i s off (omega arith),
          )
          (ground (arith, b.on_runs i hi));
  }

  pub IsBooked-power :
      (slot : ℕ) (p : PowerState) (transitions' : ℕ)
      → slot < max_vcpus
      → is_p_on p ≡ false
      → is_p_on (get_or published slot p_off) ≡ false
      → transitions' + was published is_p_pending slot
        ≡ transitions + (if is_p_pending p then 1 else 0)
      → IsBooked others run published alive transitions
      → IsBooked others run (set published slot p) alive transitions'
  IsBooked-power slot p transitions' h not_on was_not ht b = record {
    slots = length-set published slot p ∙ b.slots;
    run_slots = b.run_slots;
    few_others = b.few_others;
    alive_counts =
        ground (arith, count_if-set is_p_on published slot p p_off (omega arith), b.alive_counts);
    transitions_count = omega (
      arith,
      count_if-set is_p_pending published slot p p_off (omega arith),
      b.transitions_count,
    );
    on_runs = λ i hi.
        rw (get_or-set published slot i p p_off (omega arith)) (ground (arith, b.on_runs i hi));
  }

module _ (others : ℕ) (m : Machine) (slot : ℕ) (inside : slot < max_vcpus)
    (h : IsConsistent others m) where
  counts :
      (count_if is_p_on m.published ≤ max_vcpus) × (count_if is_p_pending m.published ≤ max_vcpus)
  counts = (
    omega (arith, count_if-le is_p_on m.published, h.slots),
    omega (arith, count_if-le is_p_pending m.published, h.slots),
  )

  pending_counted : power_at m slot ≡ p_pending → 1 ≤ count_if is_p_pending m.published
  pending_counted e =
      let c = count_if-set is_p_pending m.published slot p_off p_off (omega (arith, h.slots)) in
      omega (arith, rw e at c)

  on_counted : power_at m slot ≡ p_on → 1 ≤ count_if is_p_on m.published
  on_counted e =
      let c = count_if-set is_p_on m.published slot p_off p_off (omega (arith, h.slots)) in
      omega (arith, rw e at c)

  pub reserved-IsConsistent :
      power_at m slot ≡ p_off
      → IsConsistent others (set_power (begin_lifecycle_transition m) slot p_pending)
  unfolding begin_lifecycle_transition
  reserved-IsConsistent e =
      IsBooked-power others m.run m.published m.alive m.transitions slot p_pending
        (inc m.transitions) inside refl (rw e) (rw e (omega (arith, h, counts))) h

  pub cancelled-IsConsistent :
      power_at m slot ≡ p_pending
      → IsConsistent others (end_lifecycle_transition (set_power m slot p_off))
  unfolding end_lifecycle_transition
  cancelled-IsConsistent e =
      IsBooked-power others m.run m.published m.alive m.transitions slot p_off (dec m.transitions)
        inside refl (rw e) (rw e (omega (arith, h, counts, pending_counted e))) h

  pub started-IsConsistent :
      power_at m slot ≡ p_pending
      → IsConsistent others (end_lifecycle_transition (publish_on m slot))
  unfolding end_lifecycle_transition
  started-IsConsistent e =
      IsBooked-move others m.run m.published m.alive m.transitions slot ready p_on (inc m.alive)
        (dec m.transitions) inside refl (rw e (omega (arith, h, counts)))
        (rw e (omega (arith, h, counts, pending_counted e))) h

  pub restarted-IsConsistent : power_at m slot ≡ p_off → IsConsistent others (publish_on m slot)
  restarted-IsConsistent e =
      IsBooked-move others m.run m.published m.alive m.transitions slot ready p_on (inc m.alive)
        m.transitions inside refl (rw e (omega (arith, h, counts))) (rw e) h

  pub retired-IsConsistent :
      power_at m slot ≡ p_on
      → IsBooked others
          (set m.run slot off)
          (set m.published slot p_off)
          (dec m.alive)
          m.transitions
  retired-IsConsistent e =
      IsBooked-move others m.run m.published m.alive m.transitions slot off p_off (dec m.alive)
        m.transitions inside refl (rw e (omega (arith, h, counts, on_counted e))) (rw e) h
