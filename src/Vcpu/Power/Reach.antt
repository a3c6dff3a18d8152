-- ===== src/Vcpu/Power/Reach.antt =====
-- Every entry point keeps the books, on every core and in every order.
use novavisor.Base.{ℕ, zero, suc, ◌≤◌, ◌<◌, ◌≡◌, refl, ◌∙◌, ap, Bool, true, false, not, ◌&&◌}
use novavisor.Base.{◌==◌, ltb, get_or, arith, if-cases, count_if-le}
use novavisor.Vcpu.Power.{PowerState, p_off, p_pending, p_on, is_p_off, is_p_pending, is_p_on}
use novavisor.Vcpu.Power.{is_off, max_vcpus, vm_of, slot_of, Config, Machine, state_at, power_at}
use novavisor.Vcpu.Power.{valid_slot, has_live_from, vm_has_live, begin_lifecycle_transition}
use novavisor.Vcpu.Power.{end_lifecycle_transition, reserve_start, cancel_start, take, count}
use novavisor.Vcpu.Power.{vcpu_of, no_vcpu}
use novavisor.Vcpu.Power.Ops.{can_start, can_reset, joined, prepare_start_vm, publish_start_vm}
use novavisor.Vcpu.Power.Ops.{start_vcpu, retire_vcpu, prepare_reset_quiesced_vm}
use novavisor.Vcpu.Power.Ops.{publish_reset_vm}
use novavisor.Vcpu.Power.Invariant.{IsConsistent, reserved-IsConsistent, cancelled-IsConsistent}
use novavisor.Vcpu.Power.Invariant.{started-IsConsistent, restarted-IsConsistent}
use novavisor.Vcpu.Power.Invariant.{retired-IsConsistent}

-- The guest table fits the slots, and no VM has no vCPU.
pub record IsTable (cfg : Config) : Type 0 where
  pub few_vms : cfg.vms ≤ 4
  pub some_vcpu : (vm : ℕ) → 1 ≤ cfg.vcpus vm

power_of_off : (p : PowerState) → is_p_off p ≡ true → p ≡ p_off
power_of_off p h = ground arith

power_of_pending : (p : PowerState) → is_p_pending p ≡ true → p ≡ p_pending
power_of_pending p h = ground arith

power_of_on : (p : PowerState) → is_p_on p ≡ true → p ≡ p_on
power_of_on p h = ground arith

module _ (cfg : Config) (table : IsTable cfg) (others : ℕ) where
  abbrev Keeps {ℓ} : {A : Type ℓ} → Machine × A → Type 0
  Keeps r = IsConsistent others r.0

  slot_of_valid : (slot : ℕ) → valid_slot cfg slot ≡ true → slot < max_vcpus
  unfolding valid_slot
  slot_of_valid slot v = ground (arith, table.few_vms)

  slot_of_vm : (vm : ℕ) → ltb vm (vm_of (count cfg)) ≡ true → slot_of vm 0 < max_vcpus
  slot_of_vm vm v = ground (arith, table.few_vms)

  pub cancel_start-IsConsistent :
      (m : Machine) (slot : ℕ)
      → IsConsistent others m
      → IsConsistent others (cancel_start cfg m slot)
  unfolding cancel_start
  cancel_start-IsConsistent m slot h =
      if-cases (IsConsistent others) (valid_slot cfg slot && is_p_pending (power_at m slot))
        (λ e.
          cancelled-IsConsistent others m slot (slot_of_valid slot (ground arith)) h
            (power_of_pending _ (ground arith)))
        (λ e. h)

  -- A reservation that is refused takes back the transition that it had opened.
  unchanged :
      (m : Machine)
      → IsConsistent others m
      → IsConsistent others (end_lifecycle_transition (begin_lifecycle_transition m))
  unfolding end_lifecycle_transition begin_lifecycle_transition
  unchanged m h = record {
    slots = h.slots;
    run_slots = h.run_slots;
    few_others = h.few_others;
    alive_counts = h.alive_counts;
    transitions_count = omega (arith, h, count_if-le is_p_pending m.published);
    on_runs = h.on_runs;
  }

  pub reserve_start-IsConsistent :
      (m : Machine) (slot : ℕ)
      → IsConsistent others m
      → IsConsistent others (reserve_start cfg m slot).0
  unfolding reserve_start
  reserve_start-IsConsistent m slot h =
      if-cases (Keeps {A = Bool}) (not (valid_slot cfg slot)) (λ e. h)
        (λ v.
          if-cases (Keeps {A = Bool}) (is_p_off (power_at m slot))
            (λ e.
              reserved-IsConsistent others m slot (slot_of_valid slot (ground arith)) h
                (power_of_off _ e))
            (λ e. unchanged m h))

  pub prepare_start_vm-IsConsistent :
      (me : ℕ) (m : Machine) (vm : ℕ)
      → IsConsistent others m
      → IsConsistent others (prepare_start_vm cfg me m vm).0
  unfolding prepare_start_vm
  prepare_start_vm-IsConsistent me m vm h =
      if-cases (Keeps {A = ℕ}) (can_start cfg me m vm) (λ e. h)
        (λ e. cancel_start-IsConsistent m (slot_of vm 0) h)

  pub publish_start_vm-IsConsistent :
      (me : ℕ) (m : Machine) (vm generation : ℕ)
      → IsConsistent others m
      → IsConsistent others (publish_start_vm cfg me m vm generation).0
  unfolding publish_start_vm
  publish_start_vm-IsConsistent me m vm generation h =
      if-cases (Keeps {A = Bool}) _
        (λ e.
          started-IsConsistent others m (slot_of vm 0) (slot_of_vm vm (ground arith)) h
            (power_of_pending _ (ground arith)))
        (λ e. cancel_start-IsConsistent m (slot_of vm 0) h)

  joined-IsConsistent :
      (me : ℕ) (m : Machine) (slot entry context_id : ℕ)
      → IsConsistent others m
      → IsConsistent others (joined cfg me m slot entry context_id)
  unfolding joined
  joined-IsConsistent me m slot entry context_id h =
      if-cases (IsConsistent others) (vcpu_of slot == 0) (λ e. h) (λ e. h)

  joined_power :
      (me : ℕ) (m : Machine) (slot entry context_id : ℕ)
      → power_at (joined cfg me m slot entry context_id) slot ≡ power_at m slot
  unfolding joined
  joined_power me m slot entry context_id =
      if-cases (λ r. power_at r slot ≡ power_at m slot) (vcpu_of slot == 0) (λ e. refl) (λ e. refl)

  pub start_vcpu-IsConsistent :
      (me : ℕ) (m : Machine) (slot entry context_id : ℕ)
      → IsConsistent others m
      → IsConsistent others (start_vcpu cfg me m slot entry context_id).0
  unfolding start_vcpu
  start_vcpu-IsConsistent me m slot entry context_id h =
      if-cases (Keeps {A = Bool}) (not (valid_slot cfg slot)) (λ e. h)
        (λ v.
          if-cases (Keeps {A = Bool})
            (cfg.affinity slot == me
              && (is_off (state_at m slot)
                  && (is_p_pending (power_at m slot) && vm_has_live cfg m (vm_of slot) slot)))
            (λ e.
              started-IsConsistent others (joined cfg me m slot entry context_id) slot
                (slot_of_valid slot (ground arith))
                (joined-IsConsistent me m slot entry context_id h)
                (joined_power me m slot entry context_id ∙ power_of_pending _ (ground arith)))
            (λ e. cancel_start-IsConsistent m slot h))

  pub retire_vcpu-IsConsistent :
      (me : ℕ) (m : Machine) (slot : ℕ)
      → IsConsistent others m
      → IsConsistent others (retire_vcpu cfg me m slot).0
  unfolding retire_vcpu
  retire_vcpu-IsConsistent me m slot h =
      if-cases (Keeps {A = Bool}) (not (valid_slot cfg slot && cfg.affinity slot == me)) (λ e. h)
        (λ v.
          if-cases (Keeps {A = Bool}) (is_off (state_at m slot))
            (λ e. cancel_start-IsConsistent m slot h)
            (λ e.
              let inside = slot_of_valid slot (ground arith) in
              let on : is_p_on (power_at m slot) ≡ true = h.on_runs slot inside ∙ ap not e in
              let gone = retired-IsConsistent others m slot inside h (power_of_on _ on) in
              rw on (
                if-cases (IsConsistent others) (slot == get_or m.current me no_vcpu) (λ c. gone)
                  (λ c. gone))))

  pub prepare_reset_quiesced_vm-IsConsistent :
      (me : ℕ) (m : Machine) (vm : ℕ)
      → IsConsistent others m
      → IsConsistent others (prepare_reset_quiesced_vm cfg me m vm).0
  unfolding prepare_reset_quiesced_vm
  prepare_reset_quiesced_vm-IsConsistent me m vm h =
      if-cases (Keeps {A = ℕ}) (not (can_reset cfg me m vm)) (λ e. h)
        (λ e. if-cases (Keeps {A = ℕ}) (not (take m.budget vm).0) (λ e. h) (λ e. h))

  off_of_no_live :
      (m : Machine) (vm : ℕ)
      → slot_of vm 0 < max_vcpus
      → vm_has_live cfg m vm max_vcpus ≡ false
      → power_at m (slot_of vm 0) ≡ p_off
  unfolding vm_has_live has_live_from
  off_of_no_live m vm inside quiet = off_of_quiet (cfg.vcpus vm) (table.some_vcpu vm) quiet
    where
      off_of_quiet :
          (n : ℕ)
          → 1 ≤ n
          → has_live_from m.published vm max_vcpus 0 n ≡ false
          → power_at m (slot_of vm 0) ≡ p_off
      off_of_quiet zero le q = absurd (omega arith)
      off_of_quiet (suc n) le q = ground arith

  pub publish_reset_vm-IsConsistent :
      (me : ℕ) (m : Machine) (vm generation : ℕ)
      → IsConsistent others m
      → IsConsistent others (publish_reset_vm cfg me m vm generation).0
  unfolding publish_reset_vm
  publish_reset_vm-IsConsistent me m vm generation h =
      if-cases (Keeps {A = Bool}) _
        (λ e.
          let inside = slot_of_vm vm (ground arith) in
          restarted-IsConsistent others m (slot_of vm 0) inside h
            (off_of_no_live m vm inside (ground arith)))
        (λ e. h)
