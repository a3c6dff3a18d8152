-- ===== src/Vcpu/Power/Ops.antt =====
-- lifecycle.cpp: starting, retiring and resetting, on core `me`. A start and a reset are split into
-- a `prepare` and a `publish` half, between which other components adopt the new generation.
use novavisor.Base.{ℕ, Bool, true, false, not, ◌&&◌, [], ◌∷◌, ◌++◌, ◌==◌, ltb, get_or, set}
use novavisor.Base.{if◌then◌else◌}
use novavisor.Vcpu.Sched.{off, ready}
use novavisor.Vcpu.Power.{p_off, p_on, is_p_pending, is_p_on, is_off, max_vcpus, vm_of, vcpu_of}
use novavisor.Vcpu.Power.{slot_of, Config, reset_vm_devices, publish_cntvoff, cancel_watchdog}
use novavisor.Vcpu.Power.{reload_guest_image, seed_slot, reseed_owner_state, cancel_cntv_wake}
use novavisor.Vcpu.Power.{vacate, reschedule_slice, Machine, no_vcpu, inc, dec, log, state_at}
use novavisor.Vcpu.Power.{power_at, set_power, set_state, advance_vm_generation}
use novavisor.Vcpu.Power.{end_lifecycle_transition, take, refill, valid_slot, vm_has_live}
use novavisor.Vcpu.Power.{vm_generation, cancel_start, seed_boot, count}

-- The tail that every successful start shares.
abbrev pub publish_on : Machine → ℕ → Machine
publish_on m slot =
    let m1 = set_power (set_state m slot ready) slot p_on in record m1 { alive = inc m1.alive }

module _ (cfg : Config) (me : ℕ) where
  open cfg use {affinity}

  -- The guard that `prepare_start_vm` and `publish_start_vm` share: the boot slot is this core's, off,
  -- reserved, and alone.
  abbrev pub can_start : Machine → ℕ → Bool
  can_start m vm =
      let slot = slot_of vm 0 in
      ltb vm (vm_of (count cfg))
      && (affinity slot == me
          && (is_off (state_at m slot)
              && (is_p_pending (power_at m slot) && not (vm_has_live cfg m vm slot))))

  unfoldable pub prepared : Machine → ℕ → Machine
  unfolding advance_vm_generation refill
  prepared m vm =
      let m1 = log m (
        reset_vm_devices vm
        ∷ cancel_watchdog vm
        ∷ publish_cntvoff vm
        ∷ seed_boot cfg (slot_of vm 0)) in
      advance_vm_generation (record m1 { budget = refill m1.budget vm }) vm

  unfoldable pub prepare_start_vm : Machine → ℕ → Machine × ℕ
  unfolding prepared
  prepare_start_vm m vm =
      if can_start m vm
      then (prepared m vm, vm_generation cfg (prepared m vm) vm)
      else (cancel_start cfg m (slot_of vm 0), 0)

  unfoldable pub publish_start_vm : Machine → ℕ → ℕ → Machine × Bool
  unfolding end_lifecycle_transition
  publish_start_vm m vm generation =
      let slot = slot_of vm 0 in
      if can_start m vm && (not (generation == 0) && generation == vm_generation cfg m vm)
      then (log (end_lifecycle_transition (publish_on m slot)) (reschedule_slice me ∷ []), true)
      else (cancel_start cfg m slot, false)

  unfoldable pub joined : Machine → ℕ → ℕ → ℕ → Machine
  unfolding advance_vm_generation
  joined m slot entry context_id =
      let m1 = log m (seed_slot slot entry 0 context_id ∷ reseed_owner_state slot ∷ []) in
      if vcpu_of slot == 0
      then advance_vm_generation (log m1 (cancel_watchdog (vm_of slot) ∷ [])) (vm_of slot)
      else m1

  unfoldable pub start_vcpu : Machine → ℕ → ℕ → ℕ → Machine × Bool
  unfolding end_lifecycle_transition joined
  start_vcpu m slot entry context_id =
      if not (valid_slot cfg slot)
      then (m, false)
      else if affinity slot == me
          && (is_off (state_at m slot)
              && (is_p_pending (power_at m slot) && vm_has_live cfg m (vm_of slot) slot))
      then (
        log (end_lifecycle_transition (publish_on (joined m slot entry context_id) slot))
            (reschedule_slice me ∷ []),
        true,
      )
      else (cancel_start cfg m slot, false)

  unfoldable pub retire_vcpu : Machine → ℕ → Machine × Bool
  retire_vcpu m slot =
      if not (valid_slot cfg slot && affinity slot == me)
      then (m, false)
      else if is_off (state_at m slot)
      then (cancel_start cfg m slot, false)
      else let was_current = slot == get_or m.current me no_vcpu in
        let m1 = set_power (set_state m slot off) slot p_off in
        let m2 = log m1 (
          cancel_cntv_wake slot
          ∷ (if vcpu_of slot == 0 then cancel_watchdog (vm_of slot) ∷ [] else [])) in
        let m3 = if is_p_on (power_at m slot) then record m2 { alive = dec m2.alive } else m2 in
        let m4 =
          if was_current
          then log (record m3 { current = set m3.current me no_vcpu })
              (vacate me ∷ reschedule_slice me ∷ [])
          else m3 in
        (m4, was_current)

  -- "restore is legal only on the boot owner after every ACK"
  abbrev pub can_reset : Machine → ℕ → Bool
  can_reset m vm =
      ltb vm (vm_of (count cfg))
      && (affinity (slot_of vm 0) == me && not (vm_has_live cfg m vm max_vcpus))

  unfoldable pub prepare_reset_quiesced_vm : Machine → ℕ → Machine × ℕ
  unfolding take advance_vm_generation
  prepare_reset_quiesced_vm m vm =
      let slot = slot_of vm 0 in
      if not (can_reset m vm)
      then (m, 0)
      else let (granted, budget') = take m.budget vm in
        if not granted
        then (log m (cancel_watchdog vm ∷ []), 0)
        else let m1 =
            log (record m { budget = budget' })
              (reload_guest_image vm ∷ reset_vm_devices vm ∷ publish_cntvoff vm ∷ seed_boot cfg slot
                ++ (cancel_watchdog vm ∷ [])) in
          let m2 = advance_vm_generation m1 vm in (m2, vm_generation cfg m2 vm)

  unfoldable pub publish_reset_vm : Machine → ℕ → ℕ → Machine × Bool
  publish_reset_vm m vm generation =
      let slot = slot_of vm 0 in
      if ltb vm (vm_of (count cfg))
        && (not (generation == 0)
            && (generation == vm_generation cfg m vm
                && (affinity slot == me
                    && (is_off (state_at m slot) && not (vm_has_live cfg m vm max_vcpus)))))
      then (log (publish_on m slot) (reschedule_slice me ∷ []), true)
      else (m, false)
