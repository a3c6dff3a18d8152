-- ===== src/Vcpu/Power.antt =====
-- src/components/core/core_vcpu/src/lifecycle.cpp: the power states of the vCPUs, cold start, warm
-- reset and retirement, with the restart budget of lifecycle_model.hpp and the generation counter of
-- src/nova/sync.hpp. Slots, VMs and cores are numbers; what the code asks of other components is
-- logged in `calls`, in order.
pub mod Ops
pub mod Invariant
pub mod Reach
pub mod Run
pub mod Boot
pub mod Budget
mod Tests
use novavisor.Base.{ℕ, zero, suc, ◌+◌, ◌-◌, ◌*◌, ◌/◌, ◌%◌, ◌^◌, Bool, true, false, not, ◌&&◌}
use novavisor.Base.{List, [], ◌∷◌, ◌++◌, ◌==◌, ltb, leb, get_or, set, if◌then◌else◌}
use novavisor.Vcpu.Sched.{State, off, ready}

pub data PowerState : Type 0 where
  p_off p_pending p_on : PowerState

abbrev pub is_p_off : PowerState → Bool
is_p_off p_off = true
is_p_off _ = false

abbrev pub is_p_pending : PowerState → Bool
is_p_pending p_pending = true
is_p_pending _ = false

abbrev pub is_p_on : PowerState → Bool
is_p_on p_on = true
is_p_on _ = false

abbrev pub is_off : State → Bool
is_off off = true
is_off _ = false

abbrev pub is_sched_ready : State → Bool
is_sched_ready ready = true
is_sched_ready _ = false

abbrev pub max_vcpus_per_vm : ℕ
max_vcpus_per_vm = 2

abbrev pub max_vcpus : ℕ
max_vcpus = 8

abbrev pub vm_of : ℕ → ℕ
vm_of slot = slot / max_vcpus_per_vm

abbrev pub vcpu_of : ℕ → ℕ
vcpu_of slot = slot % max_vcpus_per_vm

-- Without the wrap of `size_t`, which the VMs of a guest table do not reach.
abbrev pub slot_of : ℕ → ℕ → ℕ
slot_of vm vcpu = vm * max_vcpus_per_vm + vcpu

-- What the guest table fixes at boot: a descriptor for each VM, and how many there are.
pub record Config : Type 0 where
  pub vms : ℕ
  pub vcpus : ℕ → ℕ
  pub affinity : ℕ → ℕ
  pub entry_pc : ℕ → ℕ
  pub stack_top : ℕ → ℕ
  pub dtb_size : ℕ → ℕ
  pub dtb_ipa : ℕ → ℕ

-- A call into another component.
pub data Call : Type 0 where
  reset_vm_devices publish_cntvoff cancel_watchdog reload_guest_image : ℕ → Call
  seed_slot : ℕ → ℕ → ℕ → ℕ → Call
  reseed_owner_state cancel_cntv_wake vacate reschedule_slice : ℕ → Call

pub record Machine : Type 0 where
  pub run : List State
  pub published : List PowerState
  pub alive : ℕ
  pub transitions : ℕ
  pub generation : List ℕ
  pub budget : List ℕ
  -- the resident slot of each core
  pub current : List ℕ
  pub scheduler_started : Bool
  pub calls : List Call

abbrev pub no_vcpu : ℕ
no_vcpu = 2 ^ 64 - 1

-- `fetch_add(1)` and `fetch_sub(1)` of a 64-bit counter
abbrev pub inc : ℕ → ℕ
inc n = (n + 1) % 2 ^ 64

abbrev pub dec : ℕ → ℕ
dec n = (n + (2 ^ 64 - 1)) % 2 ^ 64

pub next_nonzero : ℕ → ℕ
next_nonzero n = if inc n == 0 then 1 else inc n

abbrev pub log : Machine → List Call → Machine
log m cs = record m { calls = m.calls ++ cs }

abbrev pub state_at : Machine → ℕ → State
state_at m slot = get_or m.run slot off

abbrev pub power_at : Machine → ℕ → PowerState
power_at m slot = get_or m.published slot p_off

abbrev pub set_power : Machine → ℕ → PowerState → Machine
set_power m slot p = record m { published = set m.published slot p }

abbrev pub set_state : Machine → ℕ → State → Machine
set_state m slot s = record m { run = set m.run slot s }

pub advance_vm_generation : Machine → ℕ → Machine
unfolding next_nonzero
advance_vm_generation m vm = record m {
  generation = set m.generation vm (next_nonzero (get_or m.generation vm 0));
}

pub begin_lifecycle_transition : Machine → Machine
begin_lifecycle_transition m = record m { transitions = inc m.transitions }

pub end_lifecycle_transition : Machine → Machine
end_lifecycle_transition m = record m { transitions = dec m.transitions }

abbrev pub max_restarts : ℕ
max_restarts = 3

-- `RestartBudget::take` and `refill`
pub take : List ℕ → ℕ → Bool × List ℕ
take counts index =
    if leb max_restarts (get_or counts index 0)
    then (false, counts)
    else (true, set counts index ((get_or counts index 0 + 1) % 2 ^ 8))

pub refill : List ℕ → ℕ → List ℕ
refill counts index = set counts index 0

-- The loop of `vm_has_live` over a VM's vCPUs, with `left` to go.
pub has_live_from : List PowerState → ℕ → ℕ → ℕ → ℕ → Bool
has_live_from published vm except v zero = false
has_live_from published vm except v (suc left) =
    let rest = has_live_from published vm except (v + 1) left in
    let slot = slot_of vm v in
    if not (slot == except) && not (is_p_off (get_or published slot p_off)) then true else rest

-- The entry points of the descriptor table.
module _ (cfg : Config) where
  open cfg use {vms, vcpus, affinity}

  abbrev pub count : ℕ
  count = vms * max_vcpus_per_vm

  pub valid_slot : ℕ → Bool
  valid_slot slot = ltb slot count && ltb (vcpu_of slot) (vcpus (vm_of slot))

  pub vm_has_live : Machine → ℕ → ℕ → Bool
  unfolding has_live_from
  vm_has_live m vm except = has_live_from m.published vm except 0 (vcpus vm)

  pub vm_generation : Machine → ℕ → ℕ
  vm_generation m vm = if ltb vm vms then get_or m.generation vm 0 else 0

  pub reserve_start : Machine → ℕ → Machine × Bool
  unfolding valid_slot begin_lifecycle_transition end_lifecycle_transition
  reserve_start m slot =
      if not (valid_slot slot)
      then (m, false)
      else let m1 = begin_lifecycle_transition m in
        if is_p_off (power_at m1 slot)
        then (set_power m1 slot p_pending, true)
        else (end_lifecycle_transition m1, false)

  pub cancel_start : Machine → ℕ → Machine
  unfolding valid_slot end_lifecycle_transition
  cancel_start m slot =
      if valid_slot slot && is_p_pending (power_at m slot)
      then end_lifecycle_transition (set_power m slot p_off)
      else m

  -- `seed_boot`: a fresh context at the descriptor's entry, `x0` its device tree if it has one.
  abbrev pub seed_boot : ℕ → List Call
  seed_boot slot =
      let vm = vm_of slot in
      seed_slot slot (cfg.entry_pc vm) (cfg.stack_top vm)
        (if cfg.dtb_size vm == 0 then 0 else cfg.dtb_ipa vm)
      ∷ reseed_owner_state slot
      ∷ []
