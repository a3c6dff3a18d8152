-- ===== src/Vcpu/Power/Tests.antt =====
-- Two VMs of two vCPUs each, on one core.
use novavisor.Base.{ℕ, zero, suc, ◌≤◌, ◌<◌}
use novavisor.Base.{◌≡◌, refl, ◌≢◌}
use novavisor.Base.{true, false, not, List, [], ◌∷◌}
use novavisor.Base.{arith}
use novavisor.Base.{get_or, replicate}
use novavisor.Vcpu.Sched.{off, ready}
use novavisor.Vcpu.Power.{p_off, p_on, is_p_on, is_off, max_vcpus}
use novavisor.Vcpu.Power.{Config, Machine, no_vcpu, state_at, power_at, max_restarts}
use novavisor.Vcpu.Power.{vm_has_live, has_live_from, vm_generation, reserve_start}
use novavisor.Vcpu.Power.Ops.{prepare_start_vm, publish_start_vm}
use novavisor.Vcpu.Power.Invariant.{IsConsistent}
use novavisor.Vcpu.Power.Reach.{IsTable}
use novavisor.Vcpu.Power.Run.{Request, run, may_halt, run-IsConsistent, may_halt_quiet}
use novavisor.Vcpu.Power.Run.{reserves, prepares_start, retires, prepares_reset}
use novavisor.Vcpu.Power.Run.{publishes_start, joins}
use novavisor.Vcpu.Power.Boot.{IsDown, cold_start_succeeds}
use novavisor.Vcpu.Power.Budget.{resets, resets_bounded}

abbrev table : Config
table = record {
  vms = 2;
  vcpus = λ vm. 2;
  affinity = λ slot. 0;
  entry_pc = λ vm. 1073741824;
  stack_top = λ vm. 1073807360;
  dtb_size = λ vm. 0;
  dtb_ipa = λ vm. 0;
}

table-IsTable : IsTable table
table-IsTable = record { few_vms = omega arith; some_vcpu = λ vm. omega arith }

abbrev cold : Machine
cold = record {
  run = replicate 8 off;
  published = replicate 8 p_off;
  alive = 0;
  transitions = 0;
  generation = 1 ∷ 1 ∷ [];
  budget = 0 ∷ 0 ∷ [];
  current = no_vcpu ∷ [];
  scheduler_started = true;
  calls = [];
}

replicated : (n i : ℕ) → is_p_on (get_or (replicate n p_off) i p_off) ≡ false
replicated zero i = refl
replicated (suc n) zero = refl
replicated (suc n) (suc i) = replicated n i

rested : (n i : ℕ) → is_off (get_or (replicate n off) i off) ≡ true
rested zero i = refl
rested (suc n) zero = refl
rested (suc n) (suc i) = rested n i

off_published : (i : ℕ) → is_p_on (get_or (replicate 8 p_off) i p_off) ≡ false
off_published i = replicated 8 i

off_running : (i : ℕ) → is_off (get_or (replicate 8 off) i off) ≡ true
off_running i = rested 8 i

all_off :
    (i : ℕ)
    → is_p_on (get_or (replicate 8 p_off) i p_off) ≡ not (is_off (get_or (replicate 8 off) i off))
all_off i = ground (arith, off_published i, off_running i)

cold-IsConsistent : IsConsistent 0 cold
cold-IsConsistent = record {
  slots = refl;
  run_slots = refl;
  few_others = omega arith;
  alive_counts = refl;
  transitions_count = refl;
  on_runs = λ i h. all_off i;
}

-- A cold start of the second VM, a second vCPU of it, and a retirement.
abbrev requests : List (ℕ × Request)
requests =
    (0, reserves 2)
    ∷ (0, prepares_start 1)
    ∷ (0, publishes_start 1 2)
    ∷ (0, reserves 3)
    ∷ (0, joins 3 4096 0)
    ∷ (0, retires 2)
    ∷ []

run-IsConsistent_example : IsConsistent 0 (run table cold requests)
run-IsConsistent_example = run-IsConsistent table table-IsTable 0 requests cold cold-IsConsistent

may_halt_quiet_example :
    ◌≡◌ {A = ℕ} 0 0
    × ((slot : ℕ)
        → slot < max_vcpus
        → (state_at (run table cold []) slot ≡ off) × (power_at (run table cold []) slot ≡ p_off))
unfolding run may_halt
may_halt_quiet_example = may_halt_quiet table table-IsTable 0 [] cold cold-IsConsistent refl

cold-IsDown : IsDown table 0 1 cold
unfolding vm_has_live has_live_from
cold-IsDown = record {
  known = omega arith;
  has_boot_vcpu = omega arith;
  owned = refl;
  few_vms = omega arith;
  slots = refl;
  run_slots = refl;
  generations = omega arith;
  budgets = omega arith;
  boot_off = refl;
  boot_published_off = refl;
  others_off = refl;
}

cold_start_succeeds_example :
    let (m1, granted) = reserve_start table cold 2 in
    let (m2, generation) = prepare_start_vm table 0 m1 1 in
    let (m3, up) = publish_start_vm table 0 m2 1 generation in
    (granted ≡ true)
    × (up ≡ true)
    × (generation ≢ 0)
    × (state_at m3 2 ≡ ready)
    × (power_at m3 2 ≡ p_on)
    × (vm_generation table m3 1 ≡ generation)
    × (get_or m3.budget 1 max_restarts ≡ 0)
cold_start_succeeds_example = cold_start_succeeds table 0 1 cold cold-IsDown

resets_bounded_example :
    resets table 1 cold
      ((0, prepares_start 1) ∷ (0, prepares_reset 1) ∷ (0, prepares_reset 1) ∷ (0, retires 2) ∷ [])
    ≤ max_restarts
resets_bounded_example =
    resets_bounded table 1
      ((0, prepares_start 1) ∷ (0, prepares_reset 1) ∷ (0, prepares_reset 1) ∷ (0, retires 2) ∷ [])
      cold (refl, (refl, (refl, (refl, tt)))) (omega arith) (omega arith)
