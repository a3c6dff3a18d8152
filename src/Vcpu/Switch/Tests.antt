-- ===== src/Vcpu/Switch/Tests.antt =====
-- The theorems at concrete inputs: a core with two vCPUs of its own, and one of another core. Trap
-- frames and register banks are numbers.
use novavisor.Base.{ℕ, zero, suc, ◌+◌}
use novavisor.Base.{◌≡◌, refl, inr}
use novavisor.Base.{true, false, none, some, List, [], ◌∷◌}
use novavisor.Base.{arith}
use novavisor.Base.{get_elem?, get_or}
use novavisor.Base.{first}
use novavisor.Vcpu.Power.{vm_of, vcpu_of}
use novavisor.Vcpu.Sched.{State, ready, running, blocked, is_ready, slice_needed}
use novavisor.Vdev.Vgic.{Vgic, hcr_base}
use novavisor.Vcpu.Switch.{El1SysregBank, Vcpu, CoreSched, Machine}
use novavisor.Vcpu.Switch.{states_of}
use novavisor.Vcpu.Switch.{pick, cntvoff_of, state_at}
use novavisor.Vcpu.Switch.{switch_to, enter_next}
use novavisor.Vcpu.Switch.{schedule_out, resumed}
use novavisor.Vcpu.Switch.Swap.{switch_roundtrip}
use novavisor.Vcpu.Switch.Invariant.{IsScheduled, Owns}
use novavisor.Vcpu.Switch.Invariant.Loop.{Runs, Keeps}
use novavisor.Vcpu.Switch.Invariant.Loop.{Ends, schedule_out-Ends, schedule_out_works}

abbrev guests : List ℕ
guests = 2 ∷ 1 ∷ []

abbrev silent : List ℕ → ℕ
silent lrs = 0

abbrev small_vgic : Vgic
small_vgic = record {
  cpus = [];
  hw = [];
  dists = [];
  spi_tokens = [];
  lr_count = 0;
  vtr = 0;
  vmcr_seed = 0;
  core = record { resident = 0; lrs = []; vmcr = 0; hcr = hcr_base };
}

abbrev bank : ℕ → El1SysregBank ℕ
bank x = record { cntv_ctl = 1; cntv_cval = 1000; others = x + 1 }

abbrev entry : State → ℕ → Vcpu ℕ ℕ
entry st x = record { state = st; ctx = x; el1 = bank x; synced_at = 0 }

-- Slots 0 and 2 are this core's, slot 1 another's.
abbrev core : State → State → ℕ → CoreSched ℕ ℕ
core first third resident = record {
  self = 0;
  vcpus = entry first 10 ∷ entry running 20 ∷ entry third 30 ∷ [];
  affinity = 0 ∷ 1 ∷ 0 ∷ [];
  valid = true ∷ true ∷ true ∷ [];
  current = resident;
  live = 77;
  el1 = bank 77;
  vm = 0;
  vmpidr = 0;
  cntvoff_reg = 5;
  cntvoff = 5 ∷ 6 ∷ [];
  slice = some 9;
  wakes = none ∷ none ∷ none ∷ [];
  idling = false;
  now = 100;
  turn = 3;
  slice_ticks = 50;
  vgic = small_vgic;
  eois = [];
}

switch_roundtrip_example :
    let s = core running ready 0 in
    let there = switch_to guests silent s 2 in
    let back = switch_to guests silent (record there { live = 500; el1 = bank 500 }) 0 in
    (there.live ≡ 30)
    × (there.el1 ≡ bank 30)
    × (there.vm ≡ vm_of 2)
    × (there.cntvoff_reg ≡ cntvoff_of s (vm_of 2))
    × (back.live ≡ s.live)
    × (back.el1 ≡ s.el1)
    × (back.vm ≡ vm_of 0)
    × (back.vmpidr ≡ vcpu_of 0)
    × (back.cntvoff_reg ≡ cntvoff_of s (vm_of 0))
    × (get_elem? back.vcpus 2
        ≡ some (record { state = ready; ctx = 500; el1 = bank 500; synced_at = there.turn }))
switch_roundtrip_example =
    switch_roundtrip guests silent (core running ready 0) 2 (entry ready 30) (entry running 10) 500
      (bank 500) (λ e. absurd (omega arith)) (λ e. absurd (omega arith)) (λ e. absurd (omega arith))
      refl refl

blocked_core-IsScheduled : IsScheduled (core blocked ready 0)
unfolding state_at slice_needed states_of
blocked_core-IsScheduled = (
  record {
    sizes = refl;
    few = omega arith;
    sole = runs_nobody;
    here = inr (omega arith, refl);
    context = λ _. (refl, refl, refl);
  },
  refl,
)
  where
    runs_nobody :
        (i : ℕ)
        → state_at (core blocked ready 0).vcpus i ≡ running
        → get_or (core blocked ready 0).affinity i 0 ≡ 0
        → i ≡ 0
    runs_nobody zero e a = refl
    runs_nobody (suc zero) e a = absurd (omega arith)
    runs_nobody (suc (suc zero)) e a = absurd (cc e)
    runs_nobody (suc (suc (suc i))) e a = absurd (cc e)

-- An interrupt that does nothing to this core.
abbrev spurious : CoreSched ℕ ℕ × Machine → CoreSched ℕ ℕ × Machine
spurious p = p

spurious-Keeps : Keeps guests silent spurious
spurious-Keeps s m h = h

abbrev two_alive : Machine
two_alive = record { alive = 2; transitions = 0; spoken_to = false; halt_announced = false }

schedule_out-Ends_example :
    Ends guests silent
      (schedule_out guests silent (spurious ∷ []) (core blocked ready 0, two_alive))
schedule_out-Ends_example =
    schedule_out-Ends guests silent (spurious ∷ []) (core blocked ready 0) two_alive
      blocked_core-IsScheduled (spurious-Keeps, tt)

schedule_out_works_example :
    let s = core blocked ready 0 in
    Owns s (pick s)
    × (is_ready (state_at s.vcpus (pick s)) ≡ true)
    × ((enter_next guests silent s).current ≡ pick s)
    × (schedule_out guests silent (spurious ∷ []) (s, two_alive)
        ≡ resumed (enter_next guests silent s))
    × Runs guests silent (enter_next guests silent s)
unfolding state_at
schedule_out_works_example =
    schedule_out_works guests silent (spurious ∷ []) (core blocked ready 0) two_alive 2
      blocked_core-IsScheduled (omega arith, refl) refl
