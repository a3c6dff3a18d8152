-- ===== src/Vcpu/Power/Boot.antt =====
-- The two-phase cold start: reserve, prepare, publish.
use novavisor.Base.{ℕ, zero, suc, ◌+◌, ◌≤◌, ◌<◌, ◌≡◌, ◌≢◌, refl, Bool, true, false, not, ◌&&◌}
use novavisor.Base.{List, [], ◌∷◌, ◌==◌, length, get_or, set, get_or-set_self, get_or-set_ne}
use novavisor.Base.{length-set, ℕ_discrete, arith, lt→ltb, if-cases}
use novavisor.Vcpu.Sched.{off, ready}
use novavisor.Vcpu.Power.{PowerState, p_off, p_pending, p_on, is_p_pending, max_vcpus, slot_of}
use novavisor.Vcpu.Power.{Config, Machine, state_at, power_at, set_power, valid_slot}
use novavisor.Vcpu.Power.{has_live_from, vm_has_live, vm_generation, next_nonzero}
use novavisor.Vcpu.Power.{advance_vm_generation, begin_lifecycle_transition, refill}
use novavisor.Vcpu.Power.{end_lifecycle_transition, reserve_start, cancel_start, log}
use novavisor.Vcpu.Power.{max_restarts, reschedule_slice}
use novavisor.Vcpu.Power.Ops.{can_start, prepared, prepare_start_vm, publish_start_vm, publish_on}

-- Reserving a slot does not change whether a VM is live apart from that slot.
has_live_from-set :
    (published : List PowerState) (vm slot : ℕ) (p : PowerState) (v left : ℕ)
    → has_live_from (set published slot p) vm slot v left ≡ has_live_from published vm slot v left
unfolding has_live_from
has_live_from-set published vm slot p v zero = refl
has_live_from-set published vm slot p v (suc left) = elim (ℕ_discrete slot (slot_of vm v)) [
  | yes e ↦ ground (arith, has_live_from-set published vm slot p (v + 1) left)
  | no ne ↦ rw (
    get_or-set_ne published slot (slot_of vm v) p p_off ne,
    has_live_from-set published vm slot p (v + 1) left,
  )
]

next_nonzero-ne : (n : ℕ) → next_nonzero n ≢ 0
unfolding next_nonzero
next_nonzero-ne n = ground arith

module _ (cfg : Config) (me vm : ℕ) where
  abbrev boot : ℕ
  boot = slot_of vm 0

  -- A VM of this core that has never started or has retired, in a machine with room for its data.
  pub record IsDown (m : Machine) : Type 0 where
    pub known : vm < cfg.vms
    pub has_boot_vcpu : 1 ≤ cfg.vcpus vm
    pub owned : cfg.affinity boot ≡ me
    pub few_vms : cfg.vms ≤ 4
    pub slots : length m.published ≡ max_vcpus
    pub run_slots : length m.run ≡ max_vcpus
    pub generations : cfg.vms ≤ length m.generation
    pub budgets : cfg.vms ≤ length m.budget
    pub boot_off : state_at m boot ≡ off
    pub boot_published_off : power_at m boot ≡ p_off
    pub others_off : vm_has_live cfg m vm boot ≡ false

  reserve_start_free :
      (m : Machine)
      → IsDown m
      → reserve_start cfg m boot ≡ (set_power (begin_lifecycle_transition m) boot p_pending, true)
  unfolding reserve_start valid_slot
  reserve_start_free m d = ground arith

  abbrev reserved : Machine → Machine
  reserved m = set_power (begin_lifecycle_transition m) boot p_pending

  can_start-reserved : (m : Machine) → IsDown m → can_start cfg me (reserved m) vm ≡ true
  unfolding begin_lifecycle_transition vm_has_live
  can_start-reserved m d =
      let pending = get_or-set_self m.published boot p_pending p_off (omega (arith, d)) in
      ground (arith, pending, has_live_from-set m.published vm boot p_pending 0 (cfg.vcpus vm))

  -- The generation that the next start hands out.
  abbrev next_generation : Machine → ℕ
  next_generation m = next_nonzero (get_or m.generation vm 0)

  prepare_reserved :
      (m : Machine)
      → IsDown m
      → prepare_start_vm cfg me (reserved m) vm
        ≡ (prepared cfg me (reserved m) vm, next_generation m)
  unfolding prepare_start_vm prepared vm_generation begin_lifecycle_transition advance_vm_generation
  prepare_reserved m d =
      let fresh = get_or-set_self m.generation vm (next_generation m) 0 (omega (arith, d)) in
      rw (can_start-reserved m d, lt→ltb vm cfg.vms d.known, fresh)

  abbrev started : Machine → Machine
  started m =
      log (end_lifecycle_transition (publish_on (prepared cfg me (reserved m) vm) boot))
        (reschedule_slice me ∷ [])

  publish_prepared :
      (m : Machine)
      → IsDown m
      → publish_start_vm cfg me (prepared cfg me (reserved m) vm) vm (next_generation m)
        ≡ (started m, true)
  unfolding publish_start_vm prepared vm_generation begin_lifecycle_transition advance_vm_generation
      vm_has_live cancel_start
  publish_prepared m d =
      let fresh = get_or-set_self m.generation vm (next_generation m) 0 (omega (arith, d)) in
      let live : not (next_generation m == 0) ≡ true =
        ground (arith, next_nonzero-ne (get_or m.generation vm 0)) in
      let same : (next_generation m == next_generation m) ≡ true = ground arith in
      rw (can_start-reserved m d, lt→ltb vm cfg.vms d.known, fresh, live, same)

  started_lem :
      (m : Machine)
      → IsDown m
      → (next_generation m ≢ 0)
        × (state_at (started m) boot ≡ ready)
        × (power_at (started m) boot ≡ p_on)
        × (vm_generation cfg (started m) vm ≡ next_generation m)
        × (get_or (started m).budget vm max_restarts ≡ 0)
  unfolding prepared vm_generation begin_lifecycle_transition end_lifecycle_transition
      advance_vm_generation refill
  started_lem m d = (
    next_nonzero-ne (get_or m.generation vm 0),
    get_or-set_self m.run boot ready off (omega (arith, d)),
    get_or-set_self (set m.published boot p_pending) boot p_on p_off
        (omega (arith, d, length-set m.published boot p_pending)),
    rw (lt→ltb vm cfg.vms d.known)
        (get_or-set_self m.generation vm (next_generation m) 0 (omega (arith, d))),
    get_or-set_self m.budget vm 0 max_restarts (omega (arith, d)),
  )

  -- A cold start of a VM that is down goes through: the reservation is granted, the preparation
  -- hands out a generation other than 0, and publishing that generation succeeds; the boot vCPU is
  -- then ready and published on, the VM's generation is the one handed out, and none of its restart
  -- budget is spent.
  pub cold_start_succeeds :
      (m : Machine)
      → IsDown m
      → let (m1, granted) = reserve_start cfg m boot in
        let (m2, generation) = prepare_start_vm cfg me m1 vm in
        let (m3, up) = publish_start_vm cfg me m2 vm generation in
        (granted ≡ true)
        × (up ≡ true)
        × (generation ≢ 0)
        × (state_at m3 boot ≡ ready)
        × (power_at m3 boot ≡ p_on)
        × (vm_generation cfg m3 vm ≡ generation)
        × (get_or m3.budget vm max_restarts ≡ 0)
  cold_start_succeeds m d =
      let (a, b, c, e, f) = started_lem m d in
      rw (reserve_start_free m d, prepare_reserved m d, publish_prepared m d)
        (refl, refl, a, b, c, e, f)

-- Of two requests for one slot with no release between them, the second is refused.
pub reserve_start_once :
    (cfg : Config) (m : Machine) (slot : ℕ)
    → cfg.vms ≤ 4
    → length m.published ≡ max_vcpus
    → (reserve_start cfg (reserve_start cfg m slot).0 slot).1 ≡ false
unfolding reserve_start valid_slot begin_lifecycle_transition end_lifecycle_transition
reserve_start_once cfg m slot few slots =
    ground (arith, get_or-set_self m.published slot p_pending p_off)

cancel_lem :
    (cfg : Config) (m : Machine) (slot : ℕ)
    → cfg.vms ≤ 4
    → length m.published ≡ max_vcpus
    → let m' = cancel_start cfg m slot in
      (◌≡◌ {A = Bool} false false)
      × (m'.run ≡ m.run)
      × (m'.alive ≡ m.alive)
      × (m'.generation ≡ m.generation)
      × (valid_slot cfg slot ≡ true → is_p_pending (power_at m' slot) ≡ false)
unfolding cancel_start valid_slot end_lifecycle_transition
cancel_lem cfg m slot few slots = (
  refl,
  ground arith,
  ground arith,
  ground arith,
  λ v. ground (arith, get_or-set_self m.published slot p_off p_off),
)

publish_refused :
    (cfg : Config) (me vm : ℕ) (m : Machine) (generation : ℕ)
    → generation ≢ vm_generation cfg m vm
    → publish_start_vm cfg me m vm generation ≡ (cancel_start cfg m (slot_of vm 0), false)
unfolding publish_start_vm
publish_refused cfg me vm m generation ne =
    let differs : (generation == vm_generation cfg m vm) ≡ false = ground arith in
    if-cases (λ r. r ≡ (cancel_start cfg m (slot_of vm 0), false))
      (can_start cfg me m vm && (not (generation == 0) && generation == vm_generation cfg m vm))
      (λ e. ground arith) (λ e. refl)

-- Publishing a start under any generation but the VM's current one is refused: no vCPU becomes
-- runnable, the counters of live vCPUs and of generations stand, and if the boot slot exists, its
-- reservation is given back.
pub publish_stale :
    (cfg : Config) (me vm : ℕ) (m : Machine) (generation : ℕ)
    → cfg.vms ≤ 4
    → length m.published ≡ max_vcpus
    → generation ≢ vm_generation cfg m vm
    → let (m', up) = publish_start_vm cfg me m vm generation in
      (up ≡ false)
      × (m'.run ≡ m.run)
      × (m'.alive ≡ m.alive)
      × (m'.generation ≡ m.generation)
      × (valid_slot cfg (slot_of vm 0) ≡ true → is_p_pending (power_at m' (slot_of vm 0)) ≡ false)
publish_stale cfg me vm m generation few slots ne =
    rw (publish_refused cfg me vm m generation ne) (cancel_lem cfg m (slot_of vm 0) few slots)
