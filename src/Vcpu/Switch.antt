-- ===== src/Vcpu/Switch.antt =====
-- The scheduler of one core: src/components/core/core_vcpu/src/sched.cpp, with the constants of
-- vcpu_internal.hpp. A trap frame is any type `A`, and the EL1 registers but for the virtual timer's
-- any type `B`: the code only copies them whole. The FP half of a switch is Vcpu/Fp.antt.
use novavisor.Base.{ℕ, zero, suc, ◌+◌, ◌%◌, ◌^◌, bit_and}
use novavisor.Base.{Bool, true, false, not, ◌&&◌, ◌||◌, Option, none, some, List, [], ◌∷◌, ◌++◌}
use novavisor.Base.{ltb, ◌==◌, if◌then◌else◌}
use novavisor.Base.{length, get_elem?, get_or, set}
use novavisor.Vcpu.Power.{vm_of, vcpu_of}
use novavisor.Vcpu.Sched.{State, off, ready, running, blocked, is_running, pick_next}
use novavisor.Vcpu.Sched.{slice_needed, shadow_due}
use novavisor.Vcpu.Sched.RoundRobin.{no_vcpu}
use novavisor.Vdev.Delivery.{EoiToken}
use novavisor.Vdev.Vgic.{Vgic, cpu_save, cpu_restore}
use novavisor.Service.Timebase.{us_to_ticks}
pub mod Views
pub mod Swap
pub mod Invariant
mod Tests

abbrev pub slice_us : ℕ
slice_us = 10000

abbrev pub slice_min_us : ℕ
slice_min_us = 1000

abbrev pub slice_max_us : ℕ
slice_max_us = 100000

-- The EL1 registers that a switch saves and restores, the virtual timer's among them.
pub record El1SysregBank (B : Type 0) : Type 0 where
  pub cntv_ctl : ℕ
  pub cntv_cval : ℕ
  pub others : B

pub record Vcpu (A B : Type 0) : Type 0 where
  pub state : State
  pub ctx : A
  pub el1 : El1SysregBank B
  pub synced_at : ℕ

-- One core: its resident vCPU, the frame and the registers that are live, the table of vCPUs with
-- the core that owns each, and the soft timers of the scheduler.
pub record CoreSched (A B : Type 0) : Type 0 where
  pub self : ℕ
  pub vcpus : List (Vcpu A B)
  pub affinity : List ℕ
  pub valid : List Bool
  pub current : ℕ
  pub live : A
  pub el1 : El1SysregBank B
  pub vm : ℕ
  pub vmpidr : ℕ
  pub cntvoff_reg : ℕ
  pub cntvoff : List ℕ
  pub slice : Option ℕ
  pub wakes : List (Option ℕ)
  pub idling : Bool
  pub now : ℕ
  pub turn : ℕ
  pub slice_ticks : ℕ
  pub vgic : Vgic
  pub eois : List EoiToken

-- What the idle loop asks of the whole machine.
pub record Machine : Type 0 where
  pub alive : ℕ
  pub transitions : ℕ
  pub spoken_to : Bool
  pub halt_announced : Bool

abbrev pub is_blocked : State → Bool
is_blocked blocked = true
is_blocked _ = false

-- `kCntCtlEnable` is bit 0 and `kCntCtlImask` bit 1 of the timer's control register.
abbrev pub timer_armed : ℕ → Bool
timer_armed ctl = not (bit_and ctl 1 == 0) && (bit_and ctl 2 == 0)

abbrev pub halts : Machine → Bool
halts m = (m.alive == 0) && (m.transitions == 0) && not m.spoken_to && not m.halt_announced

-- Where the idle loop ends: in a guest, in a halt, or still waiting when the interrupts given are
-- used up.
pub data Outcome (A B : Type 0) : Type 0 where
  resumed : CoreSched A B → Outcome A B
  halted : CoreSched A B → Outcome A B
  waiting : CoreSched A B → Outcome A B

module _ {A B : Type 0} where
  -- The table as this core sees it: a vCPU of another core is off.
  pub states_of : ℕ → List (Vcpu A B) → List ℕ → List State
  states_of self [] affs = []
  states_of self (v ∷ vs) [] = off ∷ states_of self vs []
  states_of self (v ∷ vs) (a ∷ affs) = (if a == self then v.state else off) ∷ states_of self vs affs

  abbrev pub states : CoreSched A B → List State
  states s = states_of s.self s.vcpus s.affinity

  abbrev pub count : CoreSched A B → ℕ
  count s = length s.vcpus

  abbrev pub pick : CoreSched A B → ℕ
  pick s = pick_next (states s) s.current

  abbrev pub cntvoff_of : CoreSched A B → ℕ → ℕ
  cntvoff_of s vm = get_or s.cntvoff vm 0

  unfoldable pub reschedule_slice : CoreSched A B → CoreSched A B
  reschedule_slice s =
      if not (s.current == no_vcpu) && slice_needed (states s)
      then record s { slice = some ((s.now + s.slice_ticks) % 2 ^ 64) }
      else record s { slice = none }

  -- A change of the entry of one vCPU.
  pub update : List (Vcpu A B) → ℕ → (Vcpu A B → Vcpu A B) → List (Vcpu A B)
  update [] i f = []
  update (v ∷ vs) zero f = f v ∷ vs
  update (v ∷ vs) (suc i) f = v ∷ update vs i f

  abbrev pub with_state : State → Vcpu A B → Vcpu A B
  with_state st v = record v { state = st }

  pub state_at : List (Vcpu A B) → ℕ → State
  state_at [] i = off
  state_at (v ∷ vs) zero = v.state
  state_at (v ∷ vs) (suc i) = state_at vs i

  pub set_state : CoreSched A B → ℕ → State → CoreSched A B
  set_state s i st = record s { vcpus = update s.vcpus i (with_state st) }

  pub vcpu_at : List (Vcpu A B) → ℕ → Option (Vcpu A B)
  vcpu_at vs i = get_elem? vs i

  unfoldable pub wake : CoreSched A B → ℕ → CoreSched A B
  unfolding set_state
  wake s index =
      if ltb index (count s) && get_or s.valid index false && is_blocked (state_at s.vcpus index)
      then reschedule_slice (record (set_state s index ready) { wakes = set s.wakes index none })
      else s

  -- `block_current` up to the call of `schedule_out`.
  unfoldable pub block : CoreSched A B → CoreSched A B
  unfolding set_state
  block s =
      let s1 = set_state s s.current blocked in
      let deadline = (s.el1.cntv_cval + cntvoff_of s (vm_of s.current)) % 2 ^ 64 in
      if timer_armed s.el1.cntv_ctl
      then record s1 { wakes = set s.wakes s.current (some deadline) }
      else s1

  -- The entry of the vCPU that leaves.
  abbrev pub parked : CoreSched A B → Vcpu A B → Vcpu A B
  parked s v = record {
    state = if is_running v.state then ready else v.state;
    ctx = s.live;
    el1 = s.el1;
    synced_at = s.turn;
  }

  module _ (guests : List ℕ) (eisr : List ℕ → ℕ) where
    -- The first half of a switch: the outgoing guest is parked, and a running one becomes ready.
    pub park_outgoing : CoreSched A B → CoreSched A B
    park_outgoing s =
        let saved = cpu_save eisr s.vgic s.current in
        if s.current == no_vcpu then s else record s {
          vcpus = update s.vcpus s.current (parked s);
          vgic = (saved).0;
          eois = s.eois ++ (saved).1;
        }

    -- The second half; the slot of `next` is in range wherever it is picked.
    pub load_incoming : CoreSched A B → ℕ → Vcpu A B → CoreSched A B
    unfolding set_state
    load_incoming s next v = record (set_state s next running) {
      live = v.ctx;
      el1 = v.el1;
      vgic = cpu_restore guests s.vgic next;
      vm = vm_of next;
      vmpidr = vcpu_of next;
      cntvoff_reg = cntvoff_of s (vm_of next);
      current = next;
    }

    abbrev pub load_found : CoreSched A B → ℕ → Option (Vcpu A B) → CoreSched A B
    load_found s next none = s
    load_found s next (some v) = reschedule_slice (load_incoming s next v)

    unfoldable pub switch_to : CoreSched A B → ℕ → CoreSched A B
    switch_to s next = let s1 = park_outgoing s in load_found s1 next (get_elem? s1.vcpus next)

    unfoldable pub yield_current : CoreSched A B → CoreSched A B
    yield_current s =
        if s.current == no_vcpu
        then s
        else if ltb (pick s) (count s) && not (pick s == s.current)
        then switch_to s (pick s)
        else s

    unfoldable pub on_slice : CoreSched A B → CoreSched A B
    on_slice s = reschedule_slice (yield_current s)

    -- The branch of the loop that finds somebody to run.
    pub enter_next : CoreSched A B → CoreSched A B
    unfolding set_state
    enter_next s =
        if pick s == s.current
        then reschedule_slice (set_state s s.current running)
        else switch_to s (pick s)

    -- One round for each interrupt: what its handlers do to the core and to the machine.
    unfoldable pub schedule_out :
        List (CoreSched A B × Machine → CoreSched A B × Machine)
        → CoreSched A B × Machine
        → Outcome A B
    unfolding is_running
    schedule_out [] (s, m) =
        if ltb (pick s) (count s)
        then resumed (enter_next s)
        else if halts m
        then halted s
        else waiting s
    schedule_out (drain ∷ drains) (s, m) =
        let (s1, m1) = drain (record s { idling = true }, m) in
        let s2 = record s1 { idling = false } in
        let rest = schedule_out drains (s2, m1) in
        if ltb (pick s) (count s)
        then resumed (enter_next s)
        else if halts m
        then halted s
        else if not (s2.current == no_vcpu) && is_running (state_at s2.vcpus s2.current)
        then resumed s2
        else rest

  unfoldable pub sync_resident : CoreSched A B → CoreSched A B
  sync_resident s =
      let stamp = λ (v : Vcpu A B).
        if shadow_due v.state s.turn v.synced_at
        then record v { ctx = s.live; el1 = s.el1; synced_at = s.turn }
        else v in
      if s.current == no_vcpu then s else record s { vcpus = update s.vcpus s.current stamp }

  -- `freq` is the counter's rate.
  unfoldable pub set_slice_us : ℕ → CoreSched A B → ℕ → CoreSched A B × Bool
  set_slice_us freq s microseconds =
      let plan = us_to_ticks freq microseconds in
      if ltb microseconds slice_min_us || ltb slice_max_us microseconds
      then (s, false)
      else if not plan.accepted
      then (s, false)
      else (reschedule_slice (record s { slice_ticks = plan.ticks }), true)
