-- ===== src/Vcpu/Power/Run.antt =====
-- The entry points as requests that the cores carry out one after the other, and the halt decision
-- of src/components/core/core_vcpu/src/sched.cpp.
use novavisor.Base.{ℕ, ◌<◌, ◌≡◌, Bool, true, false, ◌&&◌, List, [], ◌∷◌, ◌==◌, count_if-zero}
use novavisor.Base.{arith}
use novavisor.Vcpu.Sched.{State, off}
use novavisor.Vcpu.Power.{PowerState, p_off, is_p_on, is_p_pending, is_off, max_vcpus, Config}
use novavisor.Vcpu.Power.{Machine, state_at, power_at, reserve_start, cancel_start}
use novavisor.Vcpu.Power.Ops.{prepare_start_vm, publish_start_vm, start_vcpu, retire_vcpu}
use novavisor.Vcpu.Power.Ops.{prepare_reset_quiesced_vm, publish_reset_vm}
use novavisor.Vcpu.Power.Invariant.{IsConsistent}
use novavisor.Vcpu.Power.Reach.{IsTable, reserve_start-IsConsistent, cancel_start-IsConsistent}
use novavisor.Vcpu.Power.Reach.{prepare_start_vm-IsConsistent, publish_start_vm-IsConsistent}
use novavisor.Vcpu.Power.Reach.{start_vcpu-IsConsistent, retire_vcpu-IsConsistent}
use novavisor.Vcpu.Power.Reach.{prepare_reset_quiesced_vm-IsConsistent}
use novavisor.Vcpu.Power.Reach.{publish_reset_vm-IsConsistent}

pub data Request : Type 0 where
  reserves cancels prepares_start retires prepares_reset : ℕ → Request
  publishes_start publishes_reset : ℕ → ℕ → Request
  joins : ℕ → ℕ → ℕ → Request

module _ (cfg : Config) where
  unfoldable pub step : Machine → ℕ × Request → Machine
  step m (me, reserves slot) = (reserve_start cfg m slot).0
  step m (me, cancels slot) = cancel_start cfg m slot
  step m (me, prepares_start vm) = (prepare_start_vm cfg me m vm).0
  step m (me, publishes_start vm g) = (publish_start_vm cfg me m vm g).0
  step m (me, joins slot entry arg) = (start_vcpu cfg me m slot entry arg).0
  step m (me, retires slot) = (retire_vcpu cfg me m slot).0
  step m (me, prepares_reset vm) = (prepare_reset_quiesced_vm cfg me m vm).0
  step m (me, publishes_reset vm g) = (publish_reset_vm cfg me m vm g).0

  unfoldable pub run : Machine → List (ℕ × Request) → Machine
  run m [] = m
  run m (r ∷ rs) = run (step m r) rs

-- The part of the halt test of `schedule_out` that reads the shared counters.
unfoldable pub may_halt : Machine → Bool
may_halt m = m.alive == 0 && m.transitions == 0

module _ (cfg : Config) (table : IsTable cfg) (others : ℕ) where
  step-IsConsistent :
      (m : Machine) (r : ℕ × Request) → IsConsistent others m → IsConsistent others (step cfg m r)
  unfolding step
  step-IsConsistent m (me, reserves slot) = reserve_start-IsConsistent cfg table others m slot
  step-IsConsistent m (me, cancels slot) = cancel_start-IsConsistent cfg table others m slot
  step-IsConsistent m (me, prepares_start vm) =
      prepare_start_vm-IsConsistent cfg table others me m vm
  step-IsConsistent m (me, publishes_start vm g) =
      publish_start_vm-IsConsistent cfg table others me m vm g
  step-IsConsistent m (me, joins slot entry arg) =
      start_vcpu-IsConsistent cfg table others me m slot entry arg
  step-IsConsistent m (me, retires slot) = retire_vcpu-IsConsistent cfg table others me m slot
  step-IsConsistent m (me, prepares_reset vm) =
      prepare_reset_quiesced_vm-IsConsistent cfg table others me m vm
  step-IsConsistent m (me, publishes_reset vm g) =
      publish_reset_vm-IsConsistent cfg table others me m vm g

  -- From a consistent machine, every sequence of lifecycle calls, on any cores and with any
  -- arguments, leads to one: `g_alive` counts the published-on slots, `g_lifecycle_transitions` the
  -- reserved ones and those that the callers hold open, and a slot is published on exactly when
  -- its owner's scheduler has it on.
  pub run-IsConsistent :
      (rs : List (ℕ × Request)) (m : Machine)
      → IsConsistent others m
      → IsConsistent others (run cfg m rs)
  unfolding run
  run-IsConsistent [] m h = h
  run-IsConsistent (r ∷ rs) m h = run-IsConsistent rs (step cfg m r) (step-IsConsistent m r h)

  off_of_state : (s : State) → is_off s ≡ true → s ≡ off
  off_of_state s h = ground arith

  off_of_power : (p : PowerState) → is_p_on p ≡ false → is_p_pending p ≡ false → p ≡ p_off
  off_of_power p h k = ground arith

  none_open : (m : Machine) → IsConsistent others m → may_halt m ≡ true → others ≡ 0
  unfolding may_halt
  none_open m h quiet = ground arith

  quiet_slot :
      (m : Machine) (slot : ℕ)
      → IsConsistent others m
      → may_halt m ≡ true
      → slot < max_vcpus
      → (state_at m slot ≡ off) × (power_at m slot ≡ p_off)
  unfolding may_halt
  quiet_slot m slot h quiet inside =
      let not_on =
        count_if-zero is_p_on m.published slot p_off (ground arith) (omega (arith, h.slots)) in
      let not_pending =
        count_if-zero is_p_pending m.published slot p_off (ground arith) (omega (arith, h.slots)) in
      (off_of_state _ (ground (arith, h.on_runs slot inside)), off_of_power _ not_on not_pending)

  -- When the counters allow a halt after any such sequence, every slot is off, published off, and
  -- no start is reserved, and no caller holds a transition open.
  pub may_halt_quiet :
      (rs : List (ℕ × Request)) (m : Machine)
      → IsConsistent others m
      → may_halt (run cfg m rs) ≡ true
      → (others ≡ 0)
        × ((slot : ℕ)
            → slot < max_vcpus
            → (state_at (run cfg m rs) slot ≡ off) × (power_at (run cfg m rs) slot ≡ p_off))
  may_halt_quiet rs m h quiet =
      let k = run-IsConsistent rs m h in
      (
        none_open (run cfg m rs) k quiet,
        λ slot inside. quiet_slot (run cfg m rs) slot k quiet inside,
      )
