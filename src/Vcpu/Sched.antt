-- ===== src/Vcpu/Sched.antt =====
-- src/components/core/core_vcpu/include/core_vcpu/sched_model.hpp: which vCPU a core runs next, and
-- when the preemption slice is armed.
pub mod RoundRobin
pub mod Pick
mod Tests
use novavisor.Base.{ℕ, zero, suc, ◌+◌, ◌%◌, ◌^◌, Bool, true, false, not, ◌&&◌, List, [], ◌∷◌}
use novavisor.Base.{◌==◌, length, get_or, if◌then◌else◌}

pub data State : Type 0 where
  off ready running blocked : State

abbrev pub is_ready : State → Bool
is_ready ready = true
is_ready _ = false

-- `(current + step) % states.size()`, the sum in `size_t`
abbrev pub ring_index : ℕ → ℕ → ℕ → ℕ
ring_index size current step = (current + step) % 2 ^ 64 % size

-- The loop, with `left` rounds to go; a read out of range cannot happen and would find `off`.
pub pick_from : List State → ℕ → ℕ → ℕ → ℕ
pick_from states current step zero = length states
pick_from states current step (suc left) =
    let rest = pick_from states current (step + 1) left in
    let idx = ring_index (length states) current step in
    if is_ready (get_or states idx off) then idx else rest

pub pick_next : List State → ℕ → ℕ
pick_next states current = pick_from states current 1 (length states)

unfoldable pub is_running : State → Bool
is_running running = true
is_running _ = false

pub shadow_due : State → ℕ → ℕ → Bool
unfolding is_running
shadow_due state turn taken = is_running state && not (turn == taken)

unfoldable pub slice_needed : List State → Bool
slice_needed [] = false
slice_needed (s ∷ rest) = if is_ready s then true else slice_needed rest
