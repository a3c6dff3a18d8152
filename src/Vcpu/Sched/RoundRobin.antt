-- ===== src/Vcpu/Sched/RoundRobin.antt =====
-- The pick is the first ready vCPU in ring order, and no ready vCPU waits longer than one round.
use novavisor.Base.{mod_low, mod_second}
use novavisor.Base.{ℕ, zero, suc, ◌+◌, ◌-◌, ◌%◌, ◌^◌, ◌≤◌, ◌<◌, ◌≡◌, ◌⊎◌, inl, inr, refl, ◌∙◌}
use novavisor.Base.{Bool, true, false, List, length, get_or, if◌then◌else◌, ltb, arith}
use novavisor.Base.{Bool-cases, lt→ltb, dec_lt, ℕ_discrete}
use novavisor.Vcpu.Sched.{State, off, is_ready, ring_index, pick_from}

-- The number of a core that runs no vCPU.
abbrev pub no_vcpu : ℕ
no_vcpu = 2 ^ 64 - 1

-- What `me().current` may hold on a machine of `size` slots.
abbrev pub IsCurrent : ℕ → ℕ → Type 0
IsCurrent size current = (size ≤ 2 ^ 32) × ((current < size) ⊎ (current ≡ no_vcpu))

-- How many steps of the ring lead from `current` to slot `i`; from 1 to `size`.
abbrev pub distance : ℕ → ℕ → ℕ → ℕ
distance size current i =
    if ltb current size then (if ltb current i then i - current else i + size - current) else i + 1

-- Without `%`: the slot that the `step`-th step of the ring reads.
ring_index_lem :
    (size current step : ℕ)
    → IsCurrent size current
    → 1 ≤ step
    → step ≤ size
    → ring_index size current step ≡ (
        if ltb current size
        then (if ltb (current + step) size then current + step else current + step - size)
        else step - 1)
ring_index_lem size current step (small, inl lt) lo hi =
    rw (lt→ltb current size lt) (elim (dec_lt (current + step) size) [
      | yes p ↦ rw (lt→ltb _ _ p, no_wrap) (mod_low _ _ p)
      | no p ↦
          let stay : ltb (current + step) size ≡ false = ground arith in
          rw (stay, no_wrap) (mod_second _ _ (omega arith) (omega arith))
    ])
  where
    no_wrap : (current + step) % 2 ^ 64 ≡ current + step
    no_wrap = omega arith
ring_index_lem size current step (small, inr none_resident) lo hi =
    let idle : ltb current size ≡ false = ground arith in
    let wraps : (current + step) % 2 ^ 64 ≡ step - 1 = omega arith in
    rw (idle, wraps) (mod_low (step - 1) size (omega arith))

pub distance_bounds :
    (size current i : ℕ)
    → IsCurrent size current
    → i < size
    → (1 ≤ distance size current i) × (distance size current i ≤ size)
distance_bounds size current i h k = ground arith

pub ring_index-distance :
    (size current i : ℕ)
    → IsCurrent size current
    → i < size
    → ring_index size current (distance size current i) ≡ i
ring_index-distance size current i h k =
    let (lo, hi) = distance_bounds size current i h k in
    let e = ring_index_lem size current (distance size current i) h lo hi in e ∙ ground arith

pub distance-ring_index :
    (size current step : ℕ)
    → IsCurrent size current
    → 1 ≤ step
    → step ≤ size
    → distance size current (ring_index size current step) ≡ step
distance-ring_index size current step h lo hi =
    rw (ring_index_lem size current step h lo hi) (ground arith)

abbrev pub ready_at : List State → ℕ → Bool
ready_at states i = is_ready (get_or states i off)

-- What the loop finds from `step` on with `left` rounds to go.
pub data Scan (states : List State) (current step left pick : ℕ) : Type 0 where
  found :
      (k : ℕ)
      → step ≤ k
      → k < step + left
      → pick ≡ ring_index (length states) current k
      → ready_at states pick ≡ true
      → ((s : ℕ)
          → step ≤ s
          → s < k
          → ready_at states (ring_index (length states) current s) ≡ false)
      → Scan states current step left pick
  nobody :
      pick ≡ length states
      → ((s : ℕ)
          → step ≤ s
          → s < step + left
          → ready_at states (ring_index (length states) current s) ≡ false)
      → Scan states current step left pick

Scan-later :
    (states : List State) (current step left pick : ℕ)
    → ready_at states (ring_index (length states) current step) ≡ false
    → Scan states current (step + 1) left pick
    → Scan states current step (suc left) pick
Scan-later states current step left pick not_here (found k lo hi e r before) =
    found k (omega arith) (omega arith) e r (λ s p q. elim (ℕ_discrete s step) [
      | yes same ↦ rw same not_here
      | no other ↦ before s (omega arith) q
    ])
Scan-later states current step left pick not_here (nobody e none_later) = nobody e (λ s p q.
    elim (ℕ_discrete s step) [
      | yes same ↦ rw same not_here
      | no other ↦ none_later s (omega arith) (omega arith)
    ])

pub pick_from-Scan :
    (states : List State) (current step left : ℕ)
    → Scan states current step left (pick_from states current step left)
unfolding pick_from
pick_from-Scan states current step zero = nobody refl (λ s p q. absurd (omega arith))
pick_from-Scan states current step (suc left) =
    elim (Bool-cases (ready_at states (ring_index (length states) current step))) [
      | inl here ↦
          rw here (found step (omega arith) (omega arith) refl here (λ s p q. absurd (omega arith)))
      | inr later ↦ rw later (
          Scan-later states current step left _ later
            (pick_from-Scan states current (step + 1) left))
    ]
