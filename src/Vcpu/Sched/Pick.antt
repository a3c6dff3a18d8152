-- ===== src/Vcpu/Sched/Pick.antt =====
-- What `pick_next` promises its callers, and what follows for a vCPU that waits.
use novavisor.Base.{ℕ, zero, suc, ◌+◌, ◌≤◌, ◌<◌, ◌≡◌, ◌≢◌, inl, inr, ap, sym, ◌∙◌, true, false}
use novavisor.Base.{List, [], ◌∷◌, some, length, get_elem?, ltb, arith, Bool-cases, ℕ_discrete}
use novavisor.Base.{dec_lt, lt→ltb}
use native.Mathlib.Nat.{mod-lt}
use novavisor.Vcpu.Sched.{ring_index, State, is_ready, pick_next, slice_needed}
use novavisor.Vcpu.Sched.RoundRobin.{IsCurrent, distance, ready_at, Scan, found, nobody}
use novavisor.Vcpu.Sched.RoundRobin.{pick_from-Scan, distance_bounds, ring_index-distance}
use novavisor.Vcpu.Sched.RoundRobin.{distance-ring_index}

-- The contract of a pick: nothing out of range, nothing that cannot run, and no ready slot nearer
-- on the ring; in particular somebody is picked when anybody is ready.
pub record IsPick (states : List State) (current pick : ℕ) : Type 0 where
  pub in_range : pick ≤ length states
  pub runnable : pick < length states → ready_at states pick ≡ true
  pub nearest :
      (i : ℕ)
      → i < length states
      → ready_at states i ≡ true
      → (pick < length states)
        × (distance (length states) current pick ≤ distance (length states) current i)

-- If no step before `k` finds somebody, a ready slot is at least `k` steps away.
distance_of_ready :
    (states : List State) (current k i : ℕ)
    → IsCurrent (length states) current
    → ((s : ℕ) → 1 ≤ s → s < k → ready_at states (ring_index (length states) current s) ≡ false)
    → i < length states
    → ready_at states i ≡ true
    → k ≤ distance (length states) current i
distance_of_ready states current k i h before hi ri =
    let d = distance (length states) current i in
    let back : ring_index (length states) current d ≡ i =
      ring_index-distance (length states) current i h hi in
    elim (dec_lt d k) [
      | yes lt ↦
          let dark = before d (distance_bounds (length states) current i h hi).0 lt in
          cc (dark, ap (ready_at states) back)
      | no ge ↦ omega arith
    ]

IsPick-of_Scan :
    (states : List State) (current pick : ℕ)
    → IsCurrent (length states) current
    → Scan states current 1 (length states) pick
    → IsPick states current pick
IsPick-of_Scan states current pick h (found k lo hi e r before) =
    let far = distance-ring_index (length states) current k h lo (omega arith) in
    let inside : pick < length states = rw e (mod-lt _ (omega arith)) in
    record {
      in_range = omega arith;
      runnable = λ _. r;
      nearest =
          λ i hi ri. (inside, rw (e, far) (distance_of_ready states current k i h before hi ri));
    }
IsPick-of_Scan states current pick h (nobody e none_ready) = record {
  in_range = omega arith;
  runnable = λ p. absurd (omega arith);
  nearest = λ i hi ri. absurd (
      omega (
        arith,
        distance_of_ready states current (1 + length states) i h none_ready hi ri,
        distance_bounds (length states) current i h hi,
      ));
}

-- `pick_next`, from any resident slot or none, returns the ready slot that comes first after it in
-- ring order, and `states.size()` exactly when no slot is ready.
pub pick_next-IsPick :
    (states : List State) (current : ℕ)
    → IsCurrent (length states) current
    → IsPick states current (pick_next states current)
unfolding pick_next
pick_next-IsPick states current h =
    IsPick-of_Scan states current _ h (pick_from-Scan states current 1 (length states))

slice_needed-ready :
    (states : List State)
    → slice_needed states ≡ true
    → (i : ℕ) × (i < length states) × (ready_at states i ≡ true)
unfolding slice_needed
slice_needed-ready [] h = cc
slice_needed-ready (s ∷ rest) h = elim (Bool-cases (is_ready s)) [
  | inl r ↦ (0, omega arith, r)
  | inr r ↦ let (i, lt, ri) = slice_needed-ready rest (rw r at h) in (suc i, omega arith, ri)
]

ready-slice_needed :
    (states : List State) (i : ℕ)
    → i < length states
    → ready_at states i ≡ true
    → slice_needed states ≡ true
unfolding slice_needed
ready-slice_needed [] i h r = absurd (omega arith)
ready-slice_needed (s ∷ rest) zero h r = rw r
ready-slice_needed (s ∷ rest) (suc i) h r =
    ground (arith, ready-slice_needed rest i (omega arith) r)

-- The slice is armed for exactly the tables from which `pick_next` finds somebody to run.
pub slice_needed-pick_next :
    (states : List State) (current : ℕ)
    → IsCurrent (length states) current
    → slice_needed states ≡ ltb (pick_next states current) (length states)
slice_needed-pick_next states current h =
    let p = pick_next-IsPick states current h in
    elim (dec_lt (pick_next states current) (length states)) [
      | yes lt ↦ ready-slice_needed states _ lt (p.runnable lt) ∙ sym (lt→ltb _ _ lt)
      | no ge ↦ elim (Bool-cases (slice_needed states)) [
        | inl wanted ↦
            let (i, hi, ri) = slice_needed-ready states wanted in absurd (ge (p.nearest i hi ri).0)
        | inr unwanted ↦ unwanted ∙ ground arith
      ]
    ]

-- The slots that a core makes resident when it reschedules once for each table in turn.
pub picks : List (List State) → ℕ → List ℕ
picks [] current = []
picks (t ∷ ts) current = pick_next t current ∷ picks ts (pick_next t current)

-- Every table has `size` slots, and slot `i` is ready in it.
abbrev pub WaitsIn : ℕ → ℕ → List (List State) → Type 0
WaitsIn size i [] = Unit
WaitsIn size i (t ∷ ts) = ((length t ≡ size) × (ready_at t i ≡ true)) × WaitsIn size i ts

distance-pick-lt :
    (size current pick i : ℕ)
    → IsCurrent size current
    → i < size
    → pick < size
    → pick ≢ i
    → distance size current pick ≤ distance size current i
    → distance size pick i < distance size current i
distance-pick-lt size current pick i h hi hp ne le = ground arith

picks_within :
    (size i : ℕ) (tables : List (List State)) (current : ℕ)
    → IsCurrent size current
    → i < size
    → WaitsIn size i tables
    → distance size current i ≤ length tables
    → (k : ℕ) × (k < distance size current i) × (get_elem? (picks tables current) k ≡ some i)
unfolding picks
picks_within size i [] current h hi w le =
    absurd (omega (arith, distance_bounds size current i h hi))
picks_within size i (t ∷ ts) current h hi ((same, r), w) le =
    let p = pick_next-IsPick t current (rw same h) in
    let (inside, near) = p.nearest i (rw same hi) r in
    elim (ℕ_discrete (pick_next t current) i) [
      | yes here ↦ (0, omega (arith, distance_bounds size current i h hi), ap some here)
      | no other ↦
          let closer =
            distance-pick-lt size current (pick_next t current) i h hi (rw same at inside) other
              (rw same at near) in
          let (k, lt, e) =
            picks_within size i ts (pick_next t current) (h.0, inl (rw same at inside)) hi w
              (omega arith) in
          (suc k, omega arith, e)
    ]

-- No starvation: a slot that stays ready is made resident within `size` picks, whatever the
-- other slots do in between.
pub picks_serve :
    (size i : ℕ) (tables : List (List State)) (current : ℕ)
    → IsCurrent size current
    → i < size
    → WaitsIn size i tables
    → size ≤ length tables
    → (k : ℕ) × (k < size) × (get_elem? (picks tables current) k ≡ some i)
picks_serve size i tables current h hi w le =
    let (lo, up) = distance_bounds size current i h hi in
    let (k, lt, e) = picks_within size i tables current h hi w (omega arith) in (k, omega arith, e)
