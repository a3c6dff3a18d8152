-- ===== src/Vcpu/Switch/Views.antt =====
-- Reads of the table of vCPUs after a write (sched.cpp).
use novavisor.Base.{ℕ, zero, suc, ◌<◌}
use novavisor.Base.{◌≡◌, refl, ap, ◌≢◌}
use novavisor.Base.{◌&&◌, some, List, [], ◌∷◌}
use novavisor.Base.{arith}
use novavisor.Base.{ltb, ◌==◌, if◌then◌else◌}
use novavisor.Base.{length, get_elem?, get_or}
use novavisor.Vcpu.Sched.{State, off, ready, is_running}
use novavisor.Vcpu.Switch.{Vcpu, CoreSched}
use novavisor.Vcpu.Switch.{states_of}
use novavisor.Vcpu.Switch.{update, with_state, state_at}
use novavisor.Vcpu.Switch.{parked}

module _ {A B : Type 0} where
  pub length-update :
      (vs : List (Vcpu A B)) (i : ℕ) (f : Vcpu A B → Vcpu A B) → length (update vs i f) ≡ length vs
  unfolding update
  length-update [] i f = refl
  length-update (v ∷ vs) zero f = refl
  length-update (v ∷ vs) (suc i) f = ap suc (length-update vs i f)

  pub get_elem?-update_self :
      (vs : List (Vcpu A B)) (i : ℕ) (f : Vcpu A B → Vcpu A B) (v : Vcpu A B)
      → get_elem? vs i ≡ some v
      → get_elem? (update vs i f) i ≡ some (f v)
  unfolding update
  get_elem?-update_self [] i f v h = absurd (cc h)
  get_elem?-update_self (w ∷ vs) zero f v h = cc
  get_elem?-update_self (w ∷ vs) (suc i) f v h = get_elem?-update_self vs i f v h

  pub get_elem?-update_ne :
      (vs : List (Vcpu A B)) (i j : ℕ) (f : Vcpu A B → Vcpu A B)
      → i ≢ j
      → get_elem? (update vs i f) j ≡ get_elem? vs j
  unfolding update
  get_elem?-update_ne [] i j f h = refl
  get_elem?-update_ne (w ∷ vs) zero zero f h = absurd (h refl)
  get_elem?-update_ne (w ∷ vs) zero (suc j) f h = refl
  get_elem?-update_ne (w ∷ vs) (suc i) zero f h = refl
  get_elem?-update_ne (w ∷ vs) (suc i) (suc j) f h =
      get_elem?-update_ne vs i j f (λ e. h (ap suc e))

  pub get_elem?-in_range :
      (vs : List (Vcpu A B)) (i : ℕ)
      → i < length vs
      → (v : Vcpu A B) × (get_elem? vs i ≡ some v) × (state_at vs i ≡ v.state)
  unfolding state_at
  get_elem?-in_range [] i h = absurd (omega arith)
  get_elem?-in_range (v ∷ vs) zero h = (v, refl, refl)
  get_elem?-in_range (v ∷ vs) (suc i) h = get_elem?-in_range vs i (omega arith)

  pub state_at-elem :
      (vs : List (Vcpu A B)) (i : ℕ) (v : Vcpu A B)
      → get_elem? vs i ≡ some v
      → state_at vs i ≡ v.state
  unfolding state_at
  state_at-elem [] i v h = absurd (cc h)
  state_at-elem (w ∷ vs) zero v h = cc
  state_at-elem (w ∷ vs) (suc i) v h = state_at-elem vs i v h

  -- Off beyond the end.
  pub state_at-range : (vs : List (Vcpu A B)) (i : ℕ) → state_at vs i ≢ off → i < length vs
  unfolding state_at
  state_at-range [] i h = absurd (h refl)
  state_at-range (v ∷ vs) zero h = omega arith
  state_at-range (v ∷ vs) (suc i) h = omega (arith, state_at-range vs i h)

  pub state_at-set :
      (vs : List (Vcpu A B)) (i j : ℕ) (st : State)
      → i < length vs
      → state_at (update vs i (with_state st)) j ≡ (if i == j then st else state_at vs j)
  unfolding update state_at
  state_at-set [] i j st h = absurd (omega arith)
  state_at-set (v ∷ vs) zero zero st h = ground arith
  state_at-set (v ∷ vs) zero (suc j) st h = ground arith
  state_at-set (v ∷ vs) (suc i) zero st h = ground arith
  state_at-set (v ∷ vs) (suc i) (suc j) st h = ground (arith, state_at-set vs i j st (omega arith))

  pub state_at-parked :
      (s : CoreSched A B) (vs : List (Vcpu A B)) (i j : ℕ)
      → state_at (update vs i (parked s)) j
        ≡ (if (i == j) && is_running (state_at vs j) then ready else state_at vs j)
  unfolding update state_at is_running
  state_at-parked s [] i j = ground arith
  state_at-parked s (v ∷ vs) zero zero = ground arith
  state_at-parked s (v ∷ vs) zero (suc j) = ground arith
  state_at-parked s (v ∷ vs) (suc i) zero = ground arith
  state_at-parked s (v ∷ vs) (suc i) (suc j) = ground (arith, state_at-parked s vs i j)

  pub length-states_of :
      (self : ℕ) (vs : List (Vcpu A B)) (affs : List ℕ)
      → length (states_of self vs affs) ≡ length vs
  unfolding states_of
  length-states_of self [] affs = refl
  length-states_of self (v ∷ vs) [] = ap suc (length-states_of self vs [])
  length-states_of self (v ∷ vs) (a ∷ affs) = ap suc (length-states_of self vs affs)

  -- A slot reads ready only if its vCPU is ready and this core's.
  pub get_or-states_of :
      (self : ℕ) (vs : List (Vcpu A B)) (affs : List ℕ) (i : ℕ)
      → length affs ≡ length vs
      → get_or (states_of self vs affs) i off
        ≡ (if ltb i (length vs) && (get_or affs i 0 == self) then state_at vs i else off)
  unfolding states_of state_at
  get_or-states_of self [] affs i h = ground arith
  get_or-states_of self (v ∷ vs) [] i h = absurd (omega arith)
  get_or-states_of self (v ∷ vs) (a ∷ affs) zero h = ground arith
  get_or-states_of self (v ∷ vs) (a ∷ affs) (suc i) h =
      ground (arith, get_or-states_of self vs affs i (omega arith))
