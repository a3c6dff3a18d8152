-- ===== src/Vcpu/Power/Budget.antt =====
-- The restart budget over a run: how many warm resets a VM gets between two cold starts.
use novavisor.Base.{ℕ, suc, ◌+◌, ◌%◌, ◌^◌, ◌≤◌, ◌<◌, ◌≡◌, ◌≢◌, refl, Bool, true, false, not, ◌&&◌}
use novavisor.Base.{List, [], ◌∷◌, ◌==◌, length, get_or, set, get_or-set_self, get_or-set_ne}
use novavisor.Base.{length-set, leb, if◌then◌else◌, if-cases, ℕ_discrete, arith}
use novavisor.Vcpu.Power.{Config, Machine, max_restarts, take, refill, reserve_start}
use novavisor.Vcpu.Power.{cancel_start, advance_vm_generation, begin_lifecycle_transition}
use novavisor.Vcpu.Power.{end_lifecycle_transition}
use novavisor.Vcpu.Power.Ops.{can_start, prepared, prepare_start_vm, publish_start_vm, joined}
use novavisor.Vcpu.Power.Ops.{start_vcpu, retire_vcpu, can_reset, prepare_reset_quiesced_vm}
use novavisor.Vcpu.Power.Ops.{publish_reset_vm}
use novavisor.Vcpu.Power.Run.{Request, reserves, cancels, prepares_start, retires, prepares_reset}
use novavisor.Vcpu.Power.Run.{publishes_start, publishes_reset, joins, step}

module _ (cfg : Config) (vm : ℕ) where
  -- Whether a request is a cold start of the VM that the guard lets through.
  abbrev pub is_cold_start : Machine → ℕ × Request → Bool
  is_cold_start m (me, prepares_start v) = v == vm && can_start cfg me m v
  is_cold_start m r = false

  -- Whether a request is a warm reset of the VM that is granted.
  pub grants_reset : Machine → ℕ × Request → Bool
  grants_reset m (me, prepares_reset v) =
      v == vm && not ((prepare_reset_quiesced_vm cfg me m v).1 == 0)
  grants_reset m r = false

  pub resets : Machine → List (ℕ × Request) → ℕ
  resets m [] = 0
  resets m (r ∷ rs) =
      let rest = resets (step cfg m r) rs in if grants_reset m r then suc rest else rest

  -- No cold start of the VM is granted on the way.
  abbrev pub NoColdStart : Machine → List (ℕ × Request) → Type 0
  NoColdStart m [] = Unit
  NoColdStart m (r ∷ rs) = (is_cold_start m r ≡ false) × NoColdStart (step cfg m r) rs

  abbrev pub spent : Machine → ℕ
  spent m = get_or m.budget vm 0

  -- What one request does to the budget: `counts'` for `counts`, with a reset granted or not.
  abbrev Charged : List ℕ → List ℕ → Bool → Type 0
  Charged counts counts' granted =
      (length counts' ≡ length counts)
      × (get_or counts' vm 0 ≤ max_restarts)
      × (get_or counts vm 0 + (if granted then 1 else 0) ≤ get_or counts' vm 0)

  Charged-same :
      (counts counts' : List ℕ)
      → counts' ≡ counts
      → get_or counts vm 0 ≤ max_restarts
      → Charged counts counts' false
  Charged-same counts counts' e h = rw e (refl, h, omega arith)

  Charged-other :
      (counts : List ℕ) (v k : ℕ)
      → v ≢ vm
      → get_or counts vm 0 ≤ max_restarts
      → Charged counts (set counts v k) false
  Charged-other counts v k ne h =
      rw (get_or-set_ne counts v vm k 0 ne) (length-set counts v k, h, omega arith)

  Charged-take_self :
      (counts : List ℕ)
      → vm < length counts
      → get_or counts vm 0 ≤ max_restarts
      → Charged counts (take counts vm).1 (take counts vm).0
  unfolding take
  Charged-take_self counts inside h = ground (
    arith,
    get_or-set_self counts vm ((get_or counts vm 0 + 1) % 2 ^ 8) 0,
    length-set counts vm ((get_or counts vm 0 + 1) % 2 ^ 8),
  )

  Charged-take_other :
      (counts : List ℕ) (v : ℕ)
      → v ≢ vm
      → get_or counts vm 0 ≤ max_restarts
      → Charged counts (take counts v).1 false
  unfolding take
  Charged-take_other counts v ne h =
      if-cases {A = Bool × List ℕ} (λ r. Charged counts r.1 false)
        (leb max_restarts (get_or counts v 0)) (λ e. Charged-same counts counts refl h)
        (λ e. Charged-other counts v _ ne h)

  weaken :
      (counts counts' : List ℕ) (g g' : Bool)
      → (g' ≡ true → g ≡ true)
      → Charged counts counts' g
      → Charged counts counts' g'
  weaken counts counts' g g' imp c = ground arith

  budget_reset :
      (me v : ℕ) (m : Machine)
      → (prepare_reset_quiesced_vm cfg me m v).0.budget
        ≡ (if can_reset cfg me m v then (take m.budget v).1 else m.budget)
  unfolding prepare_reset_quiesced_vm advance_vm_generation take
  budget_reset me v m = ground arith

  granted_reset :
      (me v : ℕ) (m : Machine)
      → ((prepare_reset_quiesced_vm cfg me m v).1 == 0) ≡ false
      → (can_reset cfg me m v ≡ true) × ((take m.budget v).0 ≡ true)
  unfolding prepare_reset_quiesced_vm
  granted_reset me v m h = ground arith

  Charged-reset :
      (me v : ℕ) (m : Machine)
      → vm < length m.budget
      → spent m ≤ max_restarts
      → Charged m.budget
          (prepare_reset_quiesced_vm cfg me m v).0.budget
          (grants_reset m (me, prepares_reset v))
  unfolding grants_reset
  Charged-reset me v m inside h = rw (budget_reset me v m) (
      if-cases
        (λ cs. Charged m.budget cs (v == vm && not ((prepare_reset_quiesced_vm cfg me m v).1 == 0)))
        (can_reset cfg me m v)
        (λ e. elim (ℕ_discrete v vm) [
          | yes same ↦
              weaken m.budget (take m.budget v).1 (take m.budget v).0 _
                (λ g. (granted_reset me v m (ground arith)).1)
                (rw same (Charged-take_self m.budget inside h))
          | no other ↦
              weaken m.budget (take m.budget v).1 false _ (λ g. ground arith)
                (Charged-take_other m.budget v other h)
        ])
        (λ e.
          weaken m.budget m.budget false _
            (λ g. let ok = (granted_reset me v m (ground arith)).0 in cc)
            (Charged-same m.budget m.budget refl h)))

  Charged-start :
      (me v : ℕ) (m : Machine)
      → is_cold_start m (me, prepares_start v) ≡ false
      → spent m ≤ max_restarts
      → Charged m.budget (prepare_start_vm cfg me m v).0.budget false
  unfolding prepare_start_vm prepared refill cancel_start advance_vm_generation
  Charged-start me v m cold h =
      if-cases {A = Machine × ℕ} (λ r. Charged m.budget r.0.budget false) (can_start cfg me m v)
        (λ e. Charged-other m.budget v 0 (ground (arith, cold, e)) h)
        (λ e. Charged-same m.budget _ (ground arith) h)

  Charged-step :
      (m : Machine) (r : ℕ × Request)
      → is_cold_start m r ≡ false
      → vm < length m.budget
      → spent m ≤ max_restarts
      → Charged m.budget (step cfg m r).budget (grants_reset m r)
  unfolding step grants_reset reserve_start cancel_start publish_start_vm start_vcpu joined
      retire_vcpu publish_reset_vm advance_vm_generation begin_lifecycle_transition
      end_lifecycle_transition
  Charged-step m (me, prepares_reset v) c inside h = Charged-reset me v m inside h
  Charged-step m (me, prepares_start v) c inside h = Charged-start me v m c h
  Charged-step m (me, reserves slot) c inside h = Charged-same m.budget _ (ground arith) h
  Charged-step m (me, cancels slot) c inside h = Charged-same m.budget _ (ground arith) h
  Charged-step m (me, publishes_start v g) c inside h = Charged-same m.budget _ (ground arith) h
  Charged-step m (me, joins slot entry arg) c inside h = Charged-same m.budget _ (ground arith) h
  Charged-step m (me, retires slot) c inside h = Charged-same m.budget _ (ground arith) h
  Charged-step m (me, publishes_reset v g) c inside h = Charged-same m.budget _ (ground arith) h

  resets_spend :
      (rs : List (ℕ × Request)) (m : Machine)
      → NoColdStart m rs
      → vm < length m.budget
      → spent m ≤ max_restarts
      → resets m rs + spent m ≤ max_restarts
  unfolding resets
  resets_spend [] m c inside h = omega arith
  resets_spend (r ∷ rs) m (c, cs) inside h =
      let (same, le, pays) = Charged-step m r c inside h in
      let ih = resets_spend rs (step cfg m r) cs (omega arith) le in ground (arith, ih, pays)

  -- In a run in which no cold start of a VM is granted, whatever else is requested on the machine, refused cold starts of that VM included, at most three warm resets of it are granted.
  pub resets_bounded :
      (rs : List (ℕ × Request)) (m : Machine)
      → NoColdStart m rs
      → vm < length m.budget
      → spent m ≤ max_restarts
      → resets m rs ≤ max_restarts
  resets_bounded rs m cs inside h = omega (arith, resets_spend rs m cs inside h)
