-- ===== src/Vcpu/Fp/Transparent.antt =====
-- Lazy switching cannot be seen: each vCPU finds in the FP registers what it left there.
use novavisor.Base.{ℕ, ◌≡◌, ◌≢◌, ◌<◌, List, [], ◌∷◌, ◌==◌, if◌then◌else◌, arith}
use novavisor.Vcpu.Fp.{Core, no_owner, update, trap_needed, handle_fp_simd, switch_to, seed}

-- What happens on a core: a switch to another vCPU, an FP instruction of the resident one, and a
-- reseed of a vCPU that is not resident.
pub data Event {ℓ} (A : Type ℓ) : Type ℓ where
  switch : ℕ → Event A
  compute : (A → A) → Event A
  reseed : ℕ → A → Event A

-- A machine with a register file for each vCPU.
pub record Files {ℓ} (A : Type ℓ) : Type ℓ where
  pub resident : ℕ
  pub file : ℕ → A

module _ {A : Type 0} where
  -- The hardware traps an FP instruction while the trap bit is set, and runs it again after the trap.
  pub execute : Core A → (A → A) → Core A
  execute c f =
      let c1 = if c.hw_trap then handle_fp_simd c else c in record c1 { hw_file = f c1.hw_file }

  pub step : Core A → Event A → Core A
  unfolding execute
  step c (switch next) = switch_to c next
  step c (compute f) = execute c f
  step c (reseed slot fresh) = seed c slot fresh

  pub run : Core A → List (Event A) → Core A
  run c [] = c
  run c (e ∷ es) = run (step c e) es

  pub spec_step : Files A → Event A → Files A
  spec_step s (switch next) = record s { resident = next }
  spec_step s (compute f) = record s { file = update s.file s.resident (f (s.file s.resident)) }
  spec_step s (reseed slot fresh) = record s { file = update s.file slot fresh }

  pub spec_run : Files A → List (Event A) → Files A
  spec_run s [] = s
  spec_run s (e ∷ es) = spec_run (spec_step s e) es

  -- Switches are to vCPUs, and only a vCPU that is not resident is reseeded.
  abbrev pub IsLegal : ℕ → List (Event A) → Type 0
  IsLegal current [] = Unit
  IsLegal current (switch next ∷ es) = (next < no_owner) × IsLegal next es
  IsLegal current (compute f ∷ es) = IsLegal current es
  IsLegal current (reseed slot fresh ∷ es) =
      ((slot < no_owner) × (slot ≢ current)) × IsLegal current es

  -- The core in `c` stands for the files `s`: a vCPU's registers are in the hardware exactly while
  -- it is the owner, and the trap bit is set exactly for a resident that is not.
  pub record Agrees (c : Core A) (s : Files A) : Type 0 where
    pub same_resident : c.current ≡ s.resident
    pub resident_vcpu : c.current < no_owner
    pub mirrored : c.fp_trap ≡ c.hw_trap
    pub trapped : c.hw_trap ≡ trap_needed c.owner c.current
    pub values : (v : ℕ) → v < no_owner → (if v == c.owner then c.hw_file else c.bank v) ≡ s.file v

  step-Agrees-switch :
      (c : Core A) (s : Files A) (next : ℕ)
      → next < no_owner
      → Agrees c s
      → Agrees (switch_to c next) (spec_step s (switch next))
  unfolding switch_to trap_needed spec_step
  step-Agrees-switch c s next h a = record {
    same_resident = ground arith;
    resident_vcpu = ground arith;
    mirrored = ground arith;
    trapped = ground arith;
    values = λ v hv. ground (arith, a.values v hv);
  }

  step-Agrees-compute :
      (c : Core A) (s : Files A) (f : A → A)
      → Agrees c s
      → Agrees (execute c f) (spec_step s (compute f))
  unfolding execute handle_fp_simd trap_needed spec_step
  step-Agrees-compute c s f a = record {
    same_resident = ground arith;
    resident_vcpu = ground arith;
    mirrored = ground arith;
    trapped = ground arith;
    values = λ v hv. ground (arith, a.values v hv, a.values c.current a.resident_vcpu);
  }

  read-execute :
      (c : Core A) (s : Files A) → Agrees c s → (execute c (λ r. r)).hw_file ≡ s.file s.resident
  unfolding execute handle_fp_simd trap_needed
  read-execute c s a = ground (arith, a.values c.current a.resident_vcpu)

  current-execute : (c : Core A) (f : A → A) → (execute c f).current ≡ c.current
  unfolding execute handle_fp_simd
  current-execute c f = ground arith

  step-Agrees-reseed :
      (c : Core A) (s : Files A) (slot : ℕ) (fresh : A)
      → slot < no_owner
      → slot ≢ c.current
      → Agrees c s
      → Agrees (seed c slot fresh) (spec_step s (reseed slot fresh))
  unfolding seed trap_needed spec_step
  step-Agrees-reseed c s slot fresh h ne a = record {
    same_resident = ground arith;
    resident_vcpu = ground arith;
    mirrored = ground arith;
    trapped = ground arith;
    values = λ v hv. ground (arith, a.values v hv);
  }

  run-Agrees :
      (es : List (Event A)) (c : Core A) (s : Files A)
      → IsLegal c.current es
      → Agrees c s
      → Agrees (run c es) (spec_run s es)
  unfolding run spec_run step
  run-Agrees [] c s l a = a
  run-Agrees (switch next ∷ es) c s (h, l) a =
      run-Agrees es (switch_to c next) _ (unfold switch_to in l) (step-Agrees-switch c s next h a)
  run-Agrees (compute f ∷ es) c s l a =
      run-Agrees es (execute c f) _ (rw (current-execute c f) l) (step-Agrees-compute c s f a)
  run-Agrees (reseed slot fresh ∷ es) c s ((h, ne), l) a =
      run-Agrees es (seed c slot fresh) _ (unfold seed in l)
        (step-Agrees-reseed c s slot fresh h ne a)

  -- Lazy FP switching is transparent: after any legal run of switches, FP instructions and reseeds,
  -- the resident vCPU's FP registers, read after the trap that reading may take, hold what a machine
  -- with a register file for each vCPU would hold.
  pub run_transparent :
      (es : List (Event A)) (c : Core A) (s : Files A)
      → IsLegal c.current es
      → Agrees c s
      → (execute (run c es) (λ r. r)).hw_file ≡ (spec_run s es).file (spec_run s es).resident
  run_transparent es c s l a = read-execute (run c es) (spec_run s es) (run-Agrees es c s l a)
