-- ===== src/Vcpu/Fp/Tests.antt =====
-- Two vCPUs that use the FP registers in turn.
use novavisor.Base.{ℕ, ◌+◌}
use novavisor.Base.{◌≡◌, refl}
use novavisor.Base.{true, List, [], ◌∷◌}
use novavisor.Base.{arith}
use novavisor.Vcpu.Fp.{no_owner, trap_needed, Core}
use novavisor.Vcpu.Fp.Transparent.{Event, Files, execute, run, spec_run}
use novavisor.Vcpu.Fp.Transparent.{Agrees, run_transparent, switch, compute, reseed}

abbrev boot_core : Core ℕ
boot_core = record {
  current = 0;
  owner = no_owner;
  fp_trap = true;
  hw_trap = true;
  hw_file = 99;
  bank = λ v. 0;
}

abbrev boot_files : Files ℕ
boot_files = record { resident = 0; file = λ v. 0 }

abbrev turns : List (Event ℕ)
turns = compute (λ x. x + 7) ∷ switch 1 ∷ compute (λ x. x + 1) ∷ switch 0 ∷ reseed 1 5 ∷ []

boot-Agrees : Agrees boot_core boot_files
unfolding trap_needed
boot-Agrees = record {
  same_resident = refl;
  resident_vcpu = omega arith;
  mirrored = refl;
  trapped = refl;
  values = λ v h. ground (arith, h);
}

run_transparent_example :
    (execute (run boot_core turns) (λ r. r)).hw_file
    ≡ (spec_run boot_files turns).file ((spec_run boot_files turns).resident)
run_transparent_example =
    run_transparent turns boot_core boot_files
      (omega arith, (omega arith, ((omega arith, (λ e. absurd (omega (arith, e)))), tt)))
      boot-Agrees
