-- ===== src/Vcpu/Fp.antt =====
-- Lazy FP/SIMD ownership: src/components/core/core_vcpu/include/core_vcpu/fp_model.hpp, and the code
-- of src/components/core/core_vcpu/src/sched.cpp and lifecycle.cpp that moves register banks by it.
-- A bank (`arch::FpBank`) is any type `A`: the code only copies it whole.
pub mod Transparent
mod Tests
use novavisor.Base.{ℕ, ◌-◌, ◌^◌, Bool, true, false, not, ◌==◌, if◌then◌else◌}

abbrev pub no_owner : ℕ
no_owner = 2 ^ 64 - 1

-- `Ownership::claim`: the new owner and the previous one.
pub claim : ℕ → ℕ → ℕ × ℕ
claim owner current = (current, owner)

pub trap_needed : ℕ → ℕ → Bool
trap_needed owner resident = not (owner == resident)

pub invalidate : ℕ → ℕ → ℕ
invalidate owner index = if owner == index then no_owner else owner

-- One core: its resident vCPU and FP owner, the mirror `fp_trap` of the trap bit, the hardware (the
-- trap bit and the register file), and the saved banks.
pub record Core {ℓ} (A : Type ℓ) : Type ℓ where
  pub current : ℕ
  pub owner : ℕ
  pub fp_trap : Bool
  pub hw_trap : Bool
  pub hw_file : A
  pub bank : ℕ → A

abbrev pub update {ℓ} : {A : Type ℓ} → (ℕ → A) → ℕ → A → ℕ → A
update f k v j = if j == k then v else f j

module _ {ℓ} {A : Type ℓ} where
  pub seed_fp_trap : Core A → Bool → Core A
  seed_fp_trap c trap = record c { hw_trap = trap; fp_trap = trap }

  pub switch_fp_trap : Core A → Bool → Core A
  switch_fp_trap c trap =
      if bool_eq c.fp_trap trap then c else record c { hw_trap = trap; fp_trap = trap }
    where
      bool_eq : Bool → Bool → Bool
      bool_eq true b = b
      bool_eq false b = not b

  -- `nova_fp_save(&g_vcpus[prev].fp)`, for a previous owner that is some vCPU
  save_owner : Core A → ℕ → Core A
  save_owner c prev =
      if prev == no_owner then c else record c { bank = update c.bank prev c.hw_file }

  restore : Core A → ℕ → Core A
  restore c index = record c { hw_file = c.bank index }

  pub handle_fp_simd : Core A → Core A
  unfolding save_owner restore seed_fp_trap claim
  handle_fp_simd c =
      let c1 = seed_fp_trap c false in
      let (owner', prev) = claim c1.owner c1.current in
      let c2 = record c1 { owner = owner' } in
      if prev == c2.current then c2 else restore (save_owner c2 prev) c2.current

  -- The FP half of `switch_to`; the register file stays put.
  pub switch_to : Core A → ℕ → Core A
  unfolding switch_fp_trap trap_needed
  switch_to c next =
      let c1 = switch_fp_trap c (trap_needed c.owner next) in record c1 { current = next }

  -- The FP half of `seed`: a fresh bank, and no claim on the register file.
  pub seed : Core A → ℕ → A → Core A
  unfolding invalidate
  seed c slot fresh = record c { bank = update c.bank slot fresh; owner = invalidate c.owner slot }
