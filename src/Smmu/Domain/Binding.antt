-- ===== src/Smmu/Domain/Binding.antt =====
-- The life of one stream binding (src/components/device/smmu/include/smmu/domain_model.hpp).
use novavisor.Base.{ℕ, ◌≤◌, ◌<◌}
use novavisor.Base.{◌≡◌, refl, ap, ◌∙◌}
use novavisor.Base.{Bool, true, false, List, [], ◌∷◌}
use novavisor.Base.{arith}
use novavisor.Smmu.Domain.{is_attached}
use novavisor.Smmu.Domain.{StreamBinding, configured}
use novavisor.Smmu.Domain.{configure_binding}
use novavisor.Smmu.Domain.{mark_attached}
use novavisor.Smmu.Domain.{mark_detached, mark_quarantined, quarantined}

-- What the SMMU asks of a binding.
pub data Request : Type 0 where
  configure : ℕ → Request
  attach : ℕ → Request
  detach : Request
  quarantine : Request

abbrev pub answer : ℕ → StreamBinding → Request → Bool × StreamBinding
answer guests b (configure owner) = configure_binding b owner guests
answer guests b (attach generation) = mark_attached b generation
answer guests b detach = mark_detached b
answer guests b quarantine = mark_quarantined b

abbrev pub run : ℕ → StreamBinding → List Request → StreamBinding
run guests b [] = b
run guests b (r ∷ rs) = run guests ((answer guests b r).1) rs

run-step :
    (guests : ℕ) (b : StreamBinding) (r : Request)
    → configured b ≡ true
    → (configured ((answer guests b r).1) ≡ true)
      × (((answer guests b r).1).owner_vm ≡ b.owner_vm)
      × (b.generation ≤ ((answer guests b r).1).generation)
run-step guests b (configure owner) h = (ground (arith, h), ground (arith, h), ground (arith, h))
run-step guests b (attach generation) h = (ground (arith, h), ground (arith, h), ground (arith, h))
run-step guests b detach h = (ground (arith, h), ground (arith, h), ground (arith, h))
run-step guests b quarantine h = (ground (arith, h), ground (arith, h), ground (arith, h))

-- A configured stream keeps its owner for ever, and its generation never goes back.
pub run_keeps :
    (guests : ℕ) (b : StreamBinding) (rs : List Request)
    → configured b ≡ true
    → ((run guests b rs).owner_vm ≡ b.owner_vm) × (b.generation ≤ (run guests b rs).generation)
run_keeps guests b [] h = (refl, omega arith)
run_keeps guests b (r ∷ rs) h =
    let (c, o, g) = run-step guests b r h in
    let ih = run_keeps guests ((answer guests b r).1) rs c in (ih.0 ∙ o, omega (arith, ih.1))

late : (b : StreamBinding) (g : ℕ) → g ≤ b.generation → (mark_attached b g).0 ≡ false
late b g h = ground arith

-- A generation that a stream was attached at, or any before it, is never attached again, whatever happens in between.
pub attach_once :
    (guests : ℕ) (b : StreamBinding) (g older : ℕ) (rs : List Request)
    → (mark_attached b g).0 ≡ true
    → older ≤ g
    → (mark_attached (run guests ((mark_attached b g).1) rs) older).0 ≡ false
attach_once guests b g older rs ok h =
    let set_up : (configured ((mark_attached b g).1) ≡ true)
        × (((mark_attached b g).1).generation ≡ g) =
      (ground arith, ground arith) in
    let kept = run_keeps guests ((mark_attached b g).1) rs set_up.0 in
    late (run guests ((mark_attached b g).1) rs) older (omega (arith, kept.1, set_up.1, h))

-- A quarantined stream translates nothing until a new generation is attached: no request but such an attach leaves it attached.
pub quarantine_holds :
    (guests : ℕ) (b : StreamBinding) (r : Request)
    → b.state ≡ quarantined
    → is_attached (((answer guests b r).1).state) ≡ true
    → (g : ℕ) × (r ≡ attach g) × (b.generation < g)
quarantine_holds guests b (configure owner) q h = ground (arith, ap is_attached q)
quarantine_holds guests b (attach g) q h = (g, refl, ground (arith, ap is_attached q))
quarantine_holds guests b detach q h = ground (arith, ap is_attached q)
quarantine_holds guests b quarantine q h = ground (arith, ap is_attached q)
