-- ===== src/Vdev/Gic/Targets.antt =====
-- The targets of software-generated interrupts and of SPIs
-- (src/components/vdev/vgic/include/vgic/vgic_model.hpp).
use novavisor.Base.{ℕ, ◌^◌, ◌<◌, bit_and}
use novavisor.Base.{◌≡◌, ap, ◌∙◌, inl, inr}
use novavisor.Base.{Bool, true, not, ◌&&◌}
use novavisor.Base.{arith, dec_lt}
use novavisor.Base.{ltb, ◌==◌, if◌then◌else◌, Bool-cases}
use novavisor.Base.{bit, bit_not, bit-bit_and, bit-bit_not, bit-zero, bit-pow}
use novavisor.Base.{bit_and-pow}
use novavisor.Base.{bit-ones, pow_lt}
use novavisor.Base.{bit_and_comm}
use novavisor.Vdev.Gic.{sgi1r_elsewhere, all_vcpus, sgi1r_targets, DistState}
use novavisor.Vdev.Gic.{spi_target}

siblings :
    (sender vcpus i : ℕ) (irm other : Bool)
    → irm ≡ true
    → sender < vcpus
    → vcpus < 32
    → (bit (all_vcpus vcpus) i && bit (bit_not 32 (2 ^ sender)) i)
      ≡ (ltb i vcpus && (if irm then not (sender == i) else other))
siblings sender vcpus i irm other t hs hn =
    let all = bit-ones vcpus i in
    elim (dec_lt i vcpus) [
      | yes lt ↦
          let away =
            bit-bit_not 32 (2 ^ sender) i (pow_lt sender 32 (omega (arith, hs, hn)))
              (omega (arith, lt, hn)) in
          ground (arith, all, away, bit-pow sender i, t)
      | no ge ↦ ground (arith, all)
    ]

-- An SGI reaches no vCPU outside the sender's VM; with the routing mode set it reaches every vCPU of the VM but the sender, and otherwise those of the first sixteen that its target list names, none if it names another cluster.
pub sgi1r_targets-bit :
    (v sender vcpus i : ℕ)
    → v < 2 ^ 64
    → sender < vcpus
    → vcpus < 32
    → bit (sgi1r_targets v sender vcpus) i ≡ (
        ltb i vcpus
        && (if bit v 40
            then not (sender == i)
            else ((bit_and v sgi1r_elsewhere == 0) && ltb i 16 && bit v i)))
sgi1r_targets-bit v sender vcpus i hv hs hn =
    let irm : bit_and v (2 ^ 40) ≡ (if bit v 40 then 2 ^ 40 else 0) =
      bit_and_comm 64 v (2 ^ 40) hv (omega arith) ∙ bit_and-pow 64 40 v (omega arith) in
    let all = bit-ones vcpus i in
    elim (Bool-cases (bit v 40)) [
      | inl t ↦
          ap (λ m. bit m i) {x = sgi1r_targets v sender vcpus}
            {y = bit_and (all_vcpus vcpus) (bit_not 32 (2 ^ sender))} (ground (arith, irm, t))
          ∙ bit-bit_and (all_vcpus vcpus) (bit_not 32 (2 ^ sender)) i
          ∙ siblings sender vcpus i (bit v 40)
              (bit_and v sgi1r_elsewhere == 0 && ltb i 16 && bit v i) t hs hn
      | inr f ↦ elim (Bool-cases (bit_and v sgi1r_elsewhere == 0)) [
        | inl here ↦
            ap (λ m. bit m i) {x = sgi1r_targets v sender vcpus}
              {y = bit_and (bit_and v 65535) (all_vcpus vcpus)} (ground (arith, irm, f, here))
            ∙ bit-bit_and (bit_and v 65535) (all_vcpus vcpus) i
            ∙ ground (arith, bit-bit_and v 65535 i, bit-ones 16 i, all, f, here)
        | inr away ↦
            ap (λ m. bit m i) {x = sgi1r_targets v sender vcpus} {y = 0}
              (ground (arith, irm, f, away))
            ∙ ground (arith, bit-zero i, f, away)
      ]
    ]

-- An SPI is always routed to a vCPU that exists.
pub spi_target-lt : (d : DistState) (intid vcpus : ℕ) → 0 < vcpus → spi_target d intid vcpus < vcpus
spi_target-lt d intid vcpus h = ground arith
