-- ===== src/Vdev/Delivery/Wanted.antt =====
-- Which interrupts a virtual CPU is willing to take (vgic_delivery.hpp, `deliverable` and
-- `spi_deliverable`), and the SPIs whose token is live (`pending_token_mask`).
use novavisor.Base.{ℕ, zero, suc, ◌+◌, ◌-◌, ◌*◌, ◌^◌, ◌<◌, bit_and, bit_or}
use novavisor.Base.{◌≡◌, ap, ◌∙◌, inl, inr}
use novavisor.Base.{Bool, ◌&&◌, ◌||◌, List, [], ◌∷◌}
use novavisor.Base.{arith, dec_lt, ℕ_discrete}
use novavisor.Base.{ltb, leb, ◌==◌, if◌then◌else◌, Bool-cases}
use novavisor.Base.{length, get_or}
use novavisor.Base.{bit, bit-bit_and, bit-bit_or, bit-zero, bit-pow}
use novavisor.Base.{bit-above, bit_and-lt, bit_or-lt}
use novavisor.Base.{bit-shift}
use novavisor.Vdev.Delivery.{EoiToken, valid, no_token}
use novavisor.Vdev.Delivery.{token_mask_from, pending_token_mask}
use novavisor.Vdev.Delivery.{deliverable, routed_from}
use novavisor.Vdev.Delivery.{spi_deliverable}
use novavisor.Vdev.Delivery.{Bank}
use novavisor.Vdev.Delivery.{wanted}
use novavisor.Vdev.Gic.{DistState, spi_target}
use novavisor.Vdev.Gic.Offsets.{max_intid, num_private, num_spis}

routed_from-bit :
    (d : DistState) (vcpu vcpus i n acc j : ℕ)
    → bit (routed_from d vcpu vcpus i n acc) j
      ≡ (bit acc j || (leb i j && ltb j (i + n) && (spi_target d (num_private + j) vcpus == vcpu)))
unfolding routed_from
routed_from-bit d vcpu vcpus i zero acc j = ground arith
routed_from-bit d vcpu vcpus i (suc n) acc j =
    let one = if spi_target d (num_private + i) vcpus == vcpu then 1 else 0 in
    let ih = routed_from-bit d vcpu vcpus (i + 1) n (bit_or acc (one * 2 ^ i)) j in
    let mark : bit (one * 2 ^ i) j ≡ ((i == j) && (spi_target d (num_private + i) vcpus == vcpu)) =
      elim (Bool-cases (spi_target d (num_private + i) vcpus == vcpu)) [
        | inl t ↦ rw t (
            ap (λ m. bit m j) {x = 1 * 2 ^ i} {y = 2 ^ i} (omega arith)
            ∙ bit-pow i j
            ∙ ground arith)
        | inr f ↦
            rw f
              (ap (λ m. bit m j) {x = 0 * 2 ^ i} {y = 0} (omega arith) ∙ bit-zero j ∙ ground arith)
      ] in
    ih ∙ (elim (ℕ_discrete i j) [
      | yes e ↦ ground (
        arith,
        bit-bit_or acc (one * 2 ^ i) j,
        mark,
        ap (λ m. spi_target d (num_private + m) vcpus) e,
      )
      | no ne ↦ ground (arith, bit-bit_or acc (one * 2 ^ i) j, mark)
    ])

-- An SPI is deliverable to a vCPU just when it is pending, enabled and routed there.
pub bit-spi_deliverable :
    (d : DistState) (vcpu vcpus j : ℕ)
    → j < num_spis
    → bit (spi_deliverable d vcpu vcpus) j ≡ (
        bit d.spi_pending j
        && bit d.spi_enabled j
        && (spi_target d (num_private + j) vcpus == vcpu))
unfolding spi_deliverable
bit-spi_deliverable d vcpu vcpus j h =
    bit-bit_and (bit_and d.spi_pending d.spi_enabled) (routed_from d vcpu vcpus 0 num_spis 0) j
    ∙ ground (
      arith,
      bit-bit_and d.spi_pending d.spi_enabled j,
      routed_from-bit d vcpu vcpus 0 num_spis 0 j,
      bit-zero j,
    )

-- The gate of one interrupt: pending and enabled, and an SPI routed to the vCPU.
abbrev pub wanted_at : Bank → ℕ → ℕ → ℕ → Bool
wanted_at b vcpu vcpus id =
    if leb num_private id
    then (bit b.dist.spi_pending (id - num_private)
        && bit b.dist.spi_enabled (id - num_private)
        && (spi_target b.dist id vcpus == vcpu))
    else (bit b.cpu.redist.pending id && bit b.cpu.redist.isenabler0 id)

pub bit-wanted :
    (b : Bank) (vcpu vcpus id : ℕ)
    → b.cpu.redist.pending < 2 ^ 32
    → id < max_intid
    → bit (wanted b vcpu vcpus) id ≡ wanted_at b vcpu vcpus id
bit-wanted b vcpu vcpus id w h =
    let spis = spi_deliverable b.dist vcpu vcpus in
    let priv = deliverable b.cpu.redist in
    let split =
      bit-bit_or (spis * 2 ^ num_private) priv id
      ∙ ap (λ t. t || bit priv id) (bit-shift spis 32 id) in
    let p = bit-bit_and b.cpu.redist.pending b.cpu.redist.isenabler0 id in
    let top = bit-above 32 priv id (bit_and-lt 32 b.cpu.redist.pending b.cpu.redist.isenabler0 w) in
    elim (dec_lt id 32) [
      | yes lo ↦ split ∙ ground (arith, p)
      | no hi ↦
          let at : (32 + (id - 32)) ≡ id = omega arith in
          let s = bit-spi_deliverable b.dist vcpu vcpus (id - 32) (omega arith) in
          split
          ∙ ground (arith, s, ap (λ m. spi_target b.dist m vcpus == vcpu) at, top (omega arith))
    ]

pub wanted-lt :
    (b : Bank) (vcpu vcpus : ℕ)
    → b.cpu.redist.pending < 2 ^ 32
    → b.dist.spi_pending < 2 ^ 32
    → wanted b vcpu vcpus < 2 ^ 64
unfolding spi_deliverable
wanted-lt b vcpu vcpus p s =
    let enabled = bit_and b.dist.spi_pending b.dist.spi_enabled in
    let small =
      bit_and-lt 32 enabled (routed_from b.dist vcpu vcpus 0 num_spis 0)
        (bit_and-lt 32 b.dist.spi_pending b.dist.spi_enabled s) in
    bit_or-lt 64 (spi_deliverable b.dist vcpu vcpus * 2 ^ 32) (deliverable b.cpu.redist)
      (omega (arith, small))
      (omega (arith, bit_and-lt 32 b.cpu.redist.pending b.cpu.redist.isenabler0 p))

token_mask_from-bit :
    (i : ℕ) (ts : List EoiToken) (acc j : ℕ)
    → bit (token_mask_from i ts acc) j
      ≡ (bit acc j || (leb i j && ltb j (i + length ts) && valid (get_or ts (j - i) no_token)))
unfolding token_mask_from
token_mask_from-bit i [] acc j = ground arith
token_mask_from-bit i (t ∷ ts) acc j =
    let one : ℕ = if valid t then 1 else 0 in
    let ih = token_mask_from-bit (i + 1) ts (bit_or acc (one * 2 ^ i)) j in
    let mark : bit (one * 2 ^ i) j ≡ ((i == j) && valid t) = elim (Bool-cases (valid t)) [
      | inl y ↦
          rw y (
            ap (λ m. bit m j) {x = 1 * 2 ^ i} {y = 2 ^ i} (omega arith)
            ∙ bit-pow i j
            ∙ ground arith)
      | inr f ↦
          rw f (ap (λ m. bit m j) {x = 0 * 2 ^ i} {y = 0} (omega arith) ∙ bit-zero j ∙ ground arith)
    ] in
    let split = bit-bit_or acc (one * 2 ^ i) j in
    elim (dec_lt j i) [
      | yes l ↦ ih ∙ ground (arith, split, mark)
      | no ge ↦ elim (ℕ_discrete i j) [
        | yes e ↦
            let here : get_or (t ∷ ts) (j - i) no_token ≡ t =
              ap (λ (m : ℕ). get_or (t ∷ ts) m no_token) {x = j - i} {y = zero} (omega arith) in
            ih ∙ ground (arith, split, mark, here)
        | no ne ↦
            let there : get_or (t ∷ ts) (j - i) no_token ≡ get_or ts (j - (i + 1)) no_token =
              ap (λ (m : ℕ). get_or (t ∷ ts) m no_token) {x = j - i} {y = suc (j - (i + 1))}
                (omega arith) in
            ih ∙ ground (arith, split, mark, there)
      ]
    ]

-- The mask has exactly the bits of the SPIs that still owe a device an end of interrupt.
pub pending_token_mask-bit :
    (ts : List EoiToken) (j : ℕ)
    → bit (pending_token_mask ts) j ≡ (ltb j (length ts) && valid (get_or ts j no_token))
unfolding pending_token_mask
pending_token_mask-bit ts j = token_mask_from-bit 0 ts 0 j ∙ ground (arith, bit-zero j)
