-- ===== src/Vdev/Gic/Enables.antt =====
-- The enable and pending registers, bit by bit
-- (src/components/vdev/vgic/include/vgic/vgic_model.hpp).
use novavisor.Base.{ℕ, ◌%◌, ◌^◌, ◌<◌, bit_and}
use novavisor.Base.{◌≡◌, ap, ◌∙◌}
use novavisor.Base.{not, ◌&&◌, ◌||◌}
use novavisor.Base.{arith}
use novavisor.Base.{bit, bit_not, bit-bit_and, bit-bit_or, bit-bit_not}
use native.Mathlib.Nat.{mod-lt}
use novavisor.Vdev.Gic.{DistState}
use novavisor.Vdev.Gic.{dist_write}
use novavisor.Vdev.Gic.Offsets.{gicd_isenabler1, gicd_icenabler1, gicd_ispendr1}
use novavisor.Vdev.Gic.Offsets.{gicd_icpendr1}

-- A write to a set register raises the bits it names, a write to a clear register lowers them, and both leave the others; a guest's clear of the pending bits spares those of `keep_pending`.
pub dist_write-bits :
    (d : DistState) (value keep i : ℕ)
    → i < 32
    → (bit (((dist_write d gicd_isenabler1 4 value keep).1).spi_enabled) i
        ≡ (bit d.spi_enabled i || bit (value % 2 ^ 32) i))
      × (bit (((dist_write d gicd_icenabler1 4 value keep).1).spi_enabled) i
          ≡ (bit d.spi_enabled i && not (bit (value % 2 ^ 32) i)))
      × (bit (((dist_write d gicd_ispendr1 4 value keep).1).spi_pending) i
          ≡ (bit d.spi_pending i || bit (value % 2 ^ 32) i))
      × (bit (((dist_write d gicd_icpendr1 4 value keep).1).spi_pending) i
          ≡ ((bit d.spi_pending i && not (bit (value % 2 ^ 32) i)) || bit keep i))
dist_write-bits d value keep i h =
    let word = value % 2 ^ 32 in
    let off = bit-bit_not 32 word i (mod-lt value {m = 2 ^ 32} (omega arith)) h in
    (
      bit-bit_or d.spi_enabled word i,
      bit-bit_and d.spi_enabled (bit_not 32 word) i ∙ ap (λ b. bit d.spi_enabled i && b) off,
      bit-bit_or d.spi_pending word i,
      bit-bit_or (bit_and d.spi_pending (bit_not 32 word)) keep i
          ∙ ap (λ b. b || bit keep i)
              (bit-bit_and d.spi_pending (bit_not 32 word) i
                ∙ ap (λ b. bit d.spi_pending i && b) off),
    )
