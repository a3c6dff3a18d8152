-- ===== src/Vdev/Gic/Tests.antt =====
-- Accesses of a VM with two vCPUs.
use novavisor.Base.{◌+◌, ◌^◌, bit_and}
use novavisor.Base.{◌≡◌, refl}
use novavisor.Base.{not, ◌&&◌}
use novavisor.Base.{arith}
use novavisor.Base.{ltb, ◌==◌, if◌then◌else◌}
use novavisor.Base.{replicate}
use novavisor.Base.{bit}
use novavisor.Vdev.Gic.{all_ones}
use novavisor.Vdev.Gic.{sgi1r_elsewhere, sgi1r_targets, DistState}
use novavisor.Vdev.Gic.Targets.{sgi1r_targets-bit}

abbrev distributor : DistState
distributor = record {
  ctlr = 0;
  spi_group = all_ones;
  spi_enabled = 5;
  spi_pending = 7;
  spi_prio = replicate 32 0;
  spi_route = replicate 32 0;
}

to_sibling : sgi1r_targets 50331650 0 2 ≡ 2
to_sibling = refl

everybody_else : sgi1r_targets (2 ^ 40 + 65535) 0 2 ≡ 2
everybody_else = refl

sgi1r_targets-bit_example : bit (sgi1r_targets 50331650 0 2) 1 ≡ (
    ltb 1 2
    && (if bit 50331650 40
        then not (0 == 1)
        else ((bit_and 50331650 sgi1r_elsewhere == 0) && ltb 1 16 && bit 50331650 1)))
sgi1r_targets-bit_example =
    sgi1r_targets-bit 50331650 0 2 1 (omega arith) (omega arith) (omega arith)
