-- ===== src/Vdev/Gic.antt =====
-- The emulated GICv3 distributor and redistributors:
-- src/components/vdev/vgic/include/vgic/vgic_model.hpp. Words of 32 bits are numbers below 2^32.
use novavisor.Base.{ℕ, zero, suc, ◌+◌, ◌-◌, ◌*◌, ◌/◌, ◌%◌, ◌^◌, bit_and, bit_or}
use novavisor.Base.{Bool, true, false, not, ◌&&◌, ◌||◌, List, [], ◌∷◌}
use novavisor.Base.{ltb, leb, ◌==◌, if◌then◌else◌}
use novavisor.Base.{get_or, set}
use novavisor.Base.{bit_not}
use novavisor.Base.{first}
pub mod Offsets
use Offsets.*
pub mod Enables
pub mod Frames
pub mod Targets
mod Tests

abbrev pub all_ones : ℕ
all_ones = 2 ^ 32 - 1

pub record RedistId : Type 0 where
  pub number : ℕ
  pub last : Bool

-- A shift left is a multiplication, and the numbers are vCPU indices.
abbrev pub redist_typer : RedistId → ℕ
redist_typer id =
    bit_or (bit_or (id.number * 2 ^ 32) (id.number * 2 ^ 8))
      (if id.last then gicr_typer_last else 0)

pub record RedistFrameRef : Type 0 where
  pub valid : Bool
  pub vcpu : ℕ
  pub offset : ℕ
  pub id : RedistId

abbrev no_frame : RedistFrameRef
no_frame = record { valid = false; vcpu = 0; offset = 0; id = record { number = 0; last = true } }

abbrev pub decode_redist_frame : ℕ → ℕ → RedistFrameRef
decode_redist_frame off vcpus = if leb vcpus (off / gicr_frame_size) then no_frame else record {
  valid = true;
  vcpu = off / gicr_frame_size;
  offset = off % gicr_frame_size;
  id = record { number = off / gicr_frame_size; last = (off / gicr_frame_size) == (vcpus - 1) };
}

abbrev pub sgi1r_intid : ℕ → ℕ
sgi1r_intid v = bit_and (v / 2 ^ 24) 15

-- The three affinity fields above Aff0, and the range selector.
abbrev pub sgi1r_elsewhere : ℕ
sgi1r_elsewhere =
    bit_or (bit_or (bit_or (255 * 2 ^ 48) (255 * 2 ^ 32)) (255 * 2 ^ 16)) (15 * 2 ^ 44)

-- `(1U << vcpus) - 1U`, for at most 31 vCPUs.
abbrev pub all_vcpus : ℕ → ℕ
all_vcpus vcpus = 2 ^ vcpus - 1

abbrev pub sgi1r_targets : ℕ → ℕ → ℕ → ℕ
sgi1r_targets v sender vcpus =
    if not (bit_and v (2 ^ 40) == 0)
    then bit_and (all_vcpus vcpus) (bit_not 32 (2 ^ sender))
    else if not (bit_and v sgi1r_elsewhere == 0)
    then 0
    else bit_and (bit_and v 65535) (all_vcpus vcpus)

pub record DistState : Type 0 where
  pub ctlr : ℕ
  pub spi_group : ℕ
  pub spi_enabled : ℕ
  pub spi_pending : ℕ
  pub spi_prio : List ℕ
  pub spi_route : List ℕ

abbrev pub spi_target : DistState → ℕ → ℕ → ℕ
spi_target d intid vcpus =
    let route = get_or d.spi_route (intid - num_private) 0 in if ltb route vcpus then route else 0

pub record RedistState : Type 0 where
  pub asleep : Bool
  pub igroupr0 : ℕ
  pub isenabler0 : ℕ
  pub pending : ℕ
  pub prio : List ℕ

pub record MmioRead : Type 0 where
  pub known : Bool
  pub value : ℕ

pub record WriteResult : Type 0 where
  pub known : Bool
  pub delivery : Bool

abbrev pub answered : Bool → ℕ → MmioRead
answered known value = record { known = known; value = value }

abbrev pub written : Bool → Bool → WriteResult
written known delivery = record { known = known; delivery = delivery }

-- The loops over the bytes of a priority access, from byte `i` on.
abbrev pub prio_read_from : List ℕ → ℕ → ℕ → ℕ → ℕ → ℕ
prio_read_from prio first i zero v = v
prio_read_from prio first i (suc n) v =
    prio_read_from prio first (i + 1) n (bit_or v (get_or prio (first + i) 0 * 2 ^ (8 * i)))

abbrev pub prio_read : List ℕ → ℕ → ℕ → ℕ
prio_read prio first size = prio_read_from prio first 0 size 0

abbrev pub prio_write_from : List ℕ → ℕ → ℕ → ℕ → ℕ → List ℕ
prio_write_from prio first i zero value = prio
prio_write_from prio first i (suc n) value =
    prio_write_from (set prio (first + i) (value / 2 ^ (8 * i) % 256)) first (i + 1) n value

abbrev pub prio_write : List ℕ → ℕ → ℕ → ℕ → List ℕ
prio_write prio first size value = prio_write_from prio first 0 size value

abbrev pub dist_ignored : List ℕ
dist_ignored = gicd_icfgr2 ∷ gicd_icfgr3 ∷ gicd_igrpmodr1 ∷ gicd_isactiver1 ∷ gicd_icactiver1 ∷ []

abbrev pub redist_ignored : List ℕ
redist_ignored = gicr_icfgr0 ∷ gicr_icfgr1 ∷ gicr_igrpmodr0 ∷ gicr_isactiver0 ∷ gicr_icactiver0 ∷ []

abbrev pub is_ignored : List ℕ → ℕ → Bool
is_ignored [] off = false
is_ignored (candidate ∷ offsets) off = if candidate == off then true else is_ignored offsets off

abbrev pub dist_prio : ℕ → ℕ → Bool
dist_prio off size = leb gicd_ipriorityr_spi off && leb ((off + size) % 2 ^ 64) gicd_ipriorityr_end

abbrev pub dist_route : ℕ → Bool
dist_route off = leb gicd_irouter_spi off && ltb off gicd_irouter_end

abbrev pub dist_read : DistState → ℕ → ℕ → MmioRead
dist_read d off size =
    if dist_prio off size
    then answered true (prio_read d.spi_prio (off - gicd_ipriorityr_spi) size)
    else if dist_route off
    then answered true
        (if (off % 8) == 0 then get_or d.spi_route ((off - gicd_irouter_spi) / 8) 0 else 0)
    else if off == gicd_ctlr
    then answered true (bit_or d.ctlr gicd_ctlr_ds)
    else if off == gicd_typer
    then answered true gicd_typer_value
    else if off == gicd_typer2
    then answered true 0
    else if off == gicd_iidr
    then answered true gic_iidr_value
    else if off == gicd_pidr2
    then answered true pidr2_gic_v3
    else if off == gicd_igroupr1
    then answered true d.spi_group
    else if (off == gicd_isenabler1) || (off == gicd_icenabler1)
    then answered true d.spi_enabled
    else if (off == gicd_ispendr1) || (off == gicd_icpendr1)
    then answered true d.spi_pending
    else if is_ignored dist_ignored off
    then answered true 0
    else answered false 0

abbrev pub dist_write : DistState → ℕ → ℕ → ℕ → ℕ → WriteResult × DistState
dist_write d off size value keep_pending =
    let word = value % 2 ^ 32 in
    if dist_prio off size
    then (
      written true false,
      record d { spi_prio = prio_write d.spi_prio (off - gicd_ipriorityr_spi) size value },
    )
    else if dist_route off
    then (if (off % 8) == 0
        then (
          written true true,
          record d { spi_route = set d.spi_route ((off - gicd_irouter_spi) / 8) (value % 256) },
        )
        else (written true false, d))
    else if off == gicd_ctlr
    then (written true false, record d { ctlr = word })
    else if off == gicd_igroupr1
    then (written true false, record d { spi_group = word })
    else if off == gicd_isenabler1
    then (written true true, record d { spi_enabled = bit_or d.spi_enabled word })
    else if off == gicd_icenabler1
    then (written true true, record d { spi_enabled = bit_and d.spi_enabled (bit_not 32 word) })
    else if off == gicd_ispendr1
    then (written true true, record d { spi_pending = bit_or d.spi_pending word })
    else if off == gicd_icpendr1
    then (
      written true true,
      record d { spi_pending = bit_or (bit_and d.spi_pending (bit_not 32 word)) keep_pending },
    )
    else if is_ignored dist_ignored off
    then (written true false, d)
    else (written false false, d)

abbrev pub redist_prio : ℕ → ℕ → Bool
redist_prio off size = leb gicr_ipriorityr off && leb ((off + size) % 2 ^ 64) gicr_ipriority_end

abbrev pub redist_read : RedistState → ℕ → ℕ → RedistId → MmioRead
redist_read r off size id =
    if redist_prio off size
    then answered true (prio_read r.prio (off - gicr_ipriorityr) size)
    else if off == gicr_ctlr
    then answered true 0
    else if off == gicr_iidr
    then answered true gic_iidr_value
    else if off == gicr_typer
    then answered true (redist_typer id)
    else if off == gicr_typer_hi
    then answered true (redist_typer id / 2 ^ 32)
    else if off == gicr_waker
    then answered true (if r.asleep then bit_or waker_processor_sleep waker_children_asleep else 0)
    else if off == gicr_pidr2
    then answered true pidr2_gic_v3
    else if off == gicr_igroupr0
    then answered true r.igroupr0
    else if (off == gicr_isenabler0) || (off == gicr_icenabler0)
    then answered true r.isenabler0
    else if (off == gicr_ispendr0) || (off == gicr_icpendr0)
    then answered true r.pending
    else if is_ignored redist_ignored off
    then answered true 0
    else answered false 0

abbrev pub redist_write : RedistState → ℕ → ℕ → ℕ → WriteResult × RedistState
redist_write r off size value =
    let word = value % 2 ^ 32 in
    if redist_prio off size
    then (
      written true false,
      record r { prio = prio_write r.prio (off - gicr_ipriorityr) size value },
    )
    else if off == gicr_ctlr
    then (written true false, r)
    else if off == gicr_waker
    then (written true false, record r { asleep = not (bit_and word waker_processor_sleep == 0) })
    else if off == gicr_igroupr0
    then (written true false, record r { igroupr0 = word })
    else if off == gicr_isenabler0
    then (written true true, record r { isenabler0 = bit_or r.isenabler0 word })
    else if off == gicr_icenabler0
    then (written true true, record r { isenabler0 = bit_and r.isenabler0 (bit_not 32 word) })
    else if off == gicr_ispendr0
    then (written true true, record r { pending = bit_or r.pending word })
    else if off == gicr_icpendr0
    then (written true true, record r { pending = bit_and r.pending (bit_not 32 word) })
    else if is_ignored redist_ignored off
    then (written true false, r)
    else (written false false, r)
