-- ===== src/Vdev/Delivery.antt =====
-- The delivery of virtual interrupts through the list registers:
-- src/components/vdev/vgic/include/vgic/vgic_delivery.hpp. A list register is a number below 2^64.
-- Interrupt identifiers are below 64, and `1 << i` is `2 ^ i`.
use novavisor.Base.{ℕ, zero, suc, ◌+◌, ◌-◌, ◌*◌, ◌/◌, ◌%◌, ◌^◌, bit_and, bit_or}
use novavisor.Base.{Bool, true, false, not, ◌&&◌, Option, none, some, List, [], ◌∷◌, ◌++◌}
use novavisor.Base.{ltb, leb, ◌==◌, if◌then◌else◌}
use novavisor.Base.{length, get_or, set}
use novavisor.Base.{bit_not}
use novavisor.Vdev.Gic.{DistState, RedistState, spi_target}
use novavisor.Vdev.Gic.Offsets.{num_private, max_intid, num_spis}
pub mod Lrs
pub mod Selection
pub mod Scan
pub mod Refill
pub mod Wanted
pub mod Eoi
pub mod Tests

abbrev pub max_lrs : ℕ
max_lrs = 16

abbrev pub lr_state_mask : ℕ
lr_state_mask = 13835058055282163712

abbrev pub lr_state_pending : ℕ
lr_state_pending = 4611686018427387904

abbrev pub lr_group1 : ℕ
lr_group1 = 1152921504606846976

abbrev pub lr_priority_shift : ℕ
lr_priority_shift = 48

abbrev pub lr_eoi : ℕ
lr_eoi = 2199023255552

abbrev pub lr_vintid_mask : ℕ
lr_vintid_mask = 4294967295

unfoldable pub make_lr : ℕ → ℕ → Bool → ℕ
make_lr vintid priority maintenance_eoi =
    bit_or
      (bit_or (bit_or (bit_or lr_state_pending lr_group1) (priority * 2 ^ lr_priority_shift))
        (if maintenance_eoi then lr_eoi else 0))
      vintid

unfoldable pub lr_in_flight : ℕ → Bool
lr_in_flight lr = not (bit_and lr lr_state_mask == 0)

unfoldable pub lr_vintid : ℕ → ℕ
lr_vintid lr = bit_and lr lr_vintid_mask

pub record EoiToken : Type 0 where
  pub virtual_intid : ℕ
  pub physical_intid : ℕ
  pub generation : ℕ

abbrev pub valid : EoiToken → Bool
valid t = not (t.generation == 0)

abbrev pub no_token : EoiToken
no_token = record { virtual_intid = 0; physical_intid = 0; generation = 0 }

-- Without the field `synced_at`, which only the observers read.
pub record CpuState : Type 0 where
  pub redist : RedistState
  pub lr : List ℕ
  pub lr_token : List EoiToken

abbrev pub take_eoi_token : CpuState → ℕ → CpuState × EoiToken
take_eoi_token cpu slot = if leb (length cpu.lr_token) slot then (cpu, no_token) else (
  record cpu { lr_token = set cpu.lr_token slot no_token },
  get_or cpu.lr_token slot no_token,
)

-- The loop from SPI `i` on.
pub token_mask_from : ℕ → List EoiToken → ℕ → ℕ
token_mask_from i [] mask = mask
token_mask_from i (t ∷ ts) mask =
    token_mask_from (i + 1) ts (bit_or mask ((if valid t then 1 else 0) * 2 ^ i))

unfoldable pub pending_token_mask : List EoiToken → ℕ
unfolding token_mask_from
pending_token_mask spi_tokens = token_mask_from 0 spi_tokens 0

pub record EoiHarvest : Type 0 where
  pub tokens : List EoiToken
  pub cleared : ℕ

-- One round of the loop: the slot's token is emitted if it is live, and the slot is emptied.
abbrev pub harvest_slot : ℕ → CpuState × EoiHarvest → CpuState × EoiHarvest
harvest_slot i s =
    let taken = take_eoi_token ((s).0) i in
    (
      record (taken).0 { lr = set ((s).0).lr i 0 },
      record {
        tokens = if valid ((taken).1) then ((s).1).tokens ++ ((taken).1 ∷ []) else ((s).1).tokens;
        cleared = bit_or ((s).1).cleared (2 ^ i);
      },
    )

abbrev pub harvest_round : ℕ → ℕ → CpuState × EoiHarvest → CpuState × EoiHarvest
harvest_round eisr i s =
    if ltb i (length ((s).0).lr)
    then (if bit_and eisr (2 ^ i) == 0 then s else harvest_slot i s)
    else s

-- `n` rounds from slot `i` on.
pub harvest_from : ℕ → ℕ → ℕ → CpuState × EoiHarvest → CpuState × EoiHarvest
harvest_from eisr i zero s = s
harvest_from eisr i (suc n) s = harvest_from eisr (i + 1) n (harvest_round eisr i s)

unfoldable pub harvest_eois : CpuState → ℕ → ℕ → CpuState × EoiHarvest
unfolding harvest_from
harvest_eois cpu eisr lr_count =
    harvest_from eisr 0 lr_count (cpu, record { tokens = []; cleared = 0 })

abbrev pub deliverable : RedistState → ℕ
deliverable r = bit_and r.pending r.isenabler0

pub routed_from : DistState → ℕ → ℕ → ℕ → ℕ → ℕ → ℕ
routed_from d vcpu vcpus i zero routed = routed
routed_from d vcpu vcpus i (suc n) routed =
    routed_from d vcpu vcpus (i + 1) n
      (bit_or routed ((if spi_target d (num_private + i) vcpus == vcpu then 1 else 0) * 2 ^ i))

unfoldable pub spi_deliverable : DistState → ℕ → ℕ → ℕ
unfolding routed_from
spi_deliverable d vcpu vcpus =
    bit_and (bit_and d.spi_pending d.spi_enabled) (routed_from d vcpu vcpus 0 num_spis 0)

-- The interrupts that the list registers from slot `i` on hold.
pub inflight_from : List ℕ → ℕ → ℕ → ℕ → ℕ
inflight_from lrs i zero inflight = inflight
inflight_from lrs i (suc n) inflight =
    let lr = get_or lrs i 0 in
    inflight_from lrs (i + 1) n (
      if lr_in_flight lr && ltb (lr_vintid lr) max_intid
      then bit_or inflight (2 ^ lr_vintid lr)
      else inflight)

-- The second loop: maintenance on the register that holds back a pending interrupt.
pub arm_from : ℕ → ℕ → ℕ → List ℕ → List ℕ
arm_from wanted i zero lrs = lrs
arm_from wanted i (suc n) lrs =
    let lr = get_or lrs i 0 in
    arm_from wanted (i + 1) n (
      if lr_in_flight lr
        && ltb (lr_vintid lr) max_intid
        && not (bit_and wanted (2 ^ lr_vintid lr) == 0)
      then set lrs i (bit_or lr lr_eoi)
      else lrs)

-- `std::countr_zero` of a number that is not 0, with its bits as fuel.
pub countr_zero : ℕ → ℕ → ℕ
countr_zero zero x = 0
countr_zero (suc fuel) x = let rest = countr_zero fuel (x / 2) in if x % 2 == 1 then 0 else suc rest

abbrev pub priority_limit : ℕ
priority_limit = 256

-- The state of one virtual CPU with its VM's distributor and SPI tokens.
pub record Bank : Type 0 where
  pub cpu : CpuState
  pub dist : DistState
  pub spi_tokens : List EoiToken

abbrev pub priority_of : Bank → ℕ → ℕ
priority_of b id =
    if leb num_private id
    then get_or b.dist.spi_prio (id - num_private) 0
    else get_or b.cpu.redist.prio id 0

-- The inner loop: over the set bits from the lowest up.
pub best_from : Bank → ℕ → ℕ → ℕ → ℕ → ℕ × ℕ
best_from b zero bits best best_prio = (best, best_prio)
best_from b (suc fuel) bits best best_prio =
    let id = countr_zero 64 bits in
    let better = ltb (priority_of b id) best_prio in
    let rest =
      best_from b fuel (bit_and bits (bits - 1)) (if better then id else best)
        (if better then priority_of b id else best_prio) in
    if bits == 0 then (best, best_prio) else rest

-- The first free list register from slot `i` on, or `i + n`.
pub free_from : List ℕ → ℕ → ℕ → ℕ
free_from lrs i zero = i
free_from lrs i (suc n) =
    let rest = free_from lrs (i + 1) n in if lr_in_flight (get_or lrs i 0) then rest else i

-- What the loop does with the best candidate and a free slot.
abbrev pub clear_pending : Bank → ℕ → Bank
clear_pending b best =
    if ltb best num_private
    then record b {
      cpu = record b.cpu {
        redist = record b.cpu.redist {
          pending = bit_and b.cpu.redist.pending (bit_not 32 (2 ^ best));
        };
      };
    }
    else record b {
      dist = record b.dist {
        spi_pending = bit_and b.dist.spi_pending (bit_not 32 (2 ^ (best - num_private)));
      };
    }

pub inject : Bank → ℕ → ℕ → ℕ → Bank
inject b best best_prio slot =
    let spi = leb num_private best in
    let token = if spi then get_or b.spi_tokens (best - num_private) no_token else no_token in
    let b' = clear_pending b best in
    record b' {
      cpu = record b'.cpu {
        lr = set b.cpu.lr slot (make_lr best best_prio (valid token));
        lr_token = set b.cpu.lr_token slot token;
      };
      spi_tokens = if spi then set b.spi_tokens (best - num_private) no_token else b.spi_tokens;
    }

-- The outer loop; the answer is `none` if the fuel ran out.
pub refill_loop : ℕ → ℕ → ℕ → Bank → Bank × Option Bool
refill_loop zero lr_count candidates b = (b, none)
refill_loop (suc fuel) lr_count candidates b =
    let (best, best_prio) = best_from b 64 candidates max_intid priority_limit in
    let slot = free_from b.cpu.lr 0 lr_count in
    let rest =
      refill_loop fuel lr_count (bit_and candidates (bit_not 64 (2 ^ best)))
        (inject b best best_prio slot) in
    if best == max_intid then (b, some false) else if slot == lr_count then (b, some true) else rest

-- `static_cast<uint64_t>(spis) << 32 | priv`
abbrev pub wanted : Bank → ℕ → ℕ → ℕ
wanted b vcpu vcpus =
    bit_or (spi_deliverable b.dist vcpu vcpus * 2 ^ num_private) (deliverable b.cpu.redist)

-- With a distributor and its tokens, as the one caller passes them. Every round fills a list
-- register, so one more round than there are registers is enough.
unfoldable pub refill : Bank → ℕ → ℕ → ℕ → Bank × Option Bool
unfolding inflight_from arm_from refill_loop
refill b lr_count vcpu vcpus =
    let inflight = inflight_from b.cpu.lr 0 lr_count 0 in
    let want = wanted b vcpu vcpus in
    let armed =
      if bit_and want inflight == 0 then b.cpu.lr else arm_from want 0 lr_count b.cpu.lr in
    refill_loop (suc lr_count) lr_count (bit_and want (bit_not 64 inflight))
      (record b { cpu = record b.cpu { lr = armed } })
