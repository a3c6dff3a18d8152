-- ===== src/Smmu/Runtime.antt =====
-- What the driver asks of the SMMU before it uses it:
-- src/components/device/smmu/include/smmu/runtime_model.hpp, with the fields of
-- src/nova/arch/smmuv3/regs.hpp.
use novavisor.Base.{ℕ, ◌+◌, ◌-◌, ◌/◌, ◌^◌, bit_and, bit_or}
use novavisor.Base.{Bool, not, ◌||◌, Option, none, some}
use novavisor.Base.{ltb, leb, ◌==◌, if◌then◌else◌}
use novavisor.Base.{bit_not}
pub mod Accepted
mod Tests

-- `kPhysicalMask`.
abbrev pub physical_mask : ℕ
physical_mask = 2 ^ 52 - 1

pub record Capabilities : Type 0 where
  pub stage2 : Bool
  pub aarch64_tables : Bool
  pub coherent_access : Bool
  pub vmid16 : Bool
  pub queues_preset : Bool
  pub tables_preset : Bool
  pub granule4k : Bool
  pub sid_bits : ℕ
  pub cmdq_max_log2 : ℕ
  pub eventq_max_log2 : ℕ
  pub output_size : ℕ

-- `kNone` is the absence of an error.
pub data RuntimeError : Type 0 where
  missing_stage2 : RuntimeError
  missing_aarch64 : RuntimeError
  non_coherent : RuntimeError
  preset_structures : RuntimeError
  missing_granule4k : RuntimeError
  insufficient_output_size : RuntimeError
  insufficient_sid_bits : RuntimeError
  insufficient_queues : RuntimeError
  invalid_address : RuntimeError
  invalid_alignment : RuntimeError

pub record RuntimeLayout : Type 0 where
  pub stream_table_pa : ℕ
  pub command_queue_pa : ℕ
  pub event_queue_pa : ℕ
  pub sid_bits : ℕ
  pub command_log2 : ℕ
  pub event_log2 : ℕ

abbrev field_set : ℕ → ℕ → Bool
field_set idr mask = not (bit_and idr mask == 0)

abbrev pub decode_capabilities : ℕ → ℕ → ℕ → Capabilities
decode_capabilities idr0 idr1 idr5 = record {
  stage2 = field_set idr0 1;
  aarch64_tables = leb 8 (bit_and idr0 12);
  coherent_access = field_set idr0 16;
  vmid16 = field_set idr0 262144;
  queues_preset = field_set idr1 536870912;
  tables_preset = field_set idr1 1073741824;
  granule4k = field_set idr5 16;
  sid_bits = bit_and idr1 63;
  cmdq_max_log2 = bit_and (idr1 / 2 ^ 21) 31;
  eventq_max_log2 = bit_and (idr1 / 2 ^ 16) 31;
  output_size = bit_and idr5 7;
}

abbrev pub outside : ℕ → Bool
outside pa = not (bit_and pa (bit_not 64 physical_mask) == 0)

abbrev pub unaligned : ℕ → ℕ → Bool
unaligned pa log2 = not (bit_and pa (2 ^ log2 - 1) == 0)

abbrev pub bad_addresses : RuntimeLayout → Bool
bad_addresses l =
    outside l.stream_table_pa || outside l.command_queue_pa || outside l.event_queue_pa

abbrev pub bad_alignment : RuntimeLayout → Bool
bad_alignment l =
    unaligned l.stream_table_pa (l.sid_bits + 6)
    || unaligned l.command_queue_pa (l.command_log2 + 4)
    || unaligned l.event_queue_pa (l.event_log2 + 5)

abbrev pub short_queues : Capabilities → RuntimeLayout → Bool
short_queues caps l =
    (l.command_log2 == 0)
    || (l.event_log2 == 0)
    || ltb caps.cmdq_max_log2 l.command_log2
    || ltb caps.eventq_max_log2 l.event_log2

abbrev pub short_sids : Capabilities → RuntimeLayout → Bool
short_sids caps l = (l.sid_bits == 0) || leb 32 l.sid_bits || ltb caps.sid_bits l.sid_bits

abbrev pub validate_capabilities : Capabilities → RuntimeLayout → Option RuntimeError
validate_capabilities caps l =
    if not caps.stage2
    then some missing_stage2
    else if not caps.aarch64_tables
    then some missing_aarch64
    else if not caps.coherent_access
    then some non_coherent
    else if caps.queues_preset || caps.tables_preset
    then some preset_structures
    else if not caps.granule4k
    then some missing_granule4k
    else if ltb caps.output_size 2
    then some insufficient_output_size
    else if short_sids caps l
    then some insufficient_sid_bits
    else if short_queues caps l
    then some insufficient_queues
    else if bad_addresses l
    then some invalid_address
    else if bad_alignment l
    then some invalid_alignment
    else none

abbrev pub stream_table_base : ℕ → ℕ
stream_table_base pa = bit_or (bit_and pa 4503599627370432) (2 ^ 62)

abbrev pub queue_base : ℕ → ℕ → ℕ
queue_base pa log2_entries = bit_or (bit_or (bit_and pa 4503599627370464) (2 ^ 62)) log2_entries
