-- ===== src/Smmu/Runtime/Tests.antt =====
-- A device and a layout it accepts.
use novavisor.Base.{none, ◌≡◌, refl}
use novavisor.Smmu.Runtime.{Capabilities, RuntimeLayout, decode_capabilities}
use novavisor.Smmu.Runtime.{validate_capabilities}

abbrev device : Capabilities
device = decode_capabilities 31 20447237 21

abbrev layout : RuntimeLayout
layout = record {
  stream_table_pa = 1073741824;
  command_queue_pa = 1073745920;
  event_queue_pa = 1073750016;
  sid_bits = 5;
  command_log2 = 4;
  event_log2 = 4;
}

accepted : validate_capabilities device layout ≡ none
accepted = refl
