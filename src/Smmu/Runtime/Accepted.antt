-- ===== src/Smmu/Runtime/Accepted.antt =====
-- The layouts the driver accepts (src/components/device/smmu/include/smmu/runtime_model.hpp).
use novavisor.Base.{ℕ, ◌+◌, ◌%◌, ◌^◌, ◌≤◌}
use novavisor.Base.{◌≡◌, sym, ◌∙◌}
use novavisor.Base.{true, false, none}
use novavisor.Base.{arith}
use novavisor.Base.{bit_and-ones}
use novavisor.Smmu.Runtime.{Capabilities, RuntimeLayout}
use novavisor.Smmu.Runtime.{unaligned, bad_alignment}
use novavisor.Smmu.Runtime.{short_queues, short_sids, validate_capabilities}

aligned : (pa k : ℕ) → unaligned pa k ≡ false → pa % 2 ^ k ≡ 0
aligned pa k h = sym (bit_and-ones k pa) ∙ ground arith

-- An accepted layout lies on the alignment of its sizes, in a device whose tables and queues are large enough for it.
pub accepted-aligned :
    (caps : Capabilities) (l : RuntimeLayout)
    → validate_capabilities caps l ≡ none
    → (l.stream_table_pa % 2 ^ (l.sid_bits + 6) ≡ 0)
      × (l.command_queue_pa % 2 ^ (l.command_log2 + 4) ≡ 0)
      × (l.event_queue_pa % 2 ^ (l.event_log2 + 5) ≡ 0)
      × (l.sid_bits ≤ caps.sid_bits)
      × (l.command_log2 ≤ caps.cmdq_max_log2)
      × (l.event_log2 ≤ caps.eventq_max_log2)
      × (caps.stage2 ≡ true)
accepted-aligned caps l ok =
    let fits : (short_sids caps l ≡ false)
        × (short_queues caps l ≡ false)
        × (bad_alignment l ≡ false)
        × (caps.stage2 ≡ true) =
      (ground arith, ground arith, ground arith, ground arith) in
    let flat = fits.2 in
    (
      aligned l.stream_table_pa (l.sid_bits + 6) (ground arith),
      aligned l.command_queue_pa (l.command_log2 + 4) (ground arith),
      aligned l.event_queue_pa (l.event_log2 + 5) (ground arith),
      ground (arith, fits.0),
      ground (arith, fits.1),
      ground (arith, fits.1),
      fits.3,
    )
