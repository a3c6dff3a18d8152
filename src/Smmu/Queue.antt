-- ===== src/Smmu/Queue.antt =====
-- The producer and consumer pointers of the command and event queues:
-- src/components/device/smmu/include/smmu/queue_model.hpp.
use novavisor.Base.{ℕ, ◌+◌, ◌-◌, ◌*◌, ◌%◌, ◌^◌, bit_and, bit_or}
use novavisor.Base.{Bool, true, false, not, ◌&&◌, ◌||◌}
use novavisor.Base.{leb, ◌==◌, if◌then◌else◌}
use novavisor.Base.{bit_not}
use Prim.Native.Nat.{bit_xor}
pub mod Counter
pub mod Spec
pub mod Views
pub mod Refine
mod Tests
pub mod Overflow

abbrev pub max_queue_log2_entries : ℕ
max_queue_log2_entries = 19

abbrev pub event_queue_overflow : ℕ
event_queue_overflow = 2 ^ 31

pub record QueueState : Type 0 where
  pub log2_entries : ℕ
  pub producer : ℕ
  pub consumer : ℕ

abbrev pub valid : QueueState → Bool
valid q = leb (q.log2_entries) max_queue_log2_entries

abbrev pub capacity : QueueState → ℕ
capacity q = if valid q then 2 ^ q.log2_entries else 0

abbrev pub index_mask : QueueState → ℕ
index_mask q = if valid q then capacity q - 1 else 0

abbrev pub wrap_mask : QueueState → ℕ
wrap_mask q = if valid q then capacity q else 0

abbrev pub pointer_mask : QueueState → ℕ
pointer_mask q = if valid q then wrap_mask q * 2 - 1 else 0

abbrev pub producer_index : QueueState → ℕ
producer_index q = bit_and (q.producer) (index_mask q)

abbrev pub consumer_index : QueueState → ℕ
consumer_index q = bit_and (q.consumer) (index_mask q)

-- The difference of two 32-bit words wraps.
abbrev pub used : QueueState → ℕ
used q =
    if valid q then bit_and ((q.producer + (2 ^ 32 - q.consumer)) % 2 ^ 32) (pointer_mask q) else 0

abbrev pub consistent : QueueState → Bool
consistent q = valid q && leb (used q) (capacity q)

abbrev pub empty : QueueState → Bool
empty q = consistent q && (used q == 0)

abbrev pub full : QueueState → Bool
full q = consistent q && (used q == capacity q)

unfoldable pub advance : QueueState → ℕ → ℕ
advance q value =
    bit_or (bit_and value (bit_not 32 (pointer_mask q)))
      (bit_and ((value + 1) % 2 ^ 32) (pointer_mask q))

-- The queue afterwards, and the result.
unfoldable pub try_produce : QueueState → Bool × QueueState
try_produce q =
    if not (consistent q) || full q
    then (false, q)
    else (true, record q { producer = advance q (q.producer) })

unfoldable pub try_consume : QueueState → Bool × QueueState
try_consume q =
    if not (consistent q) || empty q
    then (false, q)
    else (true, record q { consumer = advance q (q.consumer) })

unfoldable pub event_overflow_pending : QueueState → Bool
event_overflow_pending q =
    not (bit_and (bit_xor (q.producer) (q.consumer)) event_queue_overflow == 0)

unfoldable pub mark_event_overflow : QueueState → QueueState
mark_event_overflow q =
    if not (event_overflow_pending q)
    then record q { producer = bit_xor (q.producer) event_queue_overflow }
    else q

unfoldable pub acknowledge_event_overflow : QueueState → QueueState
acknowledge_event_overflow q = record q {
  consumer =
      bit_or (bit_and (q.consumer) (bit_not 32 event_queue_overflow))
        (bit_and (q.producer) event_queue_overflow);
}

unfoldable pub try_record_event : QueueState → Bool × QueueState
try_record_event q =
    if not (consistent q)
    then (false, q)
    else if full q
    then (false, mark_event_overflow q)
    else try_produce q
