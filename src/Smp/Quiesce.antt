-- ===== src/Smp/Quiesce.antt =====
-- The quiesce barrier of a reset: `QuiesceTracker` of
-- src/components/core/smp/include/smp/quiesce_model.hpp. `n` is `MaxVcpus`.
use novavisor.Base.{ℕ, ◌+◌, ◌-◌, ◌%◌, ◌^◌, bit_and}
use novavisor.Base.{Bool, true, false, not, ◌&&◌, ◌||◌}
use novavisor.Base.{leb, ◌==◌, if◌then◌else◌}
use novavisor.Base.{bit_not}
pub mod Barrier
pub mod Bounds
mod Tests

-- `kMaxQuiesceRetries`, `kUnpublishedEpoch`.
abbrev pub max_quiesce_retries : ℕ
max_quiesce_retries = 3

abbrev pub unpublished_epoch : ℕ
unpublished_epoch = 2 ^ 64 - 1

pub data AckResult : Type 0 where
  ignored : AckResult
  pending : AckResult
  all_ready : AckResult

pub data TimeoutResult : Type 0 where
  timeout_ignored : TimeoutResult
  retry : TimeoutResult
  failed : TimeoutResult

pub record QuiescePlan : Type 0 where
  pub accepted : Bool
  pub epoch : ℕ
  pub pending_mask : ℕ

pub record QuiesceTracker : Type 0 where
  pub epoch : ℕ
  pub pending_mask : ℕ
  pub retries : ℕ
  pub active : Bool

abbrev pub allowed_mask : ℕ → ℕ
allowed_mask n = if n == 32 then 2 ^ 32 - 1 else 2 ^ n - 1

-- The epoch after `++epoch_` and the skip of the two reserved values.
abbrev pub next_epoch : ℕ → ℕ
next_epoch epoch =
    let e = (epoch + 1) % 2 ^ 64 in if (e == 0) || (e == unpublished_epoch) then 1 else e

abbrev pub begun : ℕ → QuiesceTracker → ℕ → QuiesceTracker
begun n t live = record {
  epoch = next_epoch t.epoch;
  pending_mask = bit_and live (allowed_mask n);
  retries = 0;
  active = true;
}

abbrev pub begin : ℕ → QuiesceTracker → ℕ → QuiescePlan × QuiesceTracker
begin n t live =
    if t.active then (record { accepted = false; epoch = 0; pending_mask = 0 }, t) else (
      record {
        accepted = true;
        epoch = next_epoch t.epoch;
        pending_mask = bit_and live (allowed_mask n);
      },
      begun n t live,
    )

-- The tracker with the vCPU's bit cleared.
abbrev pub cleared : QuiesceTracker → ℕ → QuiesceTracker
cleared t vcpu = record t { pending_mask = bit_and t.pending_mask (bit_not 32 (2 ^ vcpu)) }

abbrev pub acknowledge : ℕ → QuiesceTracker → ℕ → ℕ → AckResult × QuiesceTracker
acknowledge n t vcpu epoch =
    if not t.active || not (epoch == t.epoch) || leb n vcpu
    then (ignored, t)
    else if bit_and t.pending_mask (2 ^ vcpu) == 0
    then (ignored, t)
    else ((if (cleared t vcpu).pending_mask == 0 then all_ready else pending), cleared t vcpu)

abbrev pub ready : QuiesceTracker → Bool
ready t = t.active && (t.pending_mask == 0)

abbrev pub on_timeout : QuiesceTracker → ℕ → TimeoutResult × QuiesceTracker
on_timeout t epoch =
    if not t.active || not (epoch == t.epoch) || ready t
    then (timeout_ignored, t)
    else if leb max_quiesce_retries t.retries
    then (failed, t)
    else (retry, record t { retries = t.retries + 1 })

abbrev pub finish : QuiesceTracker → Bool × QuiesceTracker
finish t = if not (ready t) then (false, t) else (true, record t { active = false })

abbrev pub cancel : QuiesceTracker → QuiesceTracker
cancel t = record t { active = false; pending_mask = 0; retries = 0 }
