-- ===== src/Smp/Quiesce/Bounds.antt =====
-- Epochs and retries (src/components/core/smp/include/smp/quiesce_model.hpp).
use novavisor.Base.{ℕ, ◌+◌, ◌^◌, ◌≤◌, ◌<◌}
use novavisor.Base.{◌≡◌, ◌≢◌}
use novavisor.Base.{false, List, [], ◌∷◌}
use novavisor.Base.{arith}
use novavisor.Smp.Quiesce.{unpublished_epoch, TimeoutResult}
use novavisor.Smp.Quiesce.{QuiesceTracker, next_epoch, begun, begin}
use novavisor.Smp.Quiesce.{acknowledge, on_timeout, ignored}
use novavisor.Smp.Quiesce.{retry}
use novavisor.Smp.Quiesce.Barrier.{Event, ack, timeout, step}

epoch_moves :
    (e : ℕ)
    → e < 2 ^ 64
    → (next_epoch e ≢ e) × (next_epoch e ≢ 0) × (next_epoch e ≢ unpublished_epoch)
epoch_moves e h = ((λ x. ground (arith, x)), (λ x. ground (arith, x)), (λ x. ground (arith, x)))

stale :
    (n : ℕ) (t : QuiesceTracker) (vcpu e : ℕ) → t.epoch ≢ e → acknowledge n t vcpu e ≡ (ignored, t)
stale n t vcpu e h = ground arith

-- A new wait has an epoch of its own, neither of the reserved values, and an acknowledgement of the epoch before it is ignored and changes nothing.
pub stale_ack :
    (n : ℕ) (t : QuiesceTracker) (live vcpu : ℕ)
    → t.epoch < 2 ^ 64
    → t.active ≡ false
    → (((begin n t live).1).epoch ≢ t.epoch)
      × (((begin n t live).1).epoch ≢ 0)
      × (((begin n t live).1).epoch ≢ unpublished_epoch)
      × (acknowledge n ((begin n t live).1) vcpu t.epoch ≡ (ignored, (begin n t live).1))
stale_ack n t live vcpu h idle =
    let fresh = epoch_moves t.epoch h in
    let start : (begin n t live).1 ≡ begun n t live = ground arith in
    rw start (fresh.0, fresh.1, fresh.2, stale n (begun n t live) vcpu t.epoch fresh.0)

abbrev pub asked : TimeoutResult → ℕ
asked retry = 1
asked _ = 0

-- The resends that the timeouts among the events ask for.
abbrev pub retries_asked : ℕ → QuiesceTracker → List Event → ℕ
retries_asked n t [] = 0
retries_asked n t (ack v e ∷ es) = retries_asked n (step n t (ack v e)) es
retries_asked n t (timeout e ∷ es) =
    asked ((on_timeout t e).0) + retries_asked n (step n t (timeout e)) es

ack_keeps : (n : ℕ) (t : QuiesceTracker) (v e : ℕ) → ((acknowledge n t v e).1).retries ≡ t.retries
ack_keeps n t v e = ground arith

timeout_counts :
    (t : QuiesceTracker) (e : ℕ)
    → t.retries ≤ 3
    → (asked ((on_timeout t e).0) + t.retries ≤ ((on_timeout t e).1).retries)
      × (((on_timeout t e).1).retries ≤ 3)
timeout_counts t e h = (ground arith, ground arith)

bounded :
    (n : ℕ) (t : QuiesceTracker) (es : List Event)
    → t.retries ≤ 3
    → retries_asked n t es + t.retries ≤ 3
bounded n t [] h = omega arith
bounded n t (ack v e ∷ es) h =
    let same = ack_keeps n t v e in
    omega (arith, bounded n (step n t (ack v e)) es (omega (arith, same)), same)
bounded n t (timeout e ∷ es) h =
    let (lo, hi) = timeout_counts t e h in omega (arith, bounded n (step n t (timeout e)) es hi, lo)

-- A wait asks for at most three resends, however many timeouts it sees.
pub retries_bounded :
    (n : ℕ) (t : QuiesceTracker) (live : ℕ) (es : List Event)
    → t.active ≡ false
    → retries_asked n ((begin n t live).1) es ≤ 3
retries_bounded n t live es idle =
    let start : (begin n t live).1 ≡ begun n t live = ground arith in
    rw start (omega (arith, bounded n (begun n t live) es (omega arith)))
