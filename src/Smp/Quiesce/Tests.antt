-- ===== src/Smp/Quiesce/Tests.antt =====
-- A barrier of three vCPUs, two of them live.
use novavisor.Base.{ℕ, ◌<◌}
use novavisor.Base.{◌≡◌, refl, ◌↔◌}
use novavisor.Base.{true, false, List, [], ◌∷◌}
use novavisor.Base.{arith}
use novavisor.Base.{bit}
use novavisor.Smp.Quiesce.{QuiesceTracker, begin}
use novavisor.Smp.Quiesce.{ready}
use novavisor.Smp.Quiesce.Barrier.{Event, ack, timeout, run, acked, ready_iff_acked}

abbrev idle : QuiesceTracker
idle = record { epoch = 0; pending_mask = 0; retries = 0; active = false }

abbrev events : List Event
events = ack 0 1 ∷ ack 2 0 ∷ timeout 1 ∷ ack 2 1 ∷ []

ready_iff_acked_example :
    (ready (run 3 ((begin 3 idle 5).1) events) ≡ true)
    ↔ ((i : ℕ) → i < 3 → bit 5 i ≡ true → acked i 1 events ≡ true)
ready_iff_acked_example =
    ready_iff_acked 3 idle 5 events (omega arith) (omega arith) (omega arith) refl

restored : ready (run 3 ((begin 3 idle 5).1) events) ≡ true
restored = refl

too_early : ready (run 3 ((begin 3 idle 5).1) (ack 0 1 ∷ ack 2 0 ∷ [])) ≡ false
too_early = refl
