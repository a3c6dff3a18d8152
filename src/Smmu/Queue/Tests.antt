-- ===== src/Smmu/Queue/Tests.antt =====
-- The event queue of two entries, on both sides of the wrap.
use novavisor.Base.{◌≡◌, refl}
use novavisor.Base.{Bool, true, false, List, [], ◌∷◌}
use novavisor.Base.{arith}
use novavisor.Smmu.Queue.{QueueState}
use novavisor.Smmu.Queue.{advance, try_produce}
use novavisor.Smmu.Queue.{try_consume, event_overflow_pending, mark_event_overflow}
use novavisor.Smmu.Queue.{acknowledge_event_overflow, try_record_event}
use novavisor.Smmu.Queue.Spec.{Op, step, view, IsQueue, run, count_all}
use novavisor.Smmu.Queue.Spec.{consume, record_event, acknowledge}
use novavisor.Smmu.Queue.Refine.{run_counts}

-- One entry used, and the next production wraps the pointer round.
abbrev two_entries : QueueState
two_entries = record { log2_entries = 1; producer = 3; consumer = 2 }

abbrev overrun : List Op
overrun = record_event ∷ record_event ∷ consume ∷ acknowledge ∷ consume ∷ consume ∷ []

two_entries-IsQueue : IsQueue two_entries
two_entries-IsQueue = record {
  sized = refl;
  produced = omega arith;
  consumed = omega arith;
  held_fits = omega arith;
}

abbrev answers : List Bool
answers = true ∷ false ∷ true ∷ true ∷ true ∷ false ∷ []

overrun-answers : (run overrun two_entries).0 ≡ answers
unfolding run step try_produce try_consume try_record_event mark_event_overflow
    acknowledge_event_overflow advance event_overflow_pending
overrun-answers = refl

run_counts_example :
    ((run overrun two_entries).0 ≡ (count_all 2 overrun (view two_entries)).0)
    × (view ((run overrun two_entries).1) ≡ (count_all 2 overrun (view two_entries)).1)
    × IsQueue ((run overrun two_entries).1)
run_counts_example = run_counts overrun two_entries two_entries-IsQueue
