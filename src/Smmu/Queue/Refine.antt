-- ===== src/Smmu/Queue/Refine.antt =====
-- The queue pointers refine the bounded counter.
use novavisor.Base.{◌^◌}
use novavisor.Base.{◌≡◌, refl, ap, ◌∙◌}
use novavisor.Base.{true, false, List, [], ◌∷◌}
use novavisor.Base.{arith, dec_lt}
use novavisor.Base.{ltb, ◌==◌, lt→ltb}
use novavisor.Smmu.Queue.{QueueState}
use novavisor.Smmu.Queue.{capacity}
use novavisor.Smmu.Queue.{used, try_produce}
use novavisor.Smmu.Queue.{try_consume}
use novavisor.Smmu.Queue.{try_record_event}
use novavisor.Smmu.Queue.Spec.{Op, step, count, view, IsQueue, run, count_all, produce}
use novavisor.Smmu.Queue.Spec.{consume, record_event, acknowledge}
use novavisor.Smmu.Queue.Views.{capacity-pow, IsQueue-consistent, Matches}
use novavisor.Smmu.Queue.Views.{produced_view, consumed_view, marked_view}
use novavisor.Smmu.Queue.Views.{acknowledged_view}

produce_counts :
    (q : QueueState)
    → IsQueue q
    → Matches q (try_produce q) (count (2 ^ q.log2_entries) produce (view q))
unfolding try_produce count
produce_counts q w = elim (dec_lt (used q) (2 ^ q.log2_entries)) [
  | yes l ↦
      let fits : (used q == capacity q) ≡ false = ground (arith, capacity-pow q (w.sized), l) in
      rw (IsQueue-consistent q w, fits, lt→ltb (used q) (2 ^ q.log2_entries) l)
        (produced_view q w l)
  | no n ↦
      let shut : (used q == capacity q) ≡ true =
        ground (arith, capacity-pow q (w.sized), n, w.held_fits) in
      let over : ltb (used q) (2 ^ q.log2_entries) ≡ false = ground (arith, n) in
      rw (IsQueue-consistent q w, shut, over) (refl, refl, w, refl)
]

consume_counts :
    (q : QueueState)
    → IsQueue q
    → Matches q (try_consume q) (count (2 ^ q.log2_entries) consume (view q))
unfolding try_consume count
consume_counts q w = elim (dec_lt 0 (used q)) [
  | yes l ↦
      let more : (used q == 0) ≡ false = ground (arith, l) in
      rw (IsQueue-consistent q w, more, lt→ltb 0 (used q) l) (consumed_view q w l)
  | no n ↦
      let bare : (used q == 0) ≡ true = ground (arith, n) in
      let over : ltb 0 (used q) ≡ false = ground (arith, n) in
      rw (IsQueue-consistent q w, bare, over) (refl, refl, w, refl)
]

record_counts :
    (q : QueueState)
    → IsQueue q
    → Matches q (try_record_event q) (count (2 ^ q.log2_entries) record_event (view q))
unfolding try_record_event try_produce count
record_counts q w = elim (dec_lt (used q) (2 ^ q.log2_entries)) [
  | yes l ↦
      let fits : (used q == capacity q) ≡ false = ground (arith, capacity-pow q (w.sized), l) in
      rw (IsQueue-consistent q w, fits, lt→ltb (used q) (2 ^ q.log2_entries) l)
        (produced_view q w l)
  | no n ↦
      let shut : (used q == capacity q) ≡ true =
        ground (arith, capacity-pow q (w.sized), n, w.held_fits) in
      let over : ltb (used q) (2 ^ q.log2_entries) ≡ false = ground (arith, n) in
      rw (IsQueue-consistent q w, shut, over) (marked_view q w)
]

-- Every operation answers and moves as the bounded counter does.
pub step_counts :
    (op : Op) (q : QueueState)
    → IsQueue q
    → Matches q (step op q) (count (2 ^ q.log2_entries) op (view q))
unfolding step count
step_counts produce q w = produce_counts q w
step_counts consume q w = consume_counts q w
step_counts record_event q w = record_counts q w
step_counts acknowledge q w = acknowledged_view q w

-- Every sequence of operations on a queue, `queue_model.hpp`'s productions, consumptions, recorded
-- events and acknowledgements in any order, answers exactly as a bounded counter with a flag for
-- lost events does; the used entries and the pending overflow afterwards are that counter's, and
-- the pointers are still those of a queue. `IsQueue` asks for a supported size, 32-bit pointers
-- and no more used entries than the capacity.
pub run_counts :
    (ops : List Op) (q : QueueState)
    → IsQueue q
    → ((run ops q).0 ≡ (count_all (2 ^ q.log2_entries) ops (view q)).0)
      × (view ((run ops q).1) ≡ (count_all (2 ^ q.log2_entries) ops (view q)).1)
      × IsQueue ((run ops q).1)
unfolding run count_all
run_counts [] q w = (refl, refl, w)
run_counts (op ∷ ops) q w =
    let first_step = step_counts op q w in
    let next = (step op q).1 in
    let rest = run_counts ops next (first_step.2) in
    let e : count_all (2 ^ next.log2_entries) ops (view next)
        ≡ count_all (2 ^ q.log2_entries) ops ((count (2 ^ q.log2_entries) op (view q)).1) =
      ap (λ k. count_all (2 ^ k) ops (view next)) (first_step.3)
      ∙ ap (count_all (2 ^ q.log2_entries) ops) (first_step.1) in
    (
      ap (λ b. b ∷ (run ops next).0) (first_step.0)
          ∙ ap (λ bs. (count (2 ^ q.log2_entries) op (view q)).0 ∷ bs) (rest.0 ∙ ap (λ r. r.0) e),
      rest.1 ∙ ap (λ r. r.1) e,
      rest.2,
    )
