-- ===== src/Smmu/Queue/Spec.antt =====
-- The queue as a bounded counter with a flag for a lost event.
use novavisor.Base.{ℕ, ◌+◌, ◌-◌, ◌^◌, ◌≤◌, ◌<◌}
use novavisor.Base.{◌≡◌}
use novavisor.Base.{Bool, true, false, List, [], ◌∷◌}
use novavisor.Base.{ltb, if◌then◌else◌}
use novavisor.Smmu.Queue.{QueueState, valid}
use novavisor.Smmu.Queue.{used, try_produce}
use novavisor.Smmu.Queue.{try_consume, event_overflow_pending}
use novavisor.Smmu.Queue.{acknowledge_event_overflow, try_record_event}

-- What either end may ask of the queue.
pub data Op : Type 0 where
  produce : Op
  consume : Op
  record_event : Op
  acknowledge : Op

unfoldable pub step : Op → QueueState → Bool × QueueState
step produce q = try_produce q
step consume q = try_consume q
step record_event q = try_record_event q
step acknowledge q = (true, acknowledge_event_overflow q)

pub record Counter : Type 0 where
  pub held : ℕ
  pub lost : Bool

-- The bounded counter of `n` entries: a full one takes nothing, and an event it cannot take is
-- remembered as lost until that is acknowledged.
unfoldable pub count : ℕ → Op → Counter → Bool × Counter
count n produce s = if ltb (s.held) n then (true, record s { held = s.held + 1 }) else (false, s)
count n consume s = if ltb 0 (s.held) then (true, record s { held = s.held - 1 }) else (false, s)
count n record_event s =
    if ltb (s.held) n
    then (true, record s { held = s.held + 1 })
    else (false, record s { lost = true })
count n acknowledge s = (true, record s { lost = false })

abbrev pub view : QueueState → Counter
view q = record { held = used q; lost = event_overflow_pending q }

-- A queue of supported size, two words, no more used than there is room for.
pub record IsQueue (q : QueueState) : Type 0 where
  pub sized : valid q ≡ true
  pub produced : q.producer < 2 ^ 32
  pub consumed : q.consumer < 2 ^ 32
  pub held_fits : used q ≤ 2 ^ q.log2_entries

-- The answers of a sequence of operations, and the queue after it.
unfoldable pub run : List Op → QueueState → List Bool × QueueState
run [] q = ([], q)
run (op ∷ ops) q = let r = step op q in let rest = run ops (r.1) in (r.0 ∷ rest.0, rest.1)

unfoldable pub count_all : ℕ → List Op → Counter → List Bool × Counter
count_all n [] s = ([], s)
count_all n (op ∷ ops) s =
    let r = count n op s in let rest = count_all n ops (r.1) in (r.0 ∷ rest.0, rest.1)
