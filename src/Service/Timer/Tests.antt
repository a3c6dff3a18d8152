-- ===== src/Service/Timer/Tests.antt =====
-- A queue of three timers, two of them due.
use novavisor.Base.{ℕ, ◌≤◌, ◌<◌}
use novavisor.Base.{◌≡◌, refl, ◌⊎◌}
use novavisor.Base.{false, none, some, List}
use novavisor.Base.{get_or, replicate}
use novavisor.Service.Timer.{no_deadline, Slot, Expired, empty_slot, arm}
use novavisor.Service.Timer.{pop_expired, LegacySlot}
use novavisor.Service.Timer.Earliest.{Armed, IsPop, pop_expired-IsPop}
use novavisor.Service.Timer.Drain.{drain, drain_ends}

abbrev timers : List (Slot ℕ)
timers = arm (arm (arm (replicate 3 empty_slot) 0 50 (some 1) 10) 1 20 (some 2) 11) 2 90 (some 3) 12

earliest_first :
    (pop_expired timers 60).0
    ≡ some (record { callback = some 2; argument = 11; slot = 1; deadline = 20 })
earliest_first = refl

pop_expired-IsPop_example :
    (((pop_expired timers 60).0 ≡ none)
      × ((pop_expired timers 60).1 ≡ timers)
      × ((i : ℕ) (s : Slot ℕ) → Armed timers i s → s.deadline ≤ 60 → no_deadline ≤ s.deadline))
    ⊎ ((e : Expired ℕ) × ((pop_expired timers 60).0 ≡ some e)
        × IsPop timers 60 e ((pop_expired timers 60).1))
pop_expired-IsPop_example = pop_expired-IsPop timers 60

drain_ends_example :
    ((i : ℕ) (s : Slot ℕ)
      → Armed (drain 3 timers 60) i s
      → s.deadline ≤ 60
      → no_deadline ≤ s.deadline)
    × ((i : ℕ)
        → 60 < (get_or timers i empty_slot).deadline
        → get_or (drain 3 timers 60) i empty_slot ≡ get_or timers i empty_slot)
drain_ends_example = drain_ends timers 60

abbrev free_slot : LegacySlot
free_slot = record { owner = 0; armed = false }
