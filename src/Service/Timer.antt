-- ===== src/Service/Timer.antt =====
-- The deadline queue of the software timers: `TimerQueue` of
-- src/components/service/soft_timer/include/soft_timer/timer_queue.hpp, and the claim of the legacy
-- one-shot slot (src/components/core/core_timer/include/core_timer/legacy_slot_model.hpp). A callback
-- is a value of the type `F`, `none` for the null pointer.
use novavisor.Base.{ℕ, suc, ◌-◌, ◌^◌}
use novavisor.Base.{Bool, true, false, not, ◌&&◌, Option, none, some, List, [], ◌∷◌}
use novavisor.Base.{ltb, leb, ◌==◌, if◌then◌else◌}
use novavisor.Base.{length, get_or, set}
pub mod Earliest
pub mod Drain
pub mod Claim
mod Tests

-- `kNoDeadline`.
abbrev pub no_deadline : ℕ
no_deadline = 2 ^ 64 - 1

module _ (F : Type 0) where
  pub record Slot : Type 0 where
    pub deadline : ℕ
    pub callback : Option F
    pub argument : ℕ
    pub armed : Bool

  pub record Expired : Type 0 where
    pub callback : Option F
    pub argument : ℕ
    pub slot : ℕ
    pub deadline : ℕ

module _ {F : Type 0} where
  abbrev pub empty_slot : Slot F
  empty_slot = record { deadline = 0; callback = none; argument = 0; armed = false }

  abbrev pub arm : List (Slot F) → ℕ → ℕ → Option F → ℕ → List (Slot F)
  arm slots slot deadline callback argument =
      if leb (length slots) slot
      then slots
      else set slots slot
          (record { deadline = deadline; callback = callback; argument = argument; armed = true })

  abbrev pub disarm : Slot F → Slot F
  disarm s = record s { armed = false }

  abbrev pub cancel : List (Slot F) → ℕ → List (Slot F)
  cancel slots slot =
      if ltb slot (length slots)
      then set slots slot (disarm (get_or slots slot empty_slot))
      else slots

  -- The loop of `next_deadline`, from the least deadline so far.
  abbrev pub next_from : List (Slot F) → ℕ → ℕ
  next_from [] next = next
  next_from (s ∷ slots) next =
      next_from slots (if s.armed && ltb s.deadline next then s.deadline else next)

  abbrev pub next_deadline : List (Slot F) → ℕ
  next_deadline slots = next_from slots no_deadline

  -- The loop of `pop_expired` from index `i`, with the best slot so far and its deadline.
  abbrev pub due_from : List (Slot F) → ℕ → ℕ → ℕ → ℕ → ℕ × ℕ
  due_from [] i now due_index due_deadline = (due_index, due_deadline)
  due_from (s ∷ slots) i now due_index due_deadline =
      if s.armed && leb s.deadline now && ltb s.deadline due_deadline
      then due_from slots (suc i) now i s.deadline
      else due_from slots (suc i) now due_index due_deadline

  abbrev pub pop_expired : List (Slot F) → ℕ → Option (Expired F) × List (Slot F)
  pop_expired slots now =
      let due = due_from slots 0 now (length slots) no_deadline in
      let s = get_or slots due.0 empty_slot in
      if due.0 == length slots then (none, slots) else (
        some (record {
          callback = s.callback;
          argument = s.argument;
          slot = due.0;
          deadline = due.1;
        }),
        set slots due.0 (disarm s),
      )

-- The legacy one-shot slot of a core.
pub record LegacySlot : Type 0 where
  pub owner : ℕ
  pub armed : Bool

abbrev pub try_claim : LegacySlot → ℕ → Bool × LegacySlot
try_claim s caller =
    if s.armed && not (s.owner == caller)
    then (false, s)
    else (true, record { owner = caller; armed = true })

abbrev pub release : LegacySlot → LegacySlot
release s = record s { armed = false }
