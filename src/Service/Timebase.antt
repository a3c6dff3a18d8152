-- ===== src/Service/Timebase.antt =====
-- The counter's rate and the conversion of waits to its ticks: src/nova/arch/timebase.hpp.
use novavisor.Base.{ℕ, ◌+◌, ◌-◌, ◌*◌, ◌/◌, ◌%◌, ◌^◌}
use novavisor.Base.{Bool, true, false, not, ◌||◌}
use novavisor.Base.{ltb, ◌==◌, if◌then◌else◌}
pub mod Exact
mod Tests

abbrev pub min_counter_hz : ℕ
min_counter_hz = 1000000

abbrev pub max_counter_hz : ℕ
max_counter_hz = 1000000000

pub data TimebaseError : Type 0 where
  ok unprogrammed out_of_range : TimebaseError

pub validate_timebase : ℕ → TimebaseError
validate_timebase hz =
    if hz == 0
    then unprogrammed
    else if ltb hz min_counter_hz || ltb max_counter_hz hz
    then out_of_range
    else ok

pub record TickPlan : Type 0 where
  pub accepted : Bool
  pub ticks : ℕ

pub record DeadlinePlan : Type 0 where
  pub accepted : Bool
  pub deadline : ℕ

abbrev pub refused : TickPlan
refused = record { accepted = false; ticks = 0 }

abbrev pub word_max : ℕ
word_max = 2 ^ 64 - 1

-- The two conversions have one body, at 1,000 and at 1,000,000 units to the second.
abbrev pub to_ticks : ℕ → ℕ → ℕ → TickPlan
to_ticks scale hz t =
    let seconds = t / scale in
    let units = t % scale in
    let whole = seconds * hz % 2 ^ 64 in
    let fraction = (hz / scale * units % 2 ^ 64 + hz % scale * units % 2 ^ 64 / scale) % 2 ^ 64 in
    if hz == 0
    then refused
    else if ltb (word_max / hz) seconds
    then refused
    else if ltb (word_max - fraction) whole
    then refused
    else record { accepted = true; ticks = (whole + fraction) % 2 ^ 64 }

pub ms_to_ticks : ℕ → ℕ → TickPlan
ms_to_ticks hz ms = to_ticks 1000 hz ms

pub us_to_ticks : ℕ → ℕ → TickPlan
us_to_ticks hz us = to_ticks 1000000 hz us

pub deadline_after_ms : ℕ → ℕ → ℕ → DeadlinePlan
unfolding ms_to_ticks
deadline_after_ms now hz ms =
    let plan = ms_to_ticks hz ms in
    if not plan.accepted || ltb (word_max - plan.ticks) now
    then record { accepted = false; deadline = 0 }
    else record { accepted = true; deadline = (now + plan.ticks) % 2 ^ 64 }
