-- ===== src/Service/Timebase/Tests.antt =====
-- The conversion at the counter of a board, 62.5 MHz, and a wait of 30 ms.
use novavisor.Base.{◌+◌, ◌*◌, ◌/◌}
use novavisor.Base.{◌≡◌, refl}
use novavisor.Base.{true, false}
use novavisor.Base.{arith}
use novavisor.Base.{leb, if◌then◌else◌}
use novavisor.Service.Timebase.{validate_timebase}
use novavisor.Service.Timebase.{refused, word_max, ms_to_ticks}
use novavisor.Service.Timebase.{us_to_ticks, deadline_after_ms, ok, unprogrammed, out_of_range}
use novavisor.Service.Timebase.Exact.{ticks_exact}

ticks_exact_example :
    (ms_to_ticks 62500000 30 ≡ (
      if leb (30 * 62500000 / 1000) word_max
      then record { accepted = true; ticks = 30 * 62500000 / 1000 }
      else refused))
    × (us_to_ticks 62500000 30 ≡ (
        if leb (30 * 62500000 / 1000000) word_max
        then record { accepted = true; ticks = 30 * 62500000 / 1000000 }
        else refused))
    × (deadline_after_ms 5 62500000 30 ≡ (
        if leb (5 + 30 * 62500000 / 1000) word_max
        then record { accepted = true; deadline = 5 + 30 * 62500000 / 1000 }
        else record { accepted = false; deadline = 0 }))
ticks_exact_example = ticks_exact 62500000 30 5 (omega arith) (omega arith) (omega arith)

-- The window's edges.
window_test :
    (validate_timebase 999999 ≡ out_of_range)
    × (validate_timebase 1000000 ≡ ok)
    × (validate_timebase 0 ≡ unprogrammed)
unfolding validate_timebase
window_test = (refl, refl, refl)
