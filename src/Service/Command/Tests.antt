-- ===== src/Service/Command/Tests.antt =====
-- A command ring whose indices are about to wrap, and a table of two commands.
use novavisor.Base.{ℕ, ◌+◌, ◌-◌, ◌^◌, ◌≤◌, ◌<◌}
use novavisor.Base.{◌≡◌, refl}
use novavisor.Base.{true, false, some, [], ◌∷◌, ◌++◌}
use novavisor.Base.{arith}
use novavisor.Base.{length, replicate}
use novavisor.Service.Command.{Record, no_record, Ring}
use novavisor.Service.Command.{push, drain, free_arg, Op}
use novavisor.Service.Command.{dispatch}
use novavisor.Service.Command.Queue.{IsRing, queue, push-queue, drain-queue}
use novavisor.Service.Command.Untrusted.{drain_bounded}

abbrev mark : ℕ → Record
mark tag = record { op = 1; a = tag; b = 0 }

-- One command waits in the last slot before the wrap of the indices.
abbrev taken : ℕ
taken = 2 ^ 64 - 1

abbrev late : Ring
late = record {
  placed = true;
  widx = 0;
  ridx = 2 ^ 64 - 1;
  records = replicate 127 no_record ++ (mark 7 ∷ []);
}

late-IsRing : IsRing late (taken + 1) taken
late-IsRing = record {
  bound = refl;
  slots = refl;
  write_at = refl;
  read_at = refl;
  order = omega arith;
  room = omega arith;
}

push-queue_example :
    (taken + 1 - taken ≡ 128 → push late (mark 8) ≡ (false, late))
    × (taken + 1 - taken < 128
        → ((push late (mark 8)).0 ≡ true)
          × IsRing ((push late (mark 8)).1) (taken + 1 + 1) taken
          × (queue ((push late (mark 8)).1) (taken + 1 + 1) taken
              ≡ queue late (taken + 1) taken ++ (mark 8 ∷ [])))
push-queue_example = push-queue late (taken + 1) taken (mark 8) late-IsRing

drain-queue_example :
    ((drain late).handed ≡ 1)
    × ((drain late).commands ≡ mark 7 ∷ [])
    × IsRing ((drain late).after) (taken + 1) (taken + 1)
drain-queue_example = drain-queue late (taken + 1) taken late-IsRing

-- A producer that claims a thousand commands.
abbrev liar : Ring
liar = record late { widx = 1000; ridx = 3 }

drain_bounded_example :
    (length ((drain liar).commands) ≡ (drain liar).handed)
    × ((drain liar).handed ≤ 128)
    × ((drain ((drain liar).after)).handed ≡ 0)
drain_bounded_example = drain_bounded liar (omega arith)

abbrev count_up : Record → ℕ → ℕ × ℕ
count_up c w = (0, w + c.a)

abbrev op_of : ℕ → Op ℕ
op_of code = record { op = code; words = 1; a = free_arg; b = free_arg; handler = some count_up }

marked : dispatch (op_of 1 ∷ []) (mark 5) 3 ≡ (0, 8)
marked = refl
