-- ===== src/Service/Command/Untrusted.antt =====
-- The command ring with a producer that writes anything at all (src/nova/command.hpp).
use novavisor.Base.{ℕ, zero, suc, ◌+◌, ◌%◌, ◌^◌, ◌≤◌, ◌<◌}
use novavisor.Base.{◌≡◌, refl, ap}
use novavisor.Base.{true, List, []}
use novavisor.Base.{arith}
use novavisor.Base.{length}
use novavisor.Service.Command.{Record, Ring}
use novavisor.Service.Command.{minus_word, consumed, drain}
use novavisor.Service.Command.Wrap.{minus_word_self}

length-consumed : (l : List Record) (i n : ℕ) → length (consumed l i n) ≡ n
length-consumed l i zero = refl
length-consumed l i (suc n) = ap suc (length-consumed l ((i + 1) % 2 ^ 64) n)

-- Whatever the producer wrote, a drain hands over at most a ring of commands, as many as it counts, and the next drain hands over none.
pub drain_bounded :
    (c : Ring)
    → c.widx < 2 ^ 64
    → (length ((drain c).commands) ≡ (drain c).handed)
      × ((drain c).handed ≤ 128)
      × ((drain ((drain c).after)).handed ≡ 0)
drain_bounded c h =
    let n = minus_word c.widx c.ridx in
    let same = minus_word_self c.widx h in
    (ground (arith, length-consumed c.records c.ridx n), ground arith, ground (arith, same))

-- A producer that ran past the ring, or behind the consumer, is resynchronised to: no command is handed over, and the ring is empty at its index.
pub drain_resync :
    (c : Ring)
    → c.placed ≡ true
    → 128 < minus_word c.widx c.ridx
    → ((drain c).commands ≡ []) × ((drain c).after ≡ record c { ridx = c.widx })
drain_resync c p h = ground arith
