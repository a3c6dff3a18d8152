-- ===== src/Service/Ivc.antt =====
-- The ring that guests speak in their shared page: src/components/service/ivc/include/ivc/ring.hpp
-- over src/nova/abi/ivc_ring.h. One producer owns `widx` and one consumer owns `ridx`.
use novavisor.Base.{ℕ, ◌+◌, ◌-◌, ◌%◌, ◌^◌, bit_and}
use novavisor.Base.{Bool, true, false, List}
use novavisor.Base.{◌==◌, if◌then◌else◌}
use novavisor.Base.{get_or, set}
pub mod Queue
mod Tests

-- `NOVA_IVC_RING_SLOTS`.
abbrev pub ivc_ring_slots : ℕ
ivc_ring_slots = 16

pub record Ring : Type 0 where
  pub widx : ℕ
  pub ridx : ℕ
  pub slots : List ℕ

-- Subtraction of 32-bit words.
abbrev pub minus_word : ℕ → ℕ → ℕ
minus_word x y = (x + (2 ^ 32 - y)) % 2 ^ 32

abbrev pub push : Ring → ℕ → Bool × Ring
push r value = if minus_word r.widx r.ridx == ivc_ring_slots then (false, r) else (
  true,
  record r {
    widx = (r.widx + 1) % 2 ^ 32;
    slots = set r.slots (bit_and r.widx (ivc_ring_slots - 1)) value;
  },
)

-- `value` keeps what it held when the ring is empty.
abbrev pub pop : Ring → ℕ → Bool × ℕ × Ring
pop r value = if r.widx == r.ridx then (false, value, r) else (
  true,
  get_or r.slots (bit_and r.ridx (ivc_ring_slots - 1)) 0,
  record r { ridx = (r.ridx + 1) % 2 ^ 32 },
)
