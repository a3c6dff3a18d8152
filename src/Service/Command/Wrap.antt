-- ===== src/Service/Command/Wrap.antt =====
-- Indices that run on modulo 2^64, as the command ring keeps them.
use novavisor.Base.{ℕ, ◌+◌, ◌-◌, ◌%◌, ◌^◌, ◌≤◌, ◌<◌}
use novavisor.Base.{◌≡◌}
use novavisor.Base.{arith}
use novavisor.Service.Command.{minus_word}

-- The distance of two running indices is read off their 64-bit words.
pub minus_word-lem :
    (w r : ℕ) → r ≤ w → w - r < 2 ^ 64 → minus_word (w % 2 ^ 64) (r % 2 ^ 64) ≡ w - r
minus_word-lem w r h k = omega arith

pub slot_mod : (x : ℕ) → (x % 2 ^ 64) % 128 ≡ x % 128
slot_mod x = omega arith

pub next_word : (x : ℕ) → (x % 2 ^ 64 + 1) % 2 ^ 64 ≡ (x + 1) % 2 ^ 64
next_word x = omega arith

pub minus_word_self : (x : ℕ) → x < 2 ^ 64 → minus_word x x ≡ 0
minus_word_self x h = omega arith
