-- ===== src/Smmu/Queue/Overflow.antt =====
-- The overflow flag, bit 31 of a pointer: a step of a pointer keeps it, and marking or
-- acknowledging an overflow keeps the counter.
use novavisor.Base.{ℕ, ◌+◌, ◌-◌, ◌%◌, ◌^◌, ◌≤◌, ◌<◌, bit_and, bit_or}
use novavisor.Base.{◌≡◌, sym, ap, ◌∙◌}
use novavisor.Base.{true, not}
use novavisor.Base.{arith, dec_lt}
use novavisor.Base.{◌==◌, if◌then◌else◌}
use novavisor.Base.{mod_low}
use novavisor.Base.{mod_second}
use novavisor.Base.{bit, bit_not, bit-bit_and, bit-bit_or, bit-pow}
use novavisor.Base.{bit-ones}
use novavisor.Base.{bit_and-test, bit-minus, bit-clear}
use Prim.Native.Nat.{bit_xor}
use native.Mathlib.Nat.{mod-lt, mod-add-mod, one-le-pow, mod-eq-zero_of_dvd}
use novavisor.Base.{bit-bit_xor, bit_xor-lt, low_ext, unequal}
use novavisor.Smmu.Queue.{event_queue_overflow, QueueState, valid}
use novavisor.Smmu.Queue.{used, advance}
use novavisor.Smmu.Queue.{event_overflow_pending}
use novavisor.Smmu.Queue.Counter.{pow_dvd, ones_lt, width}
use novavisor.Smmu.Queue.Counter.{pointer_mask-ones, used-mod}

pub event_overflow_pending-flags :
    (q : QueueState)
    → q.producer < 2 ^ 32
    → q.consumer < 2 ^ 32
    → event_overflow_pending q ≡ unequal (bit (q.producer) 31) (bit (q.consumer) 31)
unfolding event_overflow_pending
event_overflow_pending-flags q h k =
    let test =
      bit_and-test 32 (bit_xor (q.producer) (q.consumer)) 31
        (bit_xor-lt 32 (q.producer) (q.consumer) h k) (omega arith) in
    ap not test ∙ ground (arith, bit-bit_xor (q.producer) (q.consumer) 31)

pub advance-flag :
    (q : QueueState) (v : ℕ) → valid q ≡ true → v < 2 ^ 32 → bit (advance q v) 31 ≡ bit v 31
unfolding advance
advance-flag q v ok l =
    let k = width q in
    let next = (v + 1) % 2 ^ 32 in
    rw (pointer_mask-ones q ok) (
      bit-bit_or (bit_and v (bit_not 32 (2 ^ k - 1))) (bit_and next (2 ^ k - 1)) 31
      ∙ ground (
        arith,
        bit-minus 32 v (2 ^ k - 1) 31 l (ones_lt k (ground (arith, ok))),
        bit-bit_and next (2 ^ k - 1) 31,
        bit-ones k 31,
        ok,
      ))

sum-mod : (m x y : ℕ) → (x + y) % m ≡ (x % m + y % m) % m
sum-mod m x y =
    sym (mod-add-mod x m y)
    ∙ ap (λ t. t % m) {x = x % m + y} {y = y + x % m} (omega arith)
    ∙ sym (mod-add-mod y m (x % m))
    ∙ ap (λ t. t % m) {x = y % m + x % m} {y = x % m + y % m} (omega arith)

-- What completes `c` to a multiple of `m`, modulo `m`.
complement-mod :
    (m x c : ℕ) → 0 < m → (x + c) % m ≡ 0 → x % m ≡ (if c % m == 0 then 0 else m - c % m)
complement-mod m x c pos h =
    let whole = sum-mod m x c in
    let lo = mod-lt x {m = m} pos in
    let hi = mod-lt c {m = m} pos in
    elim (dec_lt (x % m + c % m) m) [
      | yes p ↦ ground (arith, whole, h, mod_low (x % m + c % m) m p)
      | no p ↦ ground (arith, whole, h, mod_second (x % m + c % m) m (omega arith) (omega arith))
    ]

complement-word :
    (k c d : ℕ)
    → k ≤ 32
    → c < 2 ^ 32
    → d < 2 ^ 32
    → c % 2 ^ k ≡ d % 2 ^ k
    → (2 ^ 32 - c) % 2 ^ k ≡ (2 ^ 32 - d) % 2 ^ k
complement-word k c d h hc hd e =
    let m = 2 ^ k in
    let pos : 0 < m = one-le-pow k 2 (omega arith) in
    let whole : 2 ^ 32 % m ≡ 0 = mod-eq-zero_of_dvd m {n = 2 ^ 32} (pow_dvd k 32 h) in
    let full : (t : ℕ) → t < 2 ^ 32 → (2 ^ 32 - t + t) % m ≡ 0 =
      λ t l. ap (λ z. z % m) {x = 2 ^ 32 - t + t} {y = 2 ^ 32} (omega arith) ∙ whole in
    complement-mod m (2 ^ 32 - c) c pos (full c hc)
    ∙ ap (λ z. if z == 0 then 0 else m - z) e
    ∙ sym (complement-mod m (2 ^ 32 - d) d pos (full d hd))

pub used-congruent :
    (q : QueueState) (p c : ℕ)
    → valid q ≡ true
    → q.consumer < 2 ^ 32
    → c < 2 ^ 32
    → p % 2 ^ width q ≡ q.producer % 2 ^ width q
    → c % 2 ^ width q ≡ q.consumer % 2 ^ width q
    → used (record q { producer = p; consumer = c }) ≡ used q
used-congruent q p c ok hq hc ep ec =
    let m = 2 ^ width q in
    let ew = complement-word (width q) c (q.consumer) (ground (arith, ok)) hc hq ec in
    used-mod (record q { producer = p; consumer = c }) ok
    ∙ sum-mod m p (2 ^ 32 - c)
    ∙ ap (λ z. (z + (2 ^ 32 - c) % m) % m) ep
    ∙ ap (λ z. (q.producer % m + z) % m) ew
    ∙ sym (sum-mod m (q.producer) (2 ^ 32 - q.consumer))
    ∙ sym (used-mod q ok)

-- Flipping the flag of the producer keeps the low bits.
pub xor-low : (k x : ℕ) → k ≤ 31 → bit_xor x event_queue_overflow % 2 ^ k ≡ x % 2 ^ k
xor-low k x h =
    low_ext k (bit_xor x event_queue_overflow) x
      (λ i l. bit-bit_xor x event_queue_overflow i ∙ ground (arith, bit-pow 31 i))

-- The acknowledged consumer has the flag of the producer and its own other bits.
pub acknowledge-bit :
    (p c i : ℕ)
    → c < 2 ^ 32
    → bit (bit_or (bit_and c (bit_not 32 event_queue_overflow)) (bit_and p event_queue_overflow)) i
      ≡ (if 31 == i then bit p i else bit c i)
acknowledge-bit p c i h =
    bit-bit_or (bit_and c (bit_not 32 event_queue_overflow)) (bit_and p event_queue_overflow) i
    ∙ ground (
      arith,
      bit-clear 32 c 31 i h (omega arith),
      bit-bit_and p event_queue_overflow i,
      bit-pow 31 i,
    )
