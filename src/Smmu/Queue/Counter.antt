-- ===== src/Smmu/Queue/Counter.antt =====
-- The pointers as numbers modulo twice the capacity: the masks are remainders, and a step of
-- a pointer is one more on the counter of used entries.
use novavisor.Base.{ℕ, zero, suc, ◌+◌, ◌-◌, ◌*◌, ◌/◌, ◌%◌, ◌^◌, ◌≤◌, ◌<◌, bit_and}
use novavisor.Base.{◌≡◌, refl, sym, ap, ◌∙◌, ◌⊎◌, inl, inr}
use novavisor.Base.{true}
use novavisor.Base.{arith, dec_lt, dec_le}
use novavisor.Base.{if◌then◌else◌}
use novavisor.Base.{mod_low}
use novavisor.Base.{bit, bit_not}
use novavisor.Base.{bit-ext, bit_and-lt, bit_or-lt}
use novavisor.Base.{bit_and-ones}
use novavisor.Base.{bit-ones}
use novavisor.Base.{bit_or-fields, bit-minus, bit-shift}
use novavisor.Base.{bit-div}
use native.Mathlib.Nat.{mod-lt, mod-add-mod, mod-add-div, mod_self, mod-mod_of_dvd, dvd_refl}
use native.Mathlib.Nat.{dvd-mul_right_of_dvd, mul_comm}
use Prim.Native.Nat.{◌∣◌}
use native.Mathlib.Nat.{one-le-pow, pow-le-pow_right}
use native.Mathlib.Nat.{add-mul-mod_self_left, pow-suc}
use novavisor.Smmu.Queue.{QueueState, valid}
use novavisor.Smmu.Queue.{capacity, wrap_mask, pointer_mask}
use novavisor.Smmu.Queue.{used, advance}

pub mod_up : (m x : ℕ) → x % m + 1 < m → (x + 1) % m ≡ x % m + 1
mod_up m x h = sym (mod-add-mod x m 1) ∙ mod_low (x % m + 1) m h

pub mod_down : (m x : ℕ) → 0 < m → 0 < x % m → (x - 1) % m ≡ x % m - 1
mod_down m zero l h = absurd (omega (arith, mod_low 0 m l))
mod_down m (suc y) l h =
    let up = ap (λ t. t % m) {x = suc y} {y = y + 1} (omega arith) in
    let same = ap (λ t. t % m) {x = suc y - 1} {y = y} (omega arith) in
    elim (dec_lt (y % m + 1) m) [
      | yes p ↦ omega (arith, up, same, mod_up m y p)
      | no p ↦
          let full : y % m + 1 ≡ m = omega (arith, mod-lt y {m = m} l) in
          absurd (omega (arith, up, mod-add-mod y m 1, ap (λ t. t % m) full, mod_self m))
    ]

pub pow_dvd : (k n : ℕ) → k ≤ n → 2 ^ k ∣ 2 ^ n
pow_dvd k zero h = let e : k ≡ 0 = omega arith in rw e (dvd_refl 1)
pow_dvd k (suc n) h = elim (dec_le k n) [
  | yes p ↦ rw (pow-suc 2 n) (dvd-mul_right_of_dvd (2 ^ k) {b = 2 ^ n} (pow_dvd k n p) 2)
  | no p ↦ let e : k ≡ suc n = omega arith in rw e (dvd_refl (2 ^ suc n))
]

-- A wrapped difference keeps its low bits.
pub mod-word : (k x : ℕ) → k ≤ 32 → x % 2 ^ 32 % 2 ^ k ≡ x % 2 ^ k
mod-word k x h = mod-mod_of_dvd (2 ^ k) {b = 2 ^ 32} x (pow_dvd k 32 h)

pub ones_lt : (k : ℕ) → k ≤ 32 → 2 ^ k - 1 < 2 ^ 32
ones_lt k h = omega (arith, pow-le-pow_right {n = 2} (omega arith) {i = k} {j = 32} h)

-- `value & ~((1 << k) - 1)` of a word.
pub high_part :
    (k v : ℕ) → k ≤ 32 → v < 2 ^ 32 → bit_and v (bit_not 32 (2 ^ k - 1)) ≡ v / 2 ^ k * 2 ^ k
high_part k v h l =
    bit-ext 32 (bit_and v (bit_not 32 (2 ^ k - 1))) (v / 2 ^ k * 2 ^ k)
      (bit_and-lt 32 v (bit_not 32 (2 ^ k - 1)) l)
      (omega (arith, mod-add-div v (2 ^ k), mul_comm (2 ^ k) (v / 2 ^ k)))
      (λ i j. elim (dec_lt i k) [
        | yes p ↦
            bit-minus 32 v (2 ^ k - 1) i l (ones_lt k h)
            ∙ ground (arith, bit-ones k i, bit-shift (v / 2 ^ k) k i)
        | no p ↦
            let back = ap (bit v) {x = k + (i - k)} {y = i} (omega arith) in
            bit-minus 32 v (2 ^ k - 1) i l (ones_lt k h)
            ∙ ground (arith, bit-ones k i, bit-shift (v / 2 ^ k) k i, bit-div v k (i - k), back)
      ])

-- The width of a pointer, the index and the wrap bit.
abbrev pub width : QueueState → ℕ
width q = suc (q.log2_entries)

pub pointer_mask-ones : (q : QueueState) → valid q ≡ true → pointer_mask q ≡ 2 ^ width q - 1
pointer_mask-ones q v = simp (pointer_mask, wrap_mask, capacity, v, pow-suc) refl

pub advance-mod :
    (q : QueueState) (v : ℕ)
    → valid q ≡ true
    → v < 2 ^ 32
    → advance q v ≡ v / 2 ^ width q * 2 ^ width q + (v + 1) % 2 ^ width q
unfolding advance
advance-mod q v ok l =
    let k = width q in
    let h : k ≤ 32 = ground (arith, ok) in
    rw
      (
        pointer_mask-ones q ok,
        high_part k v h l,
        bit_and-ones k ((v + 1) % 2 ^ 32),
        mod-word k (v + 1) h,
      )
      (bit_or-fields k (v / 2 ^ k) ((v + 1) % 2 ^ k)
        (mod-lt (v + 1) {m = 2 ^ k} (one-le-pow k 2 (omega arith))))

pub used-mod :
    (q : QueueState) → valid q ≡ true → used q ≡ (q.producer + (2 ^ 32 - q.consumer)) % 2 ^ width q
used-mod q ok =
    ap
      (λ b.
        if b then bit_and ((q.producer + (2 ^ 32 - q.consumer)) % 2 ^ 32) (pointer_mask q) else 0)
      ok
    ∙ ap (bit_and ((q.producer + (2 ^ 32 - q.consumer)) % 2 ^ 32)) (pointer_mask-ones q ok)
    ∙ bit_and-ones (width q) ((q.producer + (2 ^ 32 - q.consumer)) % 2 ^ 32)
    ∙ mod-word (width q) (q.producer + (2 ^ 32 - q.consumer)) (ground (arith, ok))

mod_wrap : (m x : ℕ) → 0 < m → x % m + 1 ≡ m → (x + 1) % m ≡ 0
mod_wrap m x l h = sym (mod-add-mod x m 1) ∙ ap (λ t. t % m) h ∙ mod_self m

-- A step adds one, or wraps round twice the capacity.
pub advance_steps :
    (q : QueueState) (v : ℕ)
    → valid q ≡ true
    → v < 2 ^ 32
    → (advance q v ≡ v + 1) ⊎ (advance q v + 2 ^ width q ≡ v + 1)
advance_steps q v ok l =
    let m = 2 ^ width q in
    let pos : 0 < m = one-le-pow (width q) 2 (omega arith) in
    let whole = mod-add-div v m in
    let turn = mul_comm m (v / m) in
    let step = advance-mod q v ok l in
    elim (dec_lt (v % m + 1) m) [
      | yes p ↦ inl (omega (arith, whole, turn, step, mod_up m v p))
      | no p ↦
          let edge : v % m + 1 ≡ m = omega (arith, mod-lt v {m = m} pos) in
          inr (omega (arith, whole, turn, step, mod_wrap m v pos edge, edge))
    ]

pub advance-lt : (q : QueueState) (v : ℕ) → valid q ≡ true → v < 2 ^ 32 → advance q v < 2 ^ 32
unfolding advance
advance-lt q v ok l =
    bit_or-lt 32 (bit_and v (bit_not 32 (pointer_mask q)))
      (bit_and ((v + 1) % 2 ^ 32) (pointer_mask q))
      (bit_and-lt 32 v (bit_not 32 (pointer_mask q)) l)
      (bit_and-lt 32 ((v + 1) % 2 ^ 32) (pointer_mask q)
        (mod-lt (v + 1) {m = 2 ^ 32} (omega arith)))

mod_turn : (m x y : ℕ) → x + m ≡ y → x % m ≡ y % m
mod_turn m x y h =
    sym (add-mul-mod_self_left x m 1) ∙ ap (λ t. t % m) {x = x + m * 1} {y = y} (omega (arith, h))

pub used_up :
    (q : QueueState)
    → valid q ≡ true
    → q.producer < 2 ^ 32
    → used q + 1 < 2 ^ width q
    → used (record q { producer = advance q (q.producer) }) ≡ used q + 1
used_up q ok l room =
    let m = 2 ^ width q in
    let x = q.producer + (2 ^ 32 - q.consumer) in
    let before = used-mod q ok in
    let x1 = advance q (q.producer) + (2 ^ 32 - q.consumer) in
    let moved : x1 % m ≡ (x + 1) % m = elim (advance_steps q (q.producer) ok l) [
      | inl e ↦ ap (λ t. t % m) {x = x1} {y = x + 1} (omega (arith, e))
      | inr e ↦ mod_turn m x1 (x + 1) (omega (arith, e))
    ] in
    used-mod (record q { producer = advance q (q.producer) }) ok
    ∙ moved
    ∙ mod_up m x (omega (arith, before, room))
    ∙ omega (arith, before)

pub used_down :
    (q : QueueState)
    → valid q ≡ true
    → q.consumer < 2 ^ 32
    → 0 < used q
    → used (record q { consumer = advance q (q.consumer) }) ≡ used q - 1
used_down q ok l some_used =
    let m = 2 ^ width q in
    let pos : 0 < m = one-le-pow (width q) 2 (omega arith) in
    let x = q.producer + (2 ^ 32 - q.consumer) in
    let before = used-mod q ok in
    let x1 = q.producer + (2 ^ 32 - advance q (q.consumer)) in
    let inside = advance-lt q (q.consumer) ok l in
    let moved : x1 % m ≡ (x - 1) % m = elim (advance_steps q (q.consumer) ok l) [
      | inl e ↦ ap (λ t. t % m) {x = x1} {y = x - 1} (omega (arith, e, inside))
      | inr e ↦ sym (mod_turn m (x - 1) x1 (omega (arith, e, inside)))
    ] in
    used-mod (record q { consumer = advance q (q.consumer) }) ok
    ∙ moved
    ∙ mod_down m x pos (omega (arith, before, some_used))
    ∙ omega (arith, before)
