-- ===== src/Vdev/Delivery/Selection.antt =====
-- The best candidate and the first free list register (vgic_delivery.hpp, `refill`).
use novavisor.Base.{ℕ, zero, suc, ◌+◌, ◌-◌, ◌/◌, ◌%◌, ◌^◌, ◌≤◌, ◌<◌, bit_and}
use novavisor.Base.{◌≡◌, refl, sym, ap, ◌∙◌, ◌≢◌, ◌⊎◌, inl, inr}
use novavisor.Base.{true, false, not, ◌&&◌}
use novavisor.Base.{arith, dec_lt, ℕ_discrete}
use novavisor.Base.{ltb, ◌==◌, ltb→lt, Bool-cases}
use novavisor.Base.{bit, bit-bit_and, bit-zero}
use novavisor.Base.{bit-ext, ne_zero_of_bit, bit_and-lt}
use novavisor.Vdev.Delivery.{countr_zero}
use novavisor.Vdev.Delivery.{Bank, priority_of, best_from}
use native.Mathlib.Nat.{pow-suc}

-- A number with its bits below `k` clear.
abbrev pub Above : ℕ → ℕ → Type 0
Above k x = (i : ℕ) → i < k → bit x i ≡ false

pub Above-half : (k x : ℕ) → Above (suc k) x → Above k (x / 2)
unfolding bit
Above-half k x h i l = h (suc i) (omega arith)

below : (x c : ℕ) → Above c (x / 2) → (x % 2 == 1) ≡ false → Above (suc c) x
unfolding bit
below x c h e zero l = e
below x c h e (suc i) l = h i (omega arith)

-- The lowest set bit of a number that is not 0 and lies below 2^fuel.
pub countr_zero-IsLowest :
    (fuel x : ℕ)
    → x < 2 ^ fuel
    → x ≢ 0
    → (bit x (countr_zero fuel x) ≡ true)
      × Above (countr_zero fuel x) x
      × (countr_zero fuel x < fuel)
unfolding countr_zero bit
countr_zero-IsLowest zero x h n = absurd (n (omega arith))
countr_zero-IsLowest (suc fuel) x h n = elim (Bool-cases (x % 2 == 1)) [
  | inl odd ↦ rw odd (ground arith, λ i l. absurd (omega arith), omega arith)
  | inr even ↦
      let (set_bit, clear, bound) =
        countr_zero-IsLowest fuel (x / 2) (omega (arith, pow-suc 2 fuel)) (ground arith) in
      rw even (set_bit, λ i l. below x (countr_zero fuel (x / 2)) clear even i l, omega arith)
]

half_odd : (x : ℕ) → (x % 2 == 1) ≡ true → (x - 1) / 2 ≡ x / 2
half_odd x e = ground arith

half_even :
    (x : ℕ)
    → (x % 2 == 1) ≡ false
    → x ≢ 0
    → ((x - 1) / 2 ≡ x / 2 - 1) × ((x - 1) % 2 ≡ 1) × (x / 2 ≢ 0)
half_even x e n = ground arith

bit-pred :
    (fuel x i : ℕ)
    → x < 2 ^ fuel
    → x ≢ 0
    → (bit x i && bit (x - 1) i) ≡ (bit x i && not (countr_zero fuel x == i))
unfolding countr_zero bit
bit-pred zero x i h n = absurd (n (omega arith))
bit-pred (suc fuel) x zero h n = elim (Bool-cases (x % 2 == 1)) [
  | inl odd ↦ rw odd (ground arith)
  | inr even ↦ rw even refl
]
bit-pred (suc fuel) x (suc i) h n = elim (Bool-cases (x % 2 == 1)) [
  | inl odd ↦ rw odd (ground (arith, ap (λ t. bit t i) (half_odd x odd)))
  | inr even ↦
      let (down, _, more) = half_even x even n in
      let ih = bit-pred fuel (x / 2) i (omega (arith, pow-suc 2 fuel)) more in
      rw even (ground (arith, ih, ap (λ t. bit t i) down))
]

-- `x & (x - 1)` clears the lowest set bit and nothing else.
pub bit-clear_lowest :
    (fuel x i : ℕ)
    → x < 2 ^ fuel
    → x ≢ 0
    → bit (bit_and x (x - 1)) i ≡ (bit x i && not (countr_zero fuel x == i))
bit-clear_lowest fuel x i h n = bit-bit_and x (x - 1) i ∙ bit-pred fuel x i h n

-- Where the loop over the candidates `bits` ends, from a best so far.
pub data Outcome (b : Bank) (bits best best_prio : ℕ) (r rp : ℕ) : Type 0 where
  kept :
      r ≡ best
      → rp ≡ best_prio
      → ((i : ℕ) → bit bits i ≡ true → best_prio ≤ priority_of b i)
      → Outcome b bits best best_prio r rp
  better :
      bit bits r ≡ true
      → rp ≡ priority_of b r
      → rp < best_prio
      → ((i : ℕ) → bit bits i ≡ true → (rp < priority_of b i) ⊎ ((rp ≡ priority_of b i) × (r ≤ i)))
      → Outcome b bits best best_prio r rp

zero-Outcome : (b : Bank) (bits best bp : ℕ) → bits ≡ 0 → Outcome b bits best bp best bp
zero-Outcome b bits best bp e = kept refl refl (λ i t. absurd (ne_zero_of_bit bits i t e))

-- The next round has one candidate less; what it finds stands for all of them.
module _ (b : Bank) (bits best bp id r rp : ℕ)
    (rest : (i : ℕ) → bit (bit_and bits (bits - 1)) i ≡ (bit bits i && not (id == i)))
    (here : bit bits id ≡ true) (lowest : Above id bits) where
  after_better :
      priority_of b id < bp
      → Outcome b (bit_and bits (bits - 1)) id (priority_of b id) r rp
      → Outcome b bits best bp r rp
  after_better l (kept e f h) = better (ground (arith, here)) (ground arith) (ground arith) (λ i t.
      elim (ℕ_discrete id i) [
        | yes p ↦ inr (ground arith, ground arith)
        | no p ↦
            let le = h i (rest i ∙ ground arith) in
            elim (dec_lt (priority_of b id) (priority_of b i)) [
              | yes q ↦ inl (ground arith)
              | no q ↦ inr (
                ground arith,
                elim (dec_lt i id) [
                  | yes w ↦ absurd (ground (arith, lowest i w))
                  | no w ↦ ground arith
                ],
              )
            ]
      ])
  after_better l (better s e f h) = better (ground (arith, rest r)) e (omega arith) (λ i t.
      elim (ℕ_discrete id i) [ yes p ↦ inl (ground arith) | no p ↦ h i (rest i ∙ ground arith) ])

  after_kept :
      bp ≤ priority_of b id
      → Outcome b (bit_and bits (bits - 1)) best bp r rp
      → Outcome b bits best bp r rp
  after_kept l (kept e f h) =
      kept e f (λ i t. elim (ℕ_discrete id i) [
        | yes p ↦ ground arith
        | no p ↦ h i (rest i ∙ ground arith)
      ])
  after_kept l (better s e f h) = better (ground (arith, rest r)) e f (λ i t.
      elim (ℕ_discrete id i) [ yes p ↦ inl (ground arith) | no p ↦ h i (rest i ∙ ground arith) ])

next-Above :
    (k bits id : ℕ)
    → Above k bits
    → ((i : ℕ) → bit (bit_and bits (bits - 1)) i ≡ (bit bits i && not (id == i)))
    → Above id bits
    → bit bits id ≡ true
    → Above (k + 1) (bit_and bits (bits - 1))
next-Above k bits id h rest lowest here i l = elim (Bool-cases (bit bits i)) [
  | inr f ↦ rest i ∙ ground arith
  | inl t ↦ elim (dec_lt i id) [
    | yes w ↦ absurd (ground (arith, lowest i w))
    | no w ↦ elim (dec_lt id k) [
      | yes v ↦ absurd (ground (arith, h id v))
      | no v ↦ rest i ∙ ground arith
    ]
  ]
]

pub best_from-Outcome :
    (b : Bank) (fuel k bits best bp : ℕ)
    → fuel + k ≡ 64
    → bits < 2 ^ 64
    → Above k bits
    → let (r, rp) = best_from b fuel bits best bp in Outcome b bits best bp r rp
unfolding best_from
best_from-Outcome b zero k bits best bp f h above =
    zero-Outcome b bits best bp
      (bit-ext 64 bits 0 h (omega arith) (λ i l. above i (omega arith) ∙ sym (bit-zero i)))
best_from-Outcome b (suc fuel) k bits best bp f h above = elim (Bool-cases (bits == 0)) [
  | inl z ↦ rw z (zero-Outcome b bits best bp (ground arith))
  | inr nz ↦
      let n : bits ≢ 0 = ground arith in
      let id = countr_zero 64 bits in
      let (here, lowest, _) = countr_zero-IsLowest 64 bits h n in
      let rest = λ (i : ℕ). bit-clear_lowest 64 bits i h n in
      let above' = next-Above k bits id above rest lowest here in
      let small = bit_and-lt 64 bits (bits - 1) h in
      rw nz (elim (Bool-cases (ltb (priority_of b id) bp)) [
        | inl lt ↦ rw lt (
            after_better b bits best bp id _ _ rest here lowest (ltb→lt _ _ lt)
              (best_from-Outcome b fuel (k + 1) _ _ _ (omega arith) small above'))
        | inr ge ↦ rw ge (
            after_kept b bits best bp id _ _ rest here lowest (ground arith)
              (best_from-Outcome b fuel (k + 1) _ _ _ (omega arith) small above'))
      ])
]
