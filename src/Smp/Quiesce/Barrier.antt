-- ===== src/Smp/Quiesce/Barrier.antt =====
-- The tracker as a barrier over sets of vCPUs
-- (src/components/core/smp/include/smp/quiesce_model.hpp).
use novavisor.Base.{ℕ, ◌^◌, ◌≤◌, ◌<◌, bit_and}
use novavisor.Base.{◌≡◌, refl, sym, ap, ◌∙◌, ◌↔◌}
use novavisor.Base.{Bool, true, false, not, ◌&&◌, ◌||◌, List, [], ◌∷◌}
use novavisor.Base.{arith, dec_lt, ℕ_discrete}
use novavisor.Base.{ltb, leb, ◌==◌, if◌then◌else◌, lt→ltb}
use novavisor.Base.{if-cases}
use novavisor.Base.{bit, bit_not, bit-bit_and, bit-bit_not, bit-zero, bit-pow}
use novavisor.Base.{bit-ext, bit_and-lt}
use novavisor.Base.{bit_and-pow}
use novavisor.Base.{bit-ones, pow_lt}
use novavisor.Base.{bit_and_comm}
use native.Mathlib.Nat.{one-le-pow}
use novavisor.Smp.Quiesce.{max_quiesce_retries, AckResult, TimeoutResult}
use novavisor.Smp.Quiesce.{QuiesceTracker, allowed_mask, next_epoch, begun, begin}
use novavisor.Smp.Quiesce.{cleared, acknowledge, ready, on_timeout}

-- What reaches a tracker while it waits.
pub data Event : Type 0 where
  ack : ℕ → ℕ → Event
  timeout : ℕ → Event

abbrev pub step : ℕ → QuiesceTracker → Event → QuiesceTracker
step n t (ack vcpu epoch) = (acknowledge n t vcpu epoch).1
step n t (timeout epoch) = (on_timeout t epoch).1

abbrev pub run : ℕ → QuiesceTracker → List Event → QuiesceTracker
run n t [] = t
run n t (e ∷ es) = run n (step n t e) es

-- Whether the vCPU acknowledged this epoch.
abbrev pub acked : ℕ → ℕ → List Event → Bool
acked vcpu epoch [] = false
acked vcpu epoch (ack v e ∷ es) = ((v == vcpu) && (e == epoch)) || acked vcpu epoch es
acked vcpu epoch (timeout e ∷ es) = acked vcpu epoch es

-- A wait at one epoch, on vCPUs below `n` alone.
record IsWaiting (n : ℕ) (t : QuiesceTracker) (epoch : ℕ) : Type 0 where
  is_active : t.active ≡ true
  at : t.epoch ≡ epoch
  word : t.pending_mask < 2 ^ n

bit-allowed_mask : (n i : ℕ) → n ≤ 32 → bit (allowed_mask n) i ≡ ltb i n
bit-allowed_mask n i h = ground (arith, bit-ones n i, bit-ones 32 i)

cleared-bit :
    (t : QuiesceTracker) (v i : ℕ)
    → v < 32
    → i < 32
    → bit ((cleared t v).pending_mask) i ≡ (bit t.pending_mask i && not (v == i))
cleared-bit t v i h k =
    bit-bit_and t.pending_mask (bit_not 32 (2 ^ v)) i
    ∙ ap (λ b. bit t.pending_mask i && b)
        (bit-bit_not 32 (2 ^ v) i (pow_lt v 32 h) k ∙ ap not (bit-pow v i))

wide : (n x : ℕ) → n ≤ 32 → x < 2 ^ n → x < 2 ^ 32
wide n x h lt = elim (dec_lt n 32) [
  | yes k ↦ omega (arith, pow_lt n 32 k)
  | no k ↦ let e : n ≡ 32 = omega arith in omega (arith, ap (λ m. 2 ^ m) e)
]

step-bits :
    (n : ℕ) (t : QuiesceTracker) (e : Event) (epoch i : ℕ)
    → n ≤ 32
    → i < n
    → IsWaiting n t epoch
    → IsWaiting n (step n t e) epoch
      × (bit ((step n t e).pending_mask) i ≡ (bit t.pending_mask i && not (acked i epoch (e ∷ []))))
step-bits n t (ack v e) epoch i h k w =
    let P : AckResult × QuiesceTracker → Type 0 = λ r.
      IsWaiting n ((r).1) epoch
      × (bit (((r).1).pending_mask) i
          ≡ (bit t.pending_mask i && not (acked i epoch (ack v e ∷ [])))) in
    let active = w.is_active in
    let at = w.at in
    if-cases P (not t.active || not (e == t.epoch) || leb n v) (λ g. (w, ground arith))
      (λ g.
        let mine : v < 32 = ground arith in
        let one : bit_and t.pending_mask (2 ^ v) ≡ (if bit t.pending_mask v then 2 ^ v else 0) =
          bit_and_comm 32 t.pending_mask (2 ^ v) (wide n t.pending_mask h w.word) (pow_lt v 32 mine)
          ∙ bit_and-pow 32 v t.pending_mask mine in
        if-cases P (bit_and t.pending_mask (2 ^ v) == 0)
          (λ z. (
            w,
            elim (ℕ_discrete v i) [
              | yes same ↦ ground (arith, one, ap (bit t.pending_mask) same, one-le-pow v 2)
              | no other ↦ ground arith
            ],
          ))
          (λ z. (
            record {
              is_active = active;
              at = at;
              word = bit_and-lt n t.pending_mask (bit_not 32 (2 ^ v)) w.word;
            },
            ground (arith, cleared-bit t v i mine (omega arith)),
          )))
step-bits n t (timeout e) epoch i h k w =
    if-cases {A = TimeoutResult × QuiesceTracker}
      (λ r.
        IsWaiting n ((r).1) epoch × (bit (((r).1).pending_mask) i ≡ (bit t.pending_mask i && true)))
      (not t.active || not (e == t.epoch) || ready t) (λ g. (w, ground arith))
      (λ g.
        if-cases {A = TimeoutResult × QuiesceTracker}
          (λ r.
            IsWaiting n ((r).1) epoch
            × (bit (((r).1).pending_mask) i ≡ (bit t.pending_mask i && true)))
          (leb max_quiesce_retries t.retries) (λ f. (w, ground arith))
          (λ f. (record { is_active = w.is_active; at = w.at; word = w.word }, ground arith)))

acked-cons :
    (x : Bool) (e : Event) (es : List Event) (epoch i : ℕ)
    → ((x && not (acked i epoch (e ∷ []))) && not (acked i epoch es))
      ≡ (x && not (acked i epoch (e ∷ es)))
acked-cons x (ack v e) es epoch i = ground arith
acked-cons x (timeout e) es epoch i = ground arith

run-bits :
    (n : ℕ) (t : QuiesceTracker) (es : List Event) (epoch i : ℕ)
    → n ≤ 32
    → i < n
    → IsWaiting n t epoch
    → IsWaiting n (run n t es) epoch
      × (bit ((run n t es).pending_mask) i ≡ (bit t.pending_mask i && not (acked i epoch es)))
run-bits n t [] epoch i h k w = (w, ground arith)
run-bits n t (e ∷ es) epoch i h k w =
    let one = step-bits n t e epoch i h k w in
    let ih = run-bits n (step n t e) es epoch i h k one.0 in
    (
      ih.0,
      ih.1
          ∙ ap (λ b. b && not (acked i epoch es)) one.1
          ∙ acked-cons (bit t.pending_mask i) e es epoch i,
    )

zero_of_bits : (n x : ℕ) → x < 2 ^ n → ((i : ℕ) → i < n → bit x i ≡ false) → x ≡ 0
zero_of_bits n x h b =
    bit-ext n x 0 h (one-le-pow n 2 (omega arith)) (λ i k. b i k ∙ sym (bit-zero i))

bit_and_allowed : (n live : ℕ) → n ≤ 32 → live < 2 ^ 32 → bit_and live (allowed_mask n) < 2 ^ n
bit_and_allowed n live h small =
    let below : allowed_mask n < 2 ^ n =
      if-cases (λ m. m < 2 ^ n) (n == 32)
        (λ t. let e : n ≡ 32 = ground arith in omega (arith, ap (λ m. 2 ^ m) e))
        (λ f. omega (arith, one-le-pow n 2)) in
    rw (bit_and_comm 32 live (allowed_mask n) small (wide n (allowed_mask n) h below))
      (bit_and-lt n (allowed_mask n) live below)

run-IsWaiting :
    (n : ℕ) (t : QuiesceTracker) (es : List Event) (epoch : ℕ)
    → 0 < n
    → n ≤ 32
    → IsWaiting n t epoch
    → IsWaiting n (run n t es) epoch
run-IsWaiting n t [] epoch p h w = w
run-IsWaiting n t (e ∷ es) epoch p h w =
    run-IsWaiting n (step n t e) es epoch p h (step-bits n t e epoch 0 h p w).0

waits :
    (n : ℕ) (t : QuiesceTracker) (live : ℕ) (es : List Event) (epoch : ℕ)
    → 0 < n
    → n ≤ 32
    → IsWaiting n t epoch
    → ((i : ℕ) → i < n → bit t.pending_mask i ≡ bit live i)
    → (ready (run n t es) ≡ true) ↔ ((i : ℕ) → i < n → bit live i ≡ true → acked i epoch es ≡ true)
waits n t live es epoch p h w bits =
    let done = run-IsWaiting n t es epoch p h w in
    (
      (λ r i k up.
          let b = (run-bits n t es epoch i h k w).1 in
          let zero_mask : (run n t es).pending_mask ≡ 0 = ground arith in
          ground (arith, b, bits i k, up, ap (λ m. bit m i) zero_mask, bit-zero i)),
      (λ all.
          let zero_mask =
            zero_of_bits n ((run n t es).pending_mask) done.word
              (λ i k. ground (arith, (run-bits n t es epoch i h k w).1, bits i k, all i k)) in
          ground (arith, done.is_active, zero_mask)),
    )

-- A reset may restore the memory exactly when every live vCPU has acknowledged its epoch, whatever acknowledgements and timeouts came, in any order, stale ones included.
pub ready_iff_acked :
    (n : ℕ) (t : QuiesceTracker) (live : ℕ) (es : List Event)
    → 0 < n
    → n ≤ 32
    → live < 2 ^ 32
    → t.active ≡ false
    → (ready (run n ((begin n t live).1) es) ≡ true)
      ↔ ((i : ℕ) → i < n → bit live i ≡ true → acked i (next_epoch t.epoch) es ≡ true)
ready_iff_acked n t live es p h small idle =
    let w0 : IsWaiting n (begun n t live) (next_epoch t.epoch) = record {
      is_active = refl;
      at = refl;
      word = bit_and_allowed n live h small;
    } in
    let start : (begin n t live).1 ≡ begun n t live = ground arith in
    rw start (
      waits n (begun n t live) live es (next_epoch t.epoch) p h w0 (λ i k.
        bit-bit_and live (allowed_mask n) i
        ∙ ap (λ b. bit live i && b) (bit-allowed_mask n i h ∙ lt→ltb i n k)
        ∙ ground arith))
