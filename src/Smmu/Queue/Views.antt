-- ===== src/Smmu/Queue/Views.antt =====
-- One move of the pointers, seen as a move of the bounded counter.
use novavisor.Base.{ℕ, ◌+◌, ◌-◌, ◌^◌, ◌≤◌, ◌<◌, bit_and, bit_or}
use novavisor.Base.{◌≡◌, refl, sym, ap, ◌∙◌, inl, inr}
use novavisor.Base.{Bool, true, false}
use novavisor.Base.{arith}
use novavisor.Base.{if◌then◌else◌, Bool-cases}
use novavisor.Base.{bit, bit_not, bit-pow}
use novavisor.Base.{bit_and-lt, bit_or-lt}
use Prim.Native.Nat.{bit_xor}
use native.Mathlib.Nat.{pow-suc}
use novavisor.Base.{bit-bit_xor, bit_xor-lt, low_ext, unequal}
use novavisor.Smmu.Queue.{event_queue_overflow, QueueState, valid}
use novavisor.Smmu.Queue.{capacity}
use novavisor.Smmu.Queue.{used, consistent, advance}
use novavisor.Smmu.Queue.{event_overflow_pending, mark_event_overflow}
use novavisor.Smmu.Queue.{acknowledge_event_overflow}
use novavisor.Smmu.Queue.Counter.{width}
use novavisor.Smmu.Queue.Counter.{advance-lt, used_up, used_down}
use novavisor.Smmu.Queue.Overflow.{event_overflow_pending-flags, advance-flag, used-congruent}
use novavisor.Smmu.Queue.Overflow.{xor-low, acknowledge-bit}
use novavisor.Smmu.Queue.Spec.{Counter, view, IsQueue}

Counter-eq : {s t : Counter} → s.held ≡ t.held → s.lost ≡ t.lost → s ≡ t
Counter-eq {s} {t} e f = λ i. record { held = e i; lost = f i }

pub capacity-pow : (q : QueueState) → valid q ≡ true → capacity q ≡ 2 ^ q.log2_entries
capacity-pow q ok = ap (λ b. if b then 2 ^ q.log2_entries else 0) ok

pub IsQueue-consistent : (q : QueueState) → IsQueue q → consistent q ≡ true
IsQueue-consistent q w = ground (arith, w.sized, w.held_fits, capacity-pow q (w.sized))

-- Both fields of a step: its answer and the counter afterwards.
abbrev pub Matches : QueueState → Bool × QueueState → Bool × Counter → Type 0
Matches q r s =
    (r.0 ≡ s.0) × (view (r.1) ≡ s.1) × IsQueue (r.1) × ((r.1).log2_entries ≡ q.log2_entries)

pub pending_kept :
    (q : QueueState) (p c : ℕ)
    → IsQueue q
    → p < 2 ^ 32
    → c < 2 ^ 32
    → bit p 31 ≡ bit (q.producer) 31
    → bit c 31 ≡ bit (q.consumer) 31
    → event_overflow_pending (record q { producer = p; consumer = c }) ≡ event_overflow_pending q
pending_kept q p c w hp hc ep ec =
    event_overflow_pending-flags (record q { producer = p; consumer = c }) hp hc
    ∙ ap (λ b. unequal b (bit c 31)) ep
    ∙ ap (unequal (bit (q.producer) 31)) ec
    ∙ sym (event_overflow_pending-flags q (w.produced) (w.consumed))

pub produced_view :
    (q : QueueState)
    → IsQueue q
    → used q < 2 ^ q.log2_entries
    → Matches q
        (true, record q { producer = advance q (q.producer) })
        (true, record (view q) { held = used q + 1 })
produced_view q w l =
    let p = advance q (q.producer) in
    let inside = advance-lt q (q.producer) (w.sized) (w.produced) in
    let held = used_up q (w.sized) (w.produced) (omega (arith, l, pow-suc 2 (q.log2_entries))) in
    let lost =
      pending_kept q p (q.consumer) w inside (w.consumed)
        (advance-flag q (q.producer) (w.sized) (w.produced)) refl in
    (
      refl,
      Counter-eq held lost,
      record {
        sized = w.sized;
        produced = inside;
        consumed = w.consumed;
        held_fits = omega (arith, held, l);
      },
      refl,
    )

pub consumed_view :
    (q : QueueState)
    → IsQueue q
    → 0 < used q
    → Matches q
        (true, record q { consumer = advance q (q.consumer) })
        (true, record (view q) { held = used q - 1 })
consumed_view q w l =
    let c = advance q (q.consumer) in
    let inside = advance-lt q (q.consumer) (w.sized) (w.consumed) in
    let held = used_down q (w.sized) (w.consumed) l in
    let lost =
      pending_kept q (q.producer) c w (w.produced) inside refl
        (advance-flag q (q.consumer) (w.sized) (w.consumed)) in
    (
      refl,
      Counter-eq held lost,
      record {
        sized = w.sized;
        produced = w.produced;
        consumed = inside;
        held_fits = omega (arith, held, w.held_fits);
      },
      refl,
    )

pub marked_view :
    (q : QueueState)
    → IsQueue q
    → Matches q (false, mark_event_overflow q) (false, record (view q) { lost = true })
unfolding mark_event_overflow
marked_view q w =
    let p = bit_xor (q.producer) event_queue_overflow in
    let inside = bit_xor-lt 32 (q.producer) event_queue_overflow (w.produced) (omega arith) in
    let held =
      used-congruent q p (q.consumer) (w.sized) (w.consumed) (w.consumed)
        (xor-low (width q) (q.producer) (ground (arith, w.sized))) refl in
    let before = event_overflow_pending-flags q (w.produced) (w.consumed) in
    let after = event_overflow_pending-flags (record q { producer = p }) inside (w.consumed) in
    let flipped =
      bit-bit_xor (q.producer) event_queue_overflow 31
      ∙ ap (unequal (bit (q.producer) 31)) (bit-pow 31 31) in
    elim (Bool-cases (event_overflow_pending q)) [
      | inl t ↦ rw t (refl, Counter-eq refl t, w, refl)
      | inr n ↦ rw n (
        refl,
        Counter-eq held
            (after ∙ ap (λ b. unequal b (bit (q.consumer) 31)) flipped ∙ ground (arith, before, n)),
        record {
          sized = w.sized;
          produced = inside;
          consumed = w.consumed;
          held_fits = omega (arith, held, w.held_fits);
        },
        refl,
      )
    ]

pub unequal_self : (b : Bool) → unequal b b ≡ false
unequal_self true = refl
unequal_self false = refl

pub acknowledged_view :
    (q : QueueState)
    → IsQueue q
    → Matches q (true, acknowledge_event_overflow q) (true, record (view q) { lost = false })
unfolding acknowledge_event_overflow
acknowledged_view q w =
    let kept = bit_and (q.consumer) (bit_not 32 event_queue_overflow) in
    let c = bit_or kept (bit_and (q.producer) event_queue_overflow) in
    let inside =
      bit_or-lt 32 kept (bit_and (q.producer) event_queue_overflow)
        (bit_and-lt 32 (q.consumer) (bit_not 32 event_queue_overflow) (w.consumed))
        (bit_and-lt 32 (q.producer) event_queue_overflow (w.produced)) in
    let narrow : width q ≤ 31 = ground (arith, w.sized) in
    let low =
      low_ext (width q) c (q.consumer) (λ i l.
        acknowledge-bit (q.producer) (q.consumer) i (w.consumed) ∙ ground (arith, narrow)) in
    let held = used-congruent q (q.producer) c (w.sized) (w.consumed) inside refl low in
    let after =
      event_overflow_pending-flags (record q { consumer = c }) (w.produced) inside
      ∙ ap (unequal (bit (q.producer) 31))
          (acknowledge-bit (q.producer) (q.consumer) 31 (w.consumed))
      ∙ unequal_self (bit (q.producer) 31) in
    (
      refl,
      Counter-eq held after,
      record {
        sized = w.sized;
        produced = w.produced;
        consumed = inside;
        held_fits = omega (arith, held, w.held_fits);
      },
      refl,
    )
