-- ===== src/Service/Ivc/Queue.antt =====
-- The shared ring as a bounded queue, across the wrap of its indices
-- (src/components/service/ivc/include/ivc/ring.hpp).
use novavisor.Base.{ℕ, suc, ◌+◌, ◌-◌, ◌%◌, ◌^◌, ◌≤◌, ◌<◌, bit_and}
use novavisor.Base.{◌≡◌, sym, ap, ◌∙◌, ◌≢◌}
use novavisor.Base.{true, false, List, [], ◌∷◌, ◌++◌}
use novavisor.Base.{arith}
use novavisor.Base.{length, get_or, set}
use novavisor.Base.{length-set}
use novavisor.Base.{window, window-write}
use novavisor.Base.{bit_and-ones}
use novavisor.Service.Ivc.{Ring, minus_word, push, pop}

-- A ring that has taken `w` values in and given `r` out.
pub record IsRing (c : Ring) (w r : ℕ) : Type 0 where
  pub cells : length c.slots ≡ 16
  pub write_at : c.widx ≡ w % 2 ^ 32
  pub read_at : c.ridx ≡ r % 2 ^ 32
  pub order : r ≤ w
  pub room : w - r ≤ 16

abbrev pub queue : Ring → ℕ → ℕ → List ℕ
queue c w r = window 16 0 c.slots r (w - r)

distance : (c : Ring) (w r : ℕ) → IsRing c w r → minus_word c.widx c.ridx ≡ w - r
distance c w r i = let a = i.write_at in let b = i.read_at in omega (arith, a, b, i.order, i.room)

slot : (x : ℕ) → bit_and (x % 2 ^ 32) 15 ≡ x % 16
slot x = bit_and-ones 4 (x % 2 ^ 32) ∙ omega arith

abbrev written : Ring → ℕ → Ring
written c v = record c { widx = (c.widx + 1) % 2 ^ 32; slots = set c.slots (bit_and c.widx 15) v }

push_fits : (c : Ring) (v : ℕ) → minus_word c.widx c.ridx ≢ 16 → push c v ≡ (true, written c v)
push_fits c v h = ground arith

written-IsRing : (c : Ring) (w r v : ℕ) → IsRing c w r → w - r < 16 → IsRing (written c v) (w + 1) r
written-IsRing c w r v i h = record {
  cells = length-set c.slots (bit_and c.widx 15) v ∙ i.cells;
  write_at = let a = i.write_at in omega (arith, a);
  read_at = i.read_at;
  order = omega (arith, i.order);
  room = omega (arith, i.order);
}

written-queue :
    (c : Ring) (w r v : ℕ)
    → IsRing c w r
    → w - r < 16
    → queue (written c v) (w + 1) r ≡ queue c w r ++ (v ∷ [])
written-queue c w r v i h =
    let at : bit_and c.widx 15 ≡ (r + (w - r)) % 16 =
      ap (λ k. bit_and k 15) i.write_at ∙ slot w ∙ ap (λ k. k % 16) (omega (arith, i.order)) in
    let grown : w + 1 - r ≡ suc (w - r) = omega (arith, i.order) in
    ap (λ n. window 16 0 (set c.slots (bit_and c.widx 15) v) r n) grown
    ∙ ap (λ k. window 16 0 (set c.slots k v) r (suc (w - r))) at
    ∙ window-write 16 0 c.slots r (w - r) v (omega (arith, i.cells)) h

-- A push is refused exactly when sixteen values wait, and then changes nothing; otherwise the value joins the back of the queue, at every value of the 32-bit indices.
pub ivc_push-queue :
    (c : Ring) (w r v : ℕ)
    → IsRing c w r
    → (w - r ≡ 16 → push c v ≡ (false, c))
      × (w - r < 16
          → ((push c v).0 ≡ true)
            × IsRing ((push c v).1) (w + 1) r
            × (queue ((push c v).1) (w + 1) r ≡ queue c w r ++ (v ∷ [])))
ivc_push-queue c w r v i =
    let n = distance c w r i in
    (
      (λ full. ground (arith, n, full)),
      (λ h.
          let e = push_fits c v (omega (arith, n, h)) in
          (ap (λ p. p.0) e, rw e (written-IsRing c w r v i h), rw e (written-queue c w r v i h))),
    )

taken-IsRing :
    (c : Ring) (w r : ℕ)
    → IsRing c w r
    → r < w
    → IsRing (record c { ridx = (c.ridx + 1) % 2 ^ 32 }) w (r + 1)
taken-IsRing c w r i h = record {
  cells = i.cells;
  write_at = i.write_at;
  read_at = let b = i.read_at in omega (arith, b);
  order = omega (arith, h);
  room = omega (arith, i.room);
}

-- A pop is refused exactly when nothing waits, and then changes nothing; otherwise it hands over the oldest value and takes it off the queue.
pub ivc_pop-queue :
    (c : Ring) (w r old : ℕ)
    → IsRing c w r
    → (w ≡ r → pop c old ≡ (false, old, c))
      × (r < w
          → ((pop c old).0 ≡ true)
            × IsRing ((pop c old).2) w (r + 1)
            × (queue c w r ≡ (pop c old).1 ∷ queue ((pop c old).2) w (r + 1)))
ivc_pop-queue c w r old i =
    let n = distance c w r i in
    let a = i.write_at in
    let b = i.read_at in
    (
      (λ e.
          let same : c.widx ≡ c.ridx = a ∙ ap (λ k. k % 2 ^ 32) e ∙ sym b in ground (arith, same)),
      (λ h.
          let apart : c.widx ≢ c.ridx = λ s. omega (arith, a, b, s, h, i.room) in
          let e : pop c old ≡ (
            true,
            get_or c.slots (bit_and c.ridx 15) 0,
            record c { ridx = (c.ridx + 1) % 2 ^ 32 },
          ) =
            ground (arith, apart) in
          let at : bit_and c.ridx 15 ≡ r % 16 = ap (λ k. bit_and k 15) b ∙ slot r in
          let more : w - r ≡ suc (w - (r + 1)) = omega (arith, h) in
          (
            ap (λ p. p.0) e,
            rw e (taken-IsRing c w r i h),
            rw e (
                ap (window 16 0 c.slots r) more
                ∙ ap (λ k. get_or c.slots k 0 ∷ window 16 0 c.slots (r + 1) (w - (r + 1)))
                    (sym at)),
          )),
    )
