-- ===== src/Service/Command/Queue.antt =====
-- The command ring against a bounded queue, across the wrap of its indices
-- (src/nova/command.hpp).
use novavisor.Base.{ℕ, zero, suc, ◌+◌, ◌-◌, ◌%◌, ◌^◌, ◌≤◌, ◌<◌}
use novavisor.Base.{◌≡◌, refl, sym, ap, ◌∙◌}
use novavisor.Base.{true, false, not, List, [], ◌∷◌, ◌++◌}
use novavisor.Base.{arith}
use novavisor.Base.{◌==◌, if◌then◌else◌}
use novavisor.Base.{if-cases, length, get_or, set}
use novavisor.Base.{length-set}
use novavisor.Base.{window, window-write}
use novavisor.Service.Command.{cmd_slots}
use novavisor.Service.Command.{Record, no_record, Ring}
use novavisor.Service.Command.{minus_word, push, consumed, resync, drain}
use novavisor.Service.Command.Wrap.{minus_word-lem, slot_mod, next_word}

-- A ring that has taken `w` commands in and given `r` out.
pub record IsRing (c : Ring) (w r : ℕ) : Type 0 where
  pub bound : c.placed ≡ true
  pub slots : length c.records ≡ 128
  pub write_at : c.widx ≡ w % 2 ^ 64
  pub read_at : c.ridx ≡ r % 2 ^ 64
  pub order : r ≤ w
  pub room : w - r ≤ 128

abbrev pub queue : Ring → ℕ → ℕ → List Record
queue c w r = window 128 no_record c.records r (w - r)

ahead : (c : Ring) (w r : ℕ) → IsRing c w r → minus_word c.widx c.ridx ≡ w - r
ahead c w r i = rw i.write_at (rw i.read_at (minus_word-lem w r i.order (omega (arith, i.room))))

abbrev written : Ring → Record → Ring
written c x = record c {
  widx = (c.widx + 1) % 2 ^ 64;
  records = set c.records (c.widx % cmd_slots) x;
}

push_full :
    (c : Ring) (x : Record)
    → c.placed ≡ true
    → 128 ≤ minus_word c.widx c.ridx
    → push c x ≡ (false, c)
push_full c x p h = ground arith

push_fits :
    (c : Ring) (x : Record)
    → c.placed ≡ true
    → minus_word c.widx c.ridx < 128
    → push c x ≡ (true, written c x)
push_fits c x p h = ground arith

written-IsRing :
    (c : Ring) (w r : ℕ) (x : Record) → IsRing c w r → w - r < 128 → IsRing (written c x) (w + 1) r
written-IsRing c w r x i h = record {
  bound = i.bound;
  slots = length-set c.records (c.widx % cmd_slots) x ∙ i.slots;
  write_at = rw i.write_at (next_word w);
  read_at = i.read_at;
  order = omega (arith, i.order);
  room = omega (arith, i.order);
}

written-queue :
    (c : Ring) (w r : ℕ) (x : Record)
    → IsRing c w r
    → w - r < 128
    → queue (written c x) (w + 1) r ≡ queue c w r ++ (x ∷ [])
written-queue c w r x i h =
    let slot : c.widx % 128 ≡ (r + (w - r)) % 128 =
      rw i.write_at (slot_mod w ∙ ap (λ k. k % 128) (omega (arith, i.order))) in
    let grown : w + 1 - r ≡ suc (w - r) = omega (arith, i.order) in
    ap (λ n. window 128 no_record (set c.records (c.widx % 128) x) r n) grown
    ∙ ap (λ k. window 128 no_record (set c.records k x) r (suc (w - r))) slot
    ∙ window-write 128 no_record c.records r (w - r) x (omega (arith, i.slots)) h

-- A push is refused exactly when 128 commands wait, and then changes nothing; otherwise the command joins the back of the queue. It holds at every value of the indices, their wrap at 2^64 included.
pub push-queue :
    (c : Ring) (w r : ℕ) (x : Record)
    → IsRing c w r
    → (w - r ≡ 128 → push c x ≡ (false, c))
      × (w - r < 128
          → ((push c x).0 ≡ true)
            × IsRing ((push c x).1) (w + 1) r
            × (queue ((push c x).1) (w + 1) r ≡ queue c w r ++ (x ∷ [])))
push-queue c w r x i = (
  (λ full. push_full c x i.bound (omega (arith, ahead c w r i))),
  (λ h.
      let e = push_fits c x i.bound (omega (arith, ahead c w r i)) in
      (ap (λ p. p.0) e, rw e (written-IsRing c w r x i h), rw e (written-queue c w r x i h))),
)

drain_fits :
    (c : Ring)
    → c.placed ≡ true
    → minus_word c.widx c.ridx ≤ 128
    → drain c ≡ record {
      handed = minus_word c.widx c.ridx;
      commands = consumed c.records c.ridx (minus_word c.widx c.ridx);
      after = if not (c.widx == c.ridx) then resync c else c;
    }
drain_fits c p h = ground arith

consumed-window :
    (l : List Record) (r n : ℕ) → consumed l (r % 2 ^ 64) n ≡ window 128 no_record l r n
consumed-window l r zero = refl
consumed-window l r (suc n) =
    rw (slot_mod r)
      (rw (next_word r) (ap (λ t. get_or l (r % 128) no_record ∷ t) (consumed-window l (r + 1) n)))

emptied : (c : Ring) (w r : ℕ) → IsRing c w r → IsRing (resync c) w w
emptied c w r i = record {
  bound = i.bound;
  slots = i.slots;
  write_at = i.write_at;
  read_at = i.write_at;
  order = omega arith;
  room = omega arith;
}

stays : (c : Ring) (w r : ℕ) → IsRing c w r → c.widx ≡ c.ridx → IsRing c w w
stays c w r i e = record {
  bound = i.bound;
  slots = i.slots;
  write_at = i.write_at;
  read_at = sym e ∙ i.write_at;
  order = omega arith;
  room = omega arith;
}

-- A drain hands over all the queue, oldest first, counts it, and leaves the ring empty.
pub drain-queue :
    (c : Ring) (w r : ℕ)
    → IsRing c w r
    → ((drain c).handed ≡ w - r) × ((drain c).commands ≡ queue c w r) × IsRing ((drain c).after) w w
drain-queue c w r i =
    let n = ahead c w r i in
    (
      ground (arith, n, i.bound, i.room),
      ap (λ d. d.commands) (drain_fits c i.bound (omega (arith, n, i.room)))
          ∙ ap (consumed c.records c.ridx) n
          ∙ ap (λ k. consumed c.records k (w - r)) i.read_at
          ∙ consumed-window c.records r (w - r),
      rw (drain_fits c i.bound (omega (arith, n, i.room))) (
          if-cases (λ d. IsRing d w w) (not (c.widx == c.ridx)) (λ e. emptied c w r i)
            (λ e. stays c w r i (ground arith))),
    )
