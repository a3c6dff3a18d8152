-- ===== src/Vdev/Delivery/Refill/Loop.antt =====
-- The loop of `refill` (vgic_delivery.hpp): it ends, and what it leaves.
use novavisor.Base.{ℕ, zero, suc, ◌+◌, ◌^◌, ◌≤◌, ◌<◌, bit_and}
use novavisor.Base.{◌≡◌, refl, sym, ap, ◌∙◌, ◌≢◌, ◌⊎◌, inl, inr}
use novavisor.Base.{Bool, true, false, not, ◌&&◌, Option, some, List}
use novavisor.Base.{arith, dec_lt, ℕ_discrete}
use novavisor.Base.{◌==◌, if◌then◌else◌, Bool-cases}
use novavisor.Base.{length, get_or, set}
use novavisor.Base.{get_or-set_self, get_or-set_ne}
use novavisor.Base.{bit, bit_not}
use novavisor.Base.{bit-above}
use novavisor.Base.{bit-clear}
use novavisor.Vdev.Delivery.{make_lr, lr_in_flight}
use novavisor.Vdev.Delivery.{lr_vintid, valid, no_token}
use novavisor.Vdev.Delivery.{priority_limit, Bank, priority_of, best_from, free_from}
use novavisor.Vdev.Delivery.{inject, refill_loop}
use novavisor.Vdev.Gic.Offsets.{max_intid}
use novavisor.Vdev.Delivery.Scan.{Busy, Holds, free_from-IsFree}
use novavisor.Vdev.Delivery.Selection.{kept, better, best_from-Outcome}
use novavisor.Vdev.Delivery.Refill.{pending_at, token_of, entry_of, IsBank}
use novavisor.Vdev.Delivery.Refill.{AreCandidates, Before, IsRefilled}
use novavisor.Vdev.Delivery.Refill.Step.{entry_lem, lr-inject, lr_token-inject}
use novavisor.Vdev.Delivery.Refill.Step.{priority_of-inject, lr_self, lr_other, pending_at-inject}
use novavisor.Vdev.Delivery.Refill.Step.{token_of-inject}
use novavisor.Vdev.Delivery.Refill.Step.{inject-IsBank, inject-AreCandidates}

-- The free registers among the first `n`: every round takes one.
pub free_count : List ℕ → ℕ → ℕ
free_count lrs zero = 0
free_count lrs (suc n) = free_count lrs n + (if lr_in_flight (get_or lrs n 0) then 0 else 1)

pub free_count-le : (lrs : List ℕ) (n : ℕ) → free_count lrs n ≤ n
unfolding free_count
free_count-le lrs zero = omega arith
free_count-le lrs (suc n) = ground (arith, free_count-le lrs n)

free_count-same :
    (lrs : List ℕ) (n slot v : ℕ) → n ≤ slot → free_count (set lrs slot v) n ≡ free_count lrs n
unfolding free_count
free_count-same lrs zero slot v h = refl
free_count-same lrs (suc n) slot v h =
    rw (get_or-set_ne lrs slot n v 0 (omega arith))
      (omega (arith, free_count-same lrs n slot v (omega arith)))

free_count-set :
    (lrs : List ℕ) (n slot v : ℕ)
    → slot < n
    → slot < length lrs
    → lr_in_flight (get_or lrs slot 0) ≡ false
    → lr_in_flight v ≡ true
    → free_count (set lrs slot v) n + 1 ≡ free_count lrs n
unfolding free_count
free_count-set lrs zero slot v h l f t = absurd (omega arith)
free_count-set lrs (suc n) slot v h l f t = elim (ℕ_discrete slot n) [
  | yes e ↦
      let one = ap (λ m. lr_in_flight (get_or lrs m 0)) e in
      let self = ap (λ m. get_or (set lrs slot v) m 0) (sym e) ∙ get_or-set_self lrs slot v 0 l in
      rw (self, t) (ground (arith, one, f, free_count-same lrs n slot v (omega arith)))
  | no ne ↦
      rw (get_or-set_ne lrs slot n v 0 ne)
        (omega (arith, free_count-set lrs n slot v (omega arith) l f t))
]

-- The best candidate, as the loop finds it.
abbrev chosen : Bank → ℕ → ℕ
chosen b k = (best_from b 64 k max_intid priority_limit).0

data Choice (b : Bank) (k : ℕ) : Type 0 where
  nothing : chosen b k ≡ max_intid → ((id : ℕ) → bit k id ≡ false) → Choice b k
  something :
      chosen b k < max_intid
      → bit k (chosen b k) ≡ true
      → (best_from b 64 k max_intid priority_limit).1 ≡ priority_of b (chosen b k)
      → ((id : ℕ) → bit k id ≡ true → Before b (chosen b k) id)
      → Choice b k

choice : (b : Bank) (k : ℕ) → k < 2 ^ 64 → ((id : ℕ) → priority_of b id < 256) → Choice b k
choice b k h bytes =
    elim (best_from-Outcome b 64 0 k max_intid priority_limit (omega arith) h
      (λ i l. absurd (omega arith))) [
        | kept e f all ↦ nothing e (λ id. elim (Bool-cases (bit k id)) [
          | inl t ↦ absurd (omega (arith, all id t, bytes id))
          | inr f ↦ f
        ])
        | better t e f all ↦
            let best = chosen b k in
            something
              (elim (dec_lt best 64) [
                | yes l ↦ l
                | no ge ↦ absurd (cc (bit-above 64 k best h (omega arith)))
              ])
              t e
              (λ id s. elim (all id s) [
                | inl l ↦ inl (rw (← e) l)
                | inr (q, l) ↦ inr (sym e ∙ q, l)
              ])
      ]

idle-IsRefilled :
    (n k : ℕ) (b : Bank)
    → IsBank n b
    → AreCandidates n k b
    → (o : Bool) → (o ≡ false → (id : ℕ) → bit k id ≡ false)
    → (o ≡ true → (i : ℕ) → i < n → Busy b.cpu.lr i)
    → (o ≡ true → (id : ℕ) × (bit k id ≡ true))
    → IsRefilled n k b (b, some o)
idle-IsRefilled n k b v c o none_left busy more = record {
  bank = v;
  ends = λ e. cc;
  same_priority = λ id. refl;
  stays = λ i l t. refl;
  token_stays = λ i l t. refl;
  taken = λ i l f t. absurd (cc);
  untouched = λ id l f. (refl, refl);
  moved = λ id t. inr (c.fresh id t, refl, refl);
  all = λ e id t. absurd (cc (none_left (cc e) id));
  full = λ e i l. busy (cc e) i l;
  left = λ e. let (id, t) = more (cc e) in (id, t, c.fresh id t);
  ordered = λ i id l f t s h. absurd (cc);
}

module _ (n k : ℕ) (b : Bank) (slot : ℕ) (v : IsBank n b) (c : AreCandidates n k b)
    (small : chosen b k < max_intid) (here : bit k (chosen b k) ≡ true)
    (first_of : (id : ℕ) → bit k id ≡ true → Before b (chosen b k) id) (inside : slot < n)
    (free : lr_in_flight (get_or b.cpu.lr slot 0) ≡ false) (r : Bank × Option Bool) where
  abbrev best : ℕ
  best = chosen b k

  abbrev b1 : Bank
  b1 = inject b best (priority_of b best) slot

  abbrev k1 : ℕ
  k1 = bit_and k (bit_not 64 (2 ^ best))

  k1-bit : (id : ℕ) → bit k1 id ≡ (bit k id && not (best == id))
  k1-bit id = bit-clear 64 k best id c.word small

  gone : bit k1 best ≡ false
  gone = k1-bit best ∙ ground arith

  fresh_best : ¬ Holds b.cpu.lr n best
  fresh_best = c.fresh best here

  abbrev Rest : Type 0
  Rest = IsRefilled n k1 b1 r

  entered : lr_in_flight (get_or b1.cpu.lr slot 0) ≡ true
  entered =
      rw (lr_self n b best slot v small inside free fresh_best)
        (entry_lem n b best slot v small inside free fresh_best).0

  unchanged : (i : ℕ) → slot ≢ i → get_or b1.cpu.lr i 0 ≡ get_or b.cpu.lr i 0
  unchanged = lr_other n b best slot v small inside free fresh_best

  in_slot : Rest → get_or ((r).0).cpu.lr slot 0 ≡ entry_of b best
  in_slot w = w.stays slot inside entered ∙ lr_self n b best slot v small inside free fresh_best

  in_slot_vintid : Rest → lr_vintid (get_or ((r).0).cpu.lr slot 0) ≡ best
  in_slot_vintid w =
      ap lr_vintid (in_slot w) ∙ (entry_lem n b best slot v small inside free fresh_best).1

  in_slot_token : Rest → get_or ((r).0).cpu.lr_token slot no_token ≡ token_of b best
  in_slot_token w =
      w.token_stays slot inside entered
      ∙ rw (lr_token-inject n b best slot v small inside free fresh_best) (
          get_or-set_self b.cpu.lr_token slot (token_of b best) no_token
            (omega (arith, v.slots, v.slot_tokens)))

  held : Rest → Holds ((r).0).cpu.lr n best
  held w = (slot, inside, (rw (w.stays slot inside entered) entered, in_slot_vintid w))

  not_slot : (i : ℕ) → Busy b.cpu.lr i → slot ≢ i
  not_slot i t e = cc (ap (λ m. lr_in_flight (get_or b.cpu.lr m 0)) e)

  prio1 : (id : ℕ) → priority_of b1 id ≡ priority_of b id
  prio1 = priority_of-inject n b best slot v small inside free fresh_best

  pend1 : (id : ℕ) → id < max_intid → pending_at b1 id ≡ (pending_at b id && not (best == id))
  pend1 = pending_at-inject n b best slot v small inside free fresh_best

  tok1 :
      (id : ℕ) → id < max_intid → token_of b1 id ≡ (if best == id then no_token else token_of b id)
  tok1 = token_of-inject n b best slot v small inside free fresh_best

  bounded : (id : ℕ) → bit k id ≡ true → id < max_intid
  bounded id t = elim (dec_lt id 64) [
    | yes l ↦ l
    | no ge ↦ absurd (cc (bit-above 64 k id c.word (omega arith)))
  ]

  still : (id : ℕ) → bit k id ≡ true → best ≢ id → bit k1 id ≡ true
  still id t ne = k1-bit id ∙ ground arith

  was : (id : ℕ) → bit k1 id ≡ true → (bit k id ≡ true) × (best ≢ id)
  was id t = ground (arith, k1-bit id)

  other_same :
      (id : ℕ)
      → id < max_intid
      → best ≢ id
      → (pending_at b1 id ≡ pending_at b id) × (token_of b1 id ≡ token_of b id)
  other_same id l ne = (pend1 id l ∙ ground arith, tok1 id l ∙ ground arith)

  step_taken :
      Rest
      → (i : ℕ) → i < n
      → lr_in_flight (get_or b.cpu.lr i 0) ≡ false
      → Busy ((r).0).cpu.lr i
      → (bit k (lr_vintid (get_or ((r).0).cpu.lr i 0)) ≡ true)
        × (get_or ((r).0).cpu.lr i 0 ≡ entry_of b (lr_vintid (get_or ((r).0).cpu.lr i 0)))
        × (get_or ((r).0).cpu.lr_token i no_token
            ≡ token_of b (lr_vintid (get_or ((r).0).cpu.lr i 0)))
  step_taken w i l f t = elim (ℕ_discrete slot i) [
    | yes e ↦ rw (← e) (rw (in_slot_vintid w) (here, in_slot w, in_slot_token w))
    | no ne ↦
        let u = unchanged i ne in
        let (cand, reg, tok) = w.taken i l (rw u f) t in
        let id = lr_vintid (get_or ((r).0).cpu.lr i 0) in
        let (old, other) = was id cand in
        let same = (other_same id (bounded id old) other).1 in
        (
          old,
          reg
              ∙ ap (λ p. make_lr id p (valid (token_of b1 id))) (prio1 id)
              ∙ ap (λ x. make_lr id (priority_of b id) (valid x)) same,
          tok ∙ same,
        )
  ]

  step_moved :
      Rest
      → (id : ℕ) → bit k id ≡ true
      → (Holds ((r).0).cpu.lr n id
          × (pending_at ((r).0) id ≡ false)
          × (token_of ((r).0) id ≡ no_token))
        ⊎ ((¬ Holds ((r).0).cpu.lr n id)
            × (pending_at ((r).0) id ≡ pending_at b id)
            × (token_of ((r).0) id ≡ token_of b id))
  step_moved w id t = elim (ℕ_discrete best id) [
    | yes e ↦ rw (← e) (
        let (p, q) = w.untouched best small gone in
        inl (held w, p ∙ pend1 best small ∙ ground arith, q ∙ tok1 best small ∙ ground arith))
    | no ne ↦
        let (sp, st) = other_same id (bounded id t) ne in
        elim (w.moved id (still id t ne)) [
          | inl h ↦ inl h
          | inr (h, p, q) ↦ inr (h, p ∙ sp, q ∙ st)
        ]
  ]

  step_ordered :
      Rest
      → (i id : ℕ) → i < n
      → lr_in_flight (get_or b.cpu.lr i 0) ≡ false
      → Busy ((r).0).cpu.lr i
      → bit k id ≡ true
      → (¬ Holds ((r).0).cpu.lr n id)
      → Before b (lr_vintid (get_or ((r).0).cpu.lr i 0)) id
  step_ordered w i id l f t s h = elim (ℕ_discrete slot i) [
    | yes e ↦ rw (← e) (rw (in_slot_vintid w) (first_of id s))
    | no ne ↦ elim (ℕ_discrete best id) [
      | yes e ↦ absurd (h (rw (← e) (held w)))
      | no other ↦
          let u = unchanged i ne in
          let v' = lr_vintid (get_or ((r).0).cpu.lr i 0) in
          elim (w.ordered i id l (rw u f) t (still id s other) h) [
            | inl lt ↦ inl (omega (arith, prio1 v', prio1 id))
            | inr (eq, le) ↦ inr (sym (prio1 v') ∙ eq ∙ prio1 id, le)
          ]
    ]
  ]

  step-IsRefilled : Rest → IsRefilled n k b r
  step-IsRefilled w = record {
    bank = w.bank;
    ends = w.ends;
    same_priority = λ id. w.same_priority id ∙ prio1 id;
    stays = λ i l t. let u = unchanged i (not_slot i t) in w.stays i l (rw u t) ∙ u;
    token_stays = λ i l t.
        let ne = not_slot i t in
        w.token_stays i l (rw (unchanged i ne) t)
        ∙ rw (lr_token-inject n b best slot v small inside free fresh_best)
            (get_or-set_ne b.cpu.lr_token slot i (token_of b best) no_token ne);
    taken = step_taken w;
    untouched = λ id l f.
        let ne : best ≢ id = λ e. cc (ap (bit k) e) in
        let (p, q) = w.untouched id l (k1-bit id ∙ ground arith) in
        let (sp, st) = other_same id l ne in (p ∙ sp, q ∙ st);
    moved = step_moved w;
    all = λ e id t. elim (ℕ_discrete best id) [
      | yes q ↦ rw (← q) (held w)
      | no ne ↦ w.all e id (still id t ne)
    ];
    full = w.full;
    left = λ e. let (id, t, h) = w.left e in (id, (was id t).0, h);
    ordered = step_ordered w;
  }

pub refill_loop-IsRefilled :
    (fuel n k : ℕ) (b : Bank)
    → IsBank n b
    → AreCandidates n k b
    → free_count b.cpu.lr n < fuel
    → IsRefilled n k b (refill_loop fuel n k b)
unfolding refill_loop
refill_loop-IsRefilled zero n k b v c f = absurd (omega arith)
refill_loop-IsRefilled (suc fuel) n k b v c f = elim (choice b k c.word v.bytes) [
  | nothing e clear ↦
      rw e (idle-IsRefilled n k b v c false (λ _. clear) (λ x. absurd (cc)) (λ x. absurd (cc)))
  | something small here prio first_of ↦
      let test : (chosen b k == max_intid) ≡ false = ground arith in
      rw test (elim (free_from-IsFree b.cpu.lr 0 n) [
        | inl (e, busy) ↦
            let full : (free_from b.cpu.lr 0 n == n) ≡ true = ground arith in
            rw full (
              idle-IsRefilled n k b v c true (λ x. absurd (cc))
                (λ _ i l. busy i (omega arith) (omega arith)) (λ _. (chosen b k, here)))
        | inr (_, below, free) ↦
            let inside : free_from b.cpu.lr 0 n < n = omega arith in
            let slot = free_from b.cpu.lr 0 n in
            let some_free : (slot == n) ≡ false = ground arith in
            let fresh_best = c.fresh (chosen b k) here in
            let entered = entry_lem n b (chosen b k) slot v small inside free fresh_best in
            let left =
              free_count-set b.cpu.lr n slot (entry_of b (chosen b k)) inside
                (omega (arith, v.slots)) free (entered).0 in
            rw (some_free, prio)
              (step-IsRefilled n k b slot v c small here first_of inside free _ (
                refill_loop-IsRefilled fuel n _ _
                  (inject-IsBank n b (chosen b k) slot v small inside free fresh_best)
                  (inject-AreCandidates n b (chosen b k) slot v small inside free fresh_best k c)
                  (rw (lr-inject n b (chosen b k) slot v small inside free fresh_best)
                    (omega arith))))
      ])
]
