-- ===== src/Service/Timer/Drain.antt =====
-- The expiry loop: the driver pops until nothing is due
-- (src/components/service/soft_timer/include/soft_timer/timer_queue.hpp).
use novavisor.Base.{ℕ, zero, suc, ◌≤◌, ◌<◌}
use novavisor.Base.{◌≡◌, refl, sym, ap, ◌∙◌, ◌≢◌, ◌⊎◌, inl, inr}
use novavisor.Base.{Bool, true, none, List}
use novavisor.Base.{arith}
use novavisor.Base.{length, get_or, get_or-set_ne}
use novavisor.Base.{count_if, count_if-le, count_if-set}
use novavisor.Base.{get_elem?-lt}
use novavisor.Service.Timer.{Slot, empty_slot, disarm}
use novavisor.Service.Timer.{pop_expired, no_deadline}
use novavisor.Service.Timer.Earliest.{pop_expired-IsPop, Armed}

module _ {F : Type 0} where
  -- The queue after at most `fuel` pops.
  abbrev pub drain : ℕ → List (Slot F) → ℕ → List (Slot F)
  drain zero slots now = slots
  drain (suc fuel) slots now = drain fuel ((pop_expired slots now).1) now

  abbrev is_armed : Slot F → Bool
  is_armed s = s.armed

  pop_counts :
      (slots : List (Slot F)) (now : ℕ)
      → ((pop_expired slots now).0 ≡ none)
        ⊎ (suc (count_if is_armed ((pop_expired slots now).1)) ≡ count_if is_armed slots)
  pop_counts slots now = elim (pop_expired-IsPop slots now) [
    | inl n ↦ inl n.0
    | inr (e, some_e, p) ↦
        let (s, a, cb, arg, d, rest) = p.popped in
        let (inside, get) = get_elem?-lt slots e.slot s empty_slot a.0 in
        let count = count_if-set is_armed slots e.slot (disarm s) empty_slot inside in
        let here : (get_or slots e.slot empty_slot).armed ≡ true = ap (λ x. x.armed) get ∙ a.1 in
        let after = ap (count_if is_armed) rest in inr (ground (arith, count, here, after))
  ]

  quiet :
      (slots : List (Slot F)) (now fuel : ℕ)
      → (pop_expired slots now).0 ≡ none
      → (pop_expired (drain fuel slots now) now).0 ≡ none
  quiet slots now zero h = h
  quiet slots now (suc fuel) h = elim (pop_expired-IsPop slots now) [
    | inl (n, same, l) ↦
        quiet ((pop_expired slots now).1) now fuel (ap (λ q. (pop_expired q now).0) same ∙ h)
    | inr (e, some_e, p) ↦ absurd (cc (some_e, h))
  ]

  drained :
      (fuel : ℕ) (slots : List (Slot F)) (now : ℕ)
      → count_if is_armed slots ≤ fuel
      → (pop_expired (drain fuel slots now) now).0 ≡ none
  drained zero slots now h = elim (pop_counts slots now) [
    | inl n ↦ n
    | inr c ↦ absurd (omega arith)
  ]
  drained (suc fuel) slots now h = elim (pop_counts slots now) [
    | inl n ↦ quiet slots now (suc fuel) n
    | inr c ↦ drained fuel ((pop_expired slots now).1) now (omega (arith, h))
  ]

  -- A pop leaves a slot that is not due as it is.
  pop_spares :
      (slots : List (Slot F)) (now i : ℕ)
      → now < (get_or slots i empty_slot).deadline
      → get_or ((pop_expired slots now).1) i empty_slot ≡ get_or slots i empty_slot
  pop_spares slots now i late = elim (pop_expired-IsPop slots now) [
    | inl (_, same, _) ↦ ap (λ q. get_or q i empty_slot) same
    | inr (e, _, p) ↦
        let (s, a, _, _, d, rest) = p.popped in
        let (_, get) = get_elem?-lt slots e.slot s empty_slot a.0 in
        let ne : e.slot ≢ i = λ q. absurd (
          omega (
            arith,
            p.due,
            d,
            late,
            ap (λ x. x.deadline) (ap (λ j. get_or slots j empty_slot) (sym q) ∙ get),
          )) in
        ap (λ q. get_or q i empty_slot) rest ∙ get_or-set_ne slots e.slot i (disarm s) empty_slot ne
  ]

  drain_spares :
      (fuel : ℕ) (slots : List (Slot F)) (now i : ℕ)
      → now < (get_or slots i empty_slot).deadline
      → get_or (drain fuel slots now) i empty_slot ≡ get_or slots i empty_slot
  drain_spares zero slots now i late = refl
  drain_spares (suc fuel) slots now i late =
      let one = pop_spares slots now i late in
      drain_spares fuel ((pop_expired slots now).1) now i (rw one late) ∙ one

  -- With no timer armed again in between, as many pops as the queue has slots leave no armed slot whose deadline has come, but for a slot with the deadline that stands for none; and a slot whose deadline has not come is left as it was.
  pub drain_ends :
      (slots : List (Slot F)) (now : ℕ)
      → ((i : ℕ) (s : Slot F)
          → Armed (drain (length slots) slots now) i s
          → s.deadline ≤ now
          → no_deadline ≤ s.deadline)
        × ((i : ℕ)
            → now < (get_or slots i empty_slot).deadline
            → get_or (drain (length slots) slots now) i empty_slot ≡ get_or slots i empty_slot)
  drain_ends slots now =
      let q = drain (length slots) slots now in
      let over = drained (length slots) slots now (count_if-le is_armed slots) in
      let quiet_queue : (i : ℕ) (s : Slot F)
          → Armed q i s
          → s.deadline ≤ now
          → no_deadline ≤ s.deadline =
        elim (pop_expired-IsPop q now) [
          | inl (_, _, none_due) ↦ none_due
          | inr (e, popped, _) ↦ absurd (cc (popped, over))
        ] in
      (quiet_queue, λ i late. drain_spares (length slots) slots now i late)
