-- ===== src/Service/Timer/Earliest.antt =====
-- Which slot expires first (src/components/service/soft_timer/include/soft_timer/timer_queue.hpp).
use novavisor.Base.{ℕ, zero, suc, ◌+◌, ◌≤◌, ◌<◌}
use novavisor.Base.{◌≡◌, refl, ap, ◌∙◌, ◌≢◌, ◌⊎◌, inl, inr}
use novavisor.Base.{true, false, ◌&&◌, none, some, List, [], ◌∷◌}
use novavisor.Base.{arith}
use novavisor.Base.{ltb, leb, if◌then◌else◌}
use novavisor.Base.{if-cases, length, get_elem?, get_or, set}
use novavisor.Base.{get_elem?-lt}
use novavisor.Service.Timer.{no_deadline, Slot, Expired, empty_slot, disarm}
use novavisor.Service.Timer.{next_from, next_deadline, due_from, pop_expired}

-- The armed slot `s` of a queue stands at index `i`.
abbrev pub Armed : {F : Type 0} → List (Slot F) → ℕ → Slot F → Type 0
Armed slots i s = (get_elem? slots i ≡ some s) × (s.armed ≡ true)

module _ {F : Type 0} where
  next_le : (slots : List (Slot F)) (next : ℕ) → next_from slots next ≤ next
  next_le [] next = omega arith
  next_le (s ∷ slots) next =
      ground (arith, next_le slots (if s.armed && ltb s.deadline next then s.deadline else next))

  next_below :
      (slots : List (Slot F)) (next i : ℕ) (s : Slot F)
      → Armed slots i s
      → next_from slots next ≤ s.deadline
  next_below [] next i s (e, a) = absurd (cc e)
  next_below (t ∷ slots) next zero s (e, a) =
      let same : t ≡ s = cc e in
      let le = next_le slots (if t.armed && ltb t.deadline next then t.deadline else next) in
      let d : t.deadline ≡ s.deadline = ap (λ x. x.deadline) same in
      let up : t.armed ≡ true = ap (λ x. x.armed) same ∙ a in ground (arith, le, d, up)
  next_below (t ∷ slots) next (suc i) s (e, a) =
      next_below slots (if t.armed && ltb t.deadline next then t.deadline else next) i s (e, a)

  next_from_some :
      (slots : List (Slot F)) (next : ℕ)
      → (next_from slots next ≡ next)
        ⊎ ((i : ℕ) × (s : Slot F) × Armed slots i s × (next_from slots next ≡ s.deadline))
  next_from_some [] next = inl refl
  next_from_some (t ∷ slots) next =
      let P : ℕ → Type 0 = λ d.
        (next_from slots d ≡ next)
        ⊎ ((i : ℕ) × (s : Slot F) × Armed (t ∷ slots) i s × (next_from slots d ≡ s.deadline)) in
      let later : (v : ℕ)
          → ((i : ℕ) × (s : Slot F) × Armed slots i s × (v ≡ s.deadline))
          → ((i : ℕ) × (s : Slot F) × Armed (t ∷ slots) i s × (v ≡ s.deadline)) =
        λ v (i, s, a, e). (suc i, s, a, e) in
      if-cases P (t.armed && ltb t.deadline next)
        (λ h. elim (next_from_some slots t.deadline) [
          | inl e ↦ inr (0, t, (refl, ground arith), e)
          | inr f ↦ inr (later (next_from slots t.deadline) f)
        ])
        (λ h. elim (next_from_some slots next) [
          | inl e ↦ inl e
          | inr f ↦ inr (later (next_from slots next) f)
        ])

  -- The hardware is programmed for the earliest armed deadline: no armed slot expires before it, and it is the deadline of an armed slot unless it is the value for none.
  pub next_deadline-IsLeast :
      (slots : List (Slot F))
      → ((i : ℕ) (s : Slot F) → Armed slots i s → next_deadline slots ≤ s.deadline)
        × ((next_deadline slots ≡ no_deadline)
            ⊎ ((i : ℕ) × (s : Slot F) × Armed slots i s × (next_deadline slots ≡ s.deadline)))
  next_deadline-IsLeast slots =
      ((λ i s a. next_below slots no_deadline i s a), next_from_some slots no_deadline)

  -- What the loop of a pop has found when it ends.
  record IsDue (slots : List (Slot F)) (base now k d k0 d0 : ℕ) : Type 0 where
    least : (i : ℕ) (s : Slot F) → Armed slots i s → s.deadline ≤ now → d ≤ s.deadline
    below : d ≤ d0
    found :
        ((k ≡ k0) × (d ≡ d0))
        ⊎ ((i : ℕ) × (s : Slot F) × Armed slots i s
            × (k ≡ base + i)
            × (d ≡ s.deadline)
            × (d ≤ now)
            × (d < d0))

  least_cons :
      (t : Slot F) (slots : List (Slot F)) (now d : ℕ)
      → (t.armed ≡ true → t.deadline ≤ now → d ≤ t.deadline)
      → ((i : ℕ) (s : Slot F) → Armed slots i s → s.deadline ≤ now → d ≤ s.deadline)
      → (i : ℕ) (s : Slot F) → Armed (t ∷ slots) i s
      → s.deadline ≤ now
      → d ≤ s.deadline
  least_cons t slots now d here rest zero s (e, a) h =
      let same : t ≡ s = cc e in
      let deadline : t.deadline ≡ s.deadline = ap (λ x. x.deadline) same in
      omega (arith, deadline, h, here (ap (λ x. x.armed) same ∙ a) (omega (arith, deadline, h)))
  least_cons t slots now d here rest (suc i) s a h = rest i s a h

  take_it :
      (t : Slot F) (slots : List (Slot F)) (base now k0 d0 k d : ℕ)
      → (t.armed && leb t.deadline now && ltb t.deadline d0) ≡ true
      → IsDue slots (suc base) now k d base t.deadline
      → IsDue (t ∷ slots) base now k d k0 d0
  take_it t slots base now k0 d0 k d h r = record {
    least = least_cons t slots now d (λ a le. r.below) r.least;
    below = ground (arith, r.below);
    found = elim r.found [
      | inl e ↦ inr (
        0,
        t,
        (refl, ground arith),
        omega (arith, e.0),
        e.1,
        ground (arith, e.1),
        ground (arith, e.1),
      )
      | inr (i, s, a, at, e, le, lt) ↦
          inr (suc i, s, a, omega (arith, at), e, le, ground (arith, lt))
    ];
  }

  leave_it :
      (t : Slot F) (slots : List (Slot F)) (base now k0 d0 k d : ℕ)
      → (t.armed && leb t.deadline now && ltb t.deadline d0) ≡ false
      → IsDue slots (suc base) now k d k0 d0
      → IsDue (t ∷ slots) base now k d k0 d0
  leave_it t slots base now k0 d0 k d h r = record {
    least = least_cons t slots now d (λ a le. ground (arith, r.below)) r.least;
    below = r.below;
    found = elim r.found [
      | inl e ↦ inl e
      | inr (i, s, a, at, e, le, lt) ↦ inr (suc i, s, a, omega (arith, at), e, le, lt)
    ];
  }

  due_from-IsDue :
      (slots : List (Slot F)) (base now k0 d0 : ℕ)
      → IsDue slots base now
          ((due_from slots base now k0 d0).0)
          ((due_from slots base now k0 d0).1)
          k0
          d0
  due_from-IsDue [] base now k0 d0 = record {
    least = λ i s (e, a) h. absurd (cc e);
    below = omega arith;
    found = inl (refl, refl);
  }
  due_from-IsDue (t ∷ slots) base now k0 d0 =
      if-cases {A = ℕ × ℕ} (λ r. IsDue (t ∷ slots) base now ((r).0) ((r).1) k0 d0)
        (t.armed && leb t.deadline now && ltb t.deadline d0)
        (λ h.
          take_it t slots base now k0 d0 ((due_from slots (suc base) now base t.deadline).0)
            ((due_from slots (suc base) now base t.deadline).1) h
            (due_from-IsDue slots (suc base) now base t.deadline))
        (λ h.
          leave_it t slots base now k0 d0 ((due_from slots (suc base) now k0 d0).0)
            ((due_from slots (suc base) now k0 d0).1) h (due_from-IsDue slots (suc base) now k0 d0))

  -- What a pop returns, and the queue it leaves.
  pub record IsPop (slots : List (Slot F)) (now : ℕ) (e : Expired F) (rest : List (Slot F))
      : Type 0 where
    pub popped :
        (s : Slot F) × Armed slots e.slot s
        × (e.callback ≡ s.callback)
        × (e.argument ≡ s.argument)
        × (e.deadline ≡ s.deadline)
        × (rest ≡ set slots e.slot (disarm s))
    pub due : e.deadline ≤ now
    pub earliest :
        (i : ℕ) (s : Slot F) → Armed slots i s → s.deadline ≤ now → e.deadline ≤ s.deadline

  abbrev taken : List (Slot F) → ℕ → ℕ → Expired F
  taken slots k d =
      let s = get_or slots k empty_slot in
      record { callback = s.callback; argument = s.argument; slot = k; deadline = d }

  pop_taken :
      (slots : List (Slot F)) (now : ℕ)
      → (due_from slots 0 now (length slots) no_deadline).0 ≢ length slots
      → pop_expired slots now ≡ (
        some (
            taken slots
              ((due_from slots 0 now (length slots) no_deadline).0)
              ((due_from slots 0 now (length slots) no_deadline).1)),
        set slots ((due_from slots 0 now (length slots) no_deadline).0) (
            disarm (get_or slots ((due_from slots 0 now (length slots) no_deadline).0) empty_slot)),
      )
  pop_taken slots now h = ground arith

  -- A pop returns a due slot with the earliest deadline, callback and argument included, and disarms it alone; it returns nothing, and changes nothing, only when no armed slot with a deadline other than the value for none is due.
  pub pop_expired-IsPop :
      (slots : List (Slot F)) (now : ℕ)
      → (((pop_expired slots now).0 ≡ none)
          × ((pop_expired slots now).1 ≡ slots)
          × ((i : ℕ) (s : Slot F) → Armed slots i s → s.deadline ≤ now → no_deadline ≤ s.deadline))
        ⊎ ((e : Expired F) × ((pop_expired slots now).0 ≡ some e)
            × IsPop slots now e ((pop_expired slots now).1))
  pop_expired-IsPop slots now =
      let w = due_from-IsDue slots 0 now (length slots) no_deadline in
      let due = due_from slots 0 now (length slots) no_deadline in
      let s = get_or slots due.0 empty_slot in
      elim w.found [
        | inl (k, d) ↦
            inl
              (ground (arith, k), ground (arith, k), (λ i s a h. omega (arith, d, w.least i s a h)))
        | inr (i, t, a, at, e, le, lt) ↦
            let (inside, get) = get_elem?-lt slots i t empty_slot a.0 in
            let index : due.0 ≡ i = omega (arith, at) in
            let slot : s ≡ t = ap (λ j. get_or slots j empty_slot) index ∙ get in
            let pop = pop_taken slots now (omega (arith, index, inside)) in
            inr (
              taken slots due.0 due.1,
              ap (λ p. p.0) pop,
              record {
                popped = (
                  t,
                  (ap (get_elem? slots) index ∙ a.0, a.1),
                  ap (λ x. x.callback) slot,
                  ap (λ x. x.argument) slot,
                  e,
                  ap (λ p. p.1) pop ∙ ap (λ x. set slots due.0 (disarm x)) slot,
                );
                due = le;
                earliest = w.least;
              },
            )
      ]
