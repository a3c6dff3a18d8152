-- ===== src/Vcpu/Switch/Invariant/Loop.antt =====
-- The idle loop of a core (sched.cpp, `block_current` and `schedule_out`).
use novavisor.Base.{ℕ, zero, suc, ◌<◌}
use novavisor.Base.{◌≡◌, refl, sym, ap, ◌∙◌, ◌≢◌, inl, inr}
use novavisor.Base.{Bool, true, false, not, ◌&&◌, List, [], ◌∷◌}
use novavisor.Base.{arith, dec_lt, ℕ_discrete}
use novavisor.Base.{ltb, ◌==◌, ltb→lt, lt→ltb, ==_iff, Bool-cases}
use novavisor.Vcpu.Sched.{State, running, blocked, is_ready, is_running, slice_needed}
use novavisor.Vcpu.Sched.RoundRobin.{no_vcpu}
use novavisor.Vcpu.Switch.{Vcpu, CoreSched, Machine}
use novavisor.Vcpu.Switch.{timer_armed, halts, Outcome, states_of, count}
use novavisor.Vcpu.Switch.{pick, update, with_state, state_at}
use novavisor.Vcpu.Switch.{set_state, block}
use novavisor.Vcpu.Switch.{switch_to, enter_next}
use novavisor.Vcpu.Switch.{schedule_out, resumed, halted, waiting}
use novavisor.Vcpu.Switch.Views.{length-update}
use novavisor.Vcpu.Switch.Views.{state_at-set}
use novavisor.Vcpu.Switch.Swap.{reschedule_same}
use novavisor.Vcpu.Switch.Invariant.{Owns, IsSteady, IsScheduled}
use novavisor.Vcpu.Switch.Invariant.{reschedule-IsScheduled, pick-Owns}
use novavisor.Vcpu.Switch.Invariant.{pick-none, set_state-IsSteady}
use novavisor.Vcpu.Switch.Invariant.Entering.{switch_to-IsScheduled}

module _ {A B : Type 0} where
  -- A vCPU that was not ready and is not made ready leaves the demand for a slice.
  slice_needed-set :
      (self : ℕ) (vs : List (Vcpu A B)) (affs : List ℕ) (i : ℕ) (st : State)
      → is_ready (state_at vs i) ≡ false
      → is_ready st ≡ false
      → slice_needed (states_of self (update vs i (with_state st)) affs)
        ≡ slice_needed (states_of self vs affs)
  unfolding update states_of state_at slice_needed
  slice_needed-set self [] affs i st h k = refl
  slice_needed-set self (v ∷ vs) [] zero st h k = refl
  slice_needed-set self (v ∷ vs) [] (suc i) st h k = slice_needed-set self vs [] i st h k
  slice_needed-set self (v ∷ vs) (a ∷ affs) zero st h k = elim (Bool-cases (a == self)) [
    | inl t ↦ rw (t, h, k) refl
    | inr f ↦ rw f refl
  ]
  slice_needed-set self (v ∷ vs) (a ∷ affs) (suc i) st h k =
      rw (slice_needed-set self vs affs i st h k) refl

  -- The resident vCPU that blocks keeps the invariant; its wake-up is armed with its timer.
  pub block-IsScheduled :
      (s : CoreSched A B)
      → IsScheduled s
      → s.current ≢ no_vcpu
      → state_at s.vcpus s.current ≡ running
      → IsScheduled (block s) × (state_at (block s).vcpus s.current ≡ blocked)
  unfolding block set_state
  block-IsScheduled s (v, armed) some_here runs =
      let inside : s.current < count s = elim v.here [
        | inl e ↦ absurd (some_here e)
        | inr (l, _) ↦ l
      ] in
      let w = set_state-IsSteady s s.current blocked v inside (λ e. cc) in
      let need =
        slice_needed-set s.self s.vcpus s.affinity s.current blocked (ap is_ready runs) refl in
      let still = armed ∙ ap (λ b. not (s.current == no_vcpu) && b) (sym need) in
      let now_blocked = state_at-set s.vcpus s.current s.current blocked inside ∙ ground arith in
      elim (Bool-cases (timer_armed s.el1.cntv_ctl)) [
        | inl t ↦ rw t (
          (
            record {
              sizes = w.sizes;
              few = w.few;
              sole = w.sole;
              here = w.here;
              context = w.context;
            },
            still,
          ),
          now_blocked,
        )
        | inr f ↦ rw f (
          (
            record {
              sizes = w.sizes;
              few = w.few;
              sole = w.sole;
              here = w.here;
              context = w.context;
            },
            still,
          ),
          now_blocked,
        )
      ]

module _ {A B : Type 0} (guests : List ℕ) (eisr : List ℕ → ℕ) where
  -- A vCPU of this core runs, and it is the resident one.
  abbrev pub Runs : CoreSched A B → Type 0
  Runs s = IsScheduled s × Owns s s.current × (state_at s.vcpus s.current ≡ running)

  -- No vCPU of this core is ready.
  abbrev pub Idle : CoreSched A B → Type 0
  Idle s = (i : ℕ) → Owns s i → is_ready (state_at s.vcpus i) ≡ false

  pub enter_next-Runs :
      (s : CoreSched A B) → IsSteady s → pick s < count s → Runs (enter_next guests eisr s)
  unfolding enter_next set_state
  enter_next-Runs s v l =
      let (own, _) = pick-Owns s v l in
      elim (Bool-cases (pick s == s.current)) [
        | inr f ↦
            let ((w, armed), cur, runs) = switch_to-IsScheduled guests eisr s (pick s) v own in
            let moved : (switch_to guests eisr s (pick s)).current ≡ pick s = cur in
            let here : Owns (switch_to guests eisr s (pick s))
                (switch_to guests eisr s (pick s)).current =
              elim w.here [ inl e ↦ absurd (omega (arith, e, moved, l, v.few)) | inr o ↦ o ] in
            rw f (
              (w, armed),
              here,
              ap (state_at (switch_to guests eisr s (pick s)).vcpus) moved ∙ runs,
            )
        | inl t ↦
            let e = (==_iff (pick s) s.current).0 t in
            let (inside, mine) = rw e at own in
            let s1 = set_state s s.current running in
            let size = length-update s.vcpus s.current (with_state running) in
            let at = λ (j : ℕ). state_at-set s.vcpus s.current j running inside in
            let w : IsSteady s1 = record {
              sizes = v.sizes ∙ sym size;
              few = omega (arith, v.few, size);
              sole = λ j h a. elim (ℕ_discrete s.current j) [
                | yes q ↦ sym q
                | no q ↦ v.sole j (sym (at j ∙ ground arith) ∙ h) a
              ];
              here = inr (omega (arith, inside, size), mine);
              context = v.context;
            } in
            let (vs, cur, _, _, affs, selfs, _, _, _, _) = reschedule_same s1 in
            rw t (
              reschedule-IsScheduled s1 w,
              rw (vs, cur, affs, selfs) (omega (arith, inside, size), mine),
              rw (vs, cur) (at s.current ∙ ground arith),
            )
      ]

  -- The vCPU that the scan picks is the resident one afterwards.
  pub enter_next-current :
      (s : CoreSched A B)
      → IsSteady s
      → pick s < count s
      → (enter_next guests eisr s).current ≡ pick s
  unfolding enter_next set_state
  enter_next-current s v l =
      let (own, _) = pick-Owns s v l in
      elim (Bool-cases (pick s == s.current)) [
        | inr f ↦ let (_, cur, _) = switch_to-IsScheduled guests eisr s (pick s) v own in rw f cur
        | inl t ↦
            let e = (==_iff (pick s) s.current).0 t in
            let (_, cur, _, _, _, _, _, _, _, _) =
              reschedule_same (set_state s s.current running) in
            rw t (cur ∙ sym e)
      ]

  -- What the handlers of an interrupt do keeps the invariant.
  abbrev pub Keeps : (CoreSched A B × Machine → CoreSched A B × Machine) → Type 0
  Keeps d = (s : CoreSched A B) (m : Machine) → IsScheduled s → IsScheduled (d (s, m)).0

  abbrev pub AllKeep : List (CoreSched A B × Machine → CoreSched A B × Machine) → Type 0
  AllKeep [] = Unit
  AllKeep (d ∷ ds) = Keeps d × AllKeep ds

  -- Where the idle loop may end.
  abbrev pub Ends : Outcome A B → Type 0
  Ends (resumed s) = Runs s
  Ends (halted s) = IsScheduled s × Idle s
  Ends (waiting s) = IsScheduled s × Idle s

  idling_same :
      (s : CoreSched A B) (b : Bool) → IsScheduled s → IsScheduled (record s { idling = b })
  idling_same s b (v, armed) = (
    record { sizes = v.sizes; few = v.few; sole = v.sole; here = v.here; context = v.context },
    armed,
  )

  Runs-here :
      (s : CoreSched A B)
      → IsScheduled s
      → (not (s.current == no_vcpu) && is_running (state_at s.vcpus s.current)) ≡ true
      → Runs s
  unfolding is_running
  Runs-here s (v, armed) t =
      ((v, armed), elim v.here [ inl e ↦ absurd (ground arith) | inr o ↦ o ], ground arith)

  -- The idle loop of a core keeps the scheduler's invariant whatever keeps it does in an interrupt; it ends in a guest only with this core's resident vCPU running, and it halts or goes on waiting only while none of this core's vCPUs is ready.
  pub schedule_out-Ends :
      (drains : List (CoreSched A B × Machine → CoreSched A B × Machine)) (s : CoreSched A B)
      (m : Machine)
      → IsScheduled s
      → AllKeep drains
      → Ends (schedule_out guests eisr drains (s, m))
  unfolding schedule_out
  schedule_out-Ends [] s m (v, armed) keep = elim (Bool-cases (ltb (pick s) (count s))) [
    | inl t ↦ rw t (enter_next-Runs s v (ltb→lt _ _ t))
    | inr f ↦ rw f (elim (Bool-cases (halts m)) [
      | inl h ↦ rw h ((v, armed), pick-none s v (ground arith))
      | inr h ↦ rw h ((v, armed), pick-none s v (ground arith))
    ])
  ]
  schedule_out-Ends (d ∷ ds) s m (v, armed) (k, keep) = elim (Bool-cases (ltb (pick s) (count s))) [
    | inl t ↦ rw t (enter_next-Runs s v (ltb→lt _ _ t))
    | inr f ↦ rw f (elim (Bool-cases (halts m)) [
      | inl h ↦ rw h ((v, armed), pick-none s v (ground arith))
      | inr h ↦
          let r = d (record s { idling = true }, m) in
          let s2 = record (r).0 { idling = false } in
          let kept =
            idling_same ((r).0) false
              (k (record s { idling = true }) m (idling_same s true (v, armed))) in
          rw h
            (elim (Bool-cases
              (not (s2.current == no_vcpu) && is_running (state_at s2.vcpus s2.current))) [
                | inl g ↦ rw g (Runs-here s2 kept g)
                | inr g ↦ rw g (schedule_out-Ends ds s2 ((r).1) kept keep)
              ])
    ])
  ]

  -- A core with a ready vCPU never idles: whatever interrupts may come, it leaves at once with the one that the scan picks, which is its own and was ready, running as the resident one.
  pub schedule_out_works :
      (drains : List (CoreSched A B × Machine → CoreSched A B × Machine)) (s : CoreSched A B)
      (m : Machine) (i : ℕ)
      → IsScheduled s
      → Owns s i
      → is_ready (state_at s.vcpus i) ≡ true
      → Owns s (pick s)
        × (is_ready (state_at s.vcpus (pick s)) ≡ true)
        × ((enter_next guests eisr s).current ≡ pick s)
        × (schedule_out guests eisr drains (s, m) ≡ resumed (enter_next guests eisr s))
        × Runs (enter_next guests eisr s)
  unfolding schedule_out
  schedule_out_works drains s m i (v, armed) own r =
      let found : pick s < count s = elim (dec_lt (pick s) (count s)) [
        | yes l ↦ l
        | no g ↦ absurd (cc (pick-none s v (omega arith) i own, r))
      ] in
      let (mine, chosen) = pick-Owns s v found in
      (
        mine,
        chosen,
        enter_next-current s v found,
        leaves drains s m (lt→ltb _ _ found),
        enter_next-Runs s v found,
      )
    where
      leaves :
          (drains : List (CoreSched A B × Machine → CoreSched A B × Machine)) (s : CoreSched A B)
          (m : Machine)
          → ltb (pick s) (count s) ≡ true
          → schedule_out guests eisr drains (s, m) ≡ resumed (enter_next guests eisr s)
      leaves [] s m t = rw t refl
      leaves (d ∷ ds) s m t = rw t refl
