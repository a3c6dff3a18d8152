-- ===== src/Vcpu/Sched/Tests.antt =====
-- Tables of four vCPUs.
use novavisor.Base.{ℕ, ◌<◌}
use novavisor.Base.{◌≡◌, refl, inl}
use novavisor.Base.{some, List, [], ◌∷◌}
use novavisor.Base.{arith}
use novavisor.Base.{get_elem?}
use novavisor.Vcpu.Sched.{State, pick_from, pick_next}
use novavisor.Vcpu.Sched.{ready, running, blocked}
use novavisor.Vcpu.Sched.Pick.{picks}
use novavisor.Vcpu.Sched.Pick.{picks_serve}

abbrev states : List State
states = ready ∷ blocked ∷ running ∷ ready ∷ []

nearest_after : pick_next states 2 ≡ 3
unfolding pick_next pick_from
nearest_after = refl

picks_serve_example :
    (k : ℕ) × (k < 4) × (get_elem? (picks (states ∷ states ∷ states ∷ states ∷ []) 3) k ≡ some 0)
picks_serve_example =
    picks_serve 4 0 (states ∷ states ∷ states ∷ states ∷ []) 3 (omega arith, inl (omega arith))
      (omega arith) ((refl, refl), ((refl, refl), ((refl, refl), ((refl, refl), tt)))) (omega arith)
