-- ===== src/Service/Smccc/Honest.antt =====
-- What the SMCCC service tells a guest about the hardware
-- (src/components/service/psci/include/psci/smccc_model.hpp).
use novavisor.Base.{ℕ}
use novavisor.Base.{◌≡◌, refl, sym, ap, ◌∙◌, ◌↔◌}
use novavisor.Base.{Option, none, some}
use novavisor.Base.{arith, ℕ_discrete}
use novavisor.Base.{◌==◌, if◌then◌else◌}
use novavisor.Service.Smccc.{smccc_fn_arch_features, smccc_fn_workaround_3}
use novavisor.Service.Smccc.{smccc_fn_workaround_2, smccc_fn_workaround_1}
use novavisor.Service.Smccc.{smccc_not_supported, smccc_not_required}
use novavisor.Service.Smccc.{SpeculationState, Mitigation, is_unaffected}
use novavisor.Service.Smccc.{branch_target_mitigation, store_bypass_mitigation}
use novavisor.Service.Smccc.{branch_history_mitigation}
use novavisor.Service.Smccc.{dispatch}
use novavisor.Service.Smccc.{unaffected, guest_mitigates, unknown}

-- The verdict that decides a workaround call.
abbrev pub workaround : ℕ → Option (SpeculationState → Mitigation)
workaround fid =
    if fid == smccc_fn_workaround_1
    then some branch_target_mitigation
    else if fid == smccc_fn_workaround_2
    then some store_bypass_mitigation
    else if fid == smccc_fn_workaround_3
    then some branch_history_mitigation
    else none

abbrev answer : Mitigation → ℕ
answer m = if is_unaffected m then smccc_not_required else smccc_not_supported

answer_iff : (m : Mitigation) → (answer m ≡ smccc_not_required) ↔ (m ≡ unaffected)
answer_iff unaffected = ((λ e. refl), (λ e. refl))
answer_iff guest_mitigates = ((λ e. absurd (omega arith)), (λ e. absurd (cc e)))
answer_iff unknown = ((λ e. absurd (omega arith)), (λ e. absurd (cc e)))

abbrev Answers : ℕ → ℕ → SpeculationState → (SpeculationState → Mitigation) → Type 0
Answers fid argument spec q =
    ((dispatch fid argument spec).ret ≡ answer (q spec))
    × ((dispatch smccc_fn_arch_features fid spec).ret ≡ answer (q spec))

answers :
    (fid argument : ℕ) (spec : SpeculationState) (q : SpeculationState → Mitigation)
    → workaround fid ≡ some q
    → Answers fid argument spec q
answers fid argument spec q h = elim (ℕ_discrete fid smccc_fn_workaround_1) [
  | yes e ↦
      let same : q ≡ branch_target_mitigation = cc (sym h ∙ ap workaround e) in
      rw e (rw same (refl, refl))
  | no a ↦ elim (ℕ_discrete fid smccc_fn_workaround_2) [
    | yes e ↦
        let same : q ≡ store_bypass_mitigation = cc (sym h ∙ ap workaround e) in
        rw e (rw same (refl, refl))
    | no b ↦ elim (ℕ_discrete fid smccc_fn_workaround_3) [
      | yes e ↦
          let same : q ≡ branch_history_mitigation = cc (sym h ∙ ap workaround e) in
          rw e (rw same (refl, refl))
      | no c ↦ absurd (ground (arith, h, a, b, c))
    ]
  ]
]

-- A workaround call answers that no mitigation is required exactly when the ID registers say that the processor is unaffected, and discovery answers for the call what the call answers.
pub workaround_honest :
    (fid argument : ℕ) (spec : SpeculationState) (q : SpeculationState → Mitigation)
    → workaround fid ≡ some q
    → (((dispatch fid argument spec).ret ≡ smccc_not_required) ↔ (q spec ≡ unaffected))
      × ((dispatch smccc_fn_arch_features fid spec).ret ≡ (dispatch fid argument spec).ret)
workaround_honest fid argument spec q h =
    let (called, asked) = answers fid argument spec q h in
    let decided = answer_iff (q spec) in
    (((λ e. decided.0 (sym called ∙ e)), (λ e. called ∙ decided.1 e)), asked ∙ sym called)
