-- ===== src/Service/Psci/Discovery.antt =====
-- Discovery and dispatch (src/components/service/psci/include/psci/psci_model.hpp).
use novavisor.Base.{ℕ, ◌%◌, ◌^◌, ◌<◌, bit_and, bit_or}
use novavisor.Base.{◌≡◌, refl, sym, ap, ◌∙◌, ◌≢◌, ◌↔◌, inl, inr}
use novavisor.Base.{Bool, true, false, not, ◌&&◌, some, List, [], ◌∷◌}
use novavisor.Base.{arith}
use novavisor.Base.{◌==◌, if◌then◌else◌, Bool-cases}
use novavisor.Base.{if-cases}
use novavisor.Base.{bit, bit_not, bit-bit_and}
use novavisor.Service.Smccc
use novavisor.Service.Psci.{psci_fn_version}
use novavisor.Service.Psci.{psci_fn_features, psci_fn_smc64}
use novavisor.Service.Psci.{psci_success}
use novavisor.Service.Psci.{psci_not_supported, in_range, strip_smc64, Entry}
use novavisor.Service.Psci.{table, find_in, find, is_some, is_implemented}
use novavisor.Service.Psci.{present, not_supported, answer_entry, dispatch}

-- A row whose constant answer is not the refusal.
abbrev accepts : Entry → Bool
accepts e = not (e.ret == psci_not_supported)

abbrev all_accept : List Entry → Bool
all_accept [] = true
all_accept (e ∷ es) = accepts e && all_accept es

accepted :
    (e : Entry) (base argument : ℕ)
    → accepts e ≡ true
    → e.fid ≡ base
    → base ≢ psci_fn_features
    → answer_entry (some e) argument ≢ not_supported
accepted e base argument ok at other same = let r = ap (λ v. v.ret) same in ground (arith, r)

found_accepts :
    (es : List Entry) (base argument : ℕ)
    → all_accept es ≡ true
    → base ≢ psci_fn_features
    → (is_some (find_in es base) ≡ true) ↔ (answer_entry (find_in es base) argument ≢ not_supported)
found_accepts [] base argument all other = ((λ e. absurd (cc e)), (λ ne. absurd (ne refl)))
found_accepts (e ∷ es) base argument all other =
    let ih = found_accepts es base argument (ground (arith, all)) other in
    if-cases (λ o. (is_some o ≡ true) ↔ (answer_entry o argument ≢ not_supported)) (e.fid == base)
      (λ t.
        ((λ y. accepted e base argument (ground arith) (ground (arith, t)) other), (λ ne. refl)))
      (λ f. ih)

bit_26 : (x m y : ℕ) → bit m 26 ≡ true → bit_and x m ≡ y → bit x 26 ≡ bit y 26
bit_26 x m y h e = ground (arith, bit-bit_and x m 26, ap (λ k. bit k 26) e)

apart : (fid : ℕ) → in_range fid ≡ true → Smccc.in_range fid ≡ false
unfolding bit
apart fid h = elim (Bool-cases (Smccc.in_range fid)) [
  | inr f ↦ f
  | inl t ↦
      let a =
        bit_26 fid (bit_not 32 (bit_or psci_fn_smc64 31)) psci_fn_version refl (ground arith) in
      let b = bit_26 fid 4294901760 2147483648 refl (ground arith) in absurd (cc (a, b))
]

-- `PSCI_FEATURES` reports a PSCI function exactly when a call of it is not refused, whatever the argument of the call; the query itself is the one function whose answer depends on its argument.
pub features_agree :
    (fid argument : ℕ)
    → fid < 2 ^ 32
    → in_range fid ≡ true
    → strip_smc64 fid ≢ psci_fn_features
    → ((dispatch psci_fn_features fid).ret ≡ psci_success) ↔ (dispatch fid argument ≢ not_supported)
features_agree fid argument h range other =
    let word : fid % 2 ^ 32 ≡ fid = omega arith in
    let seen : present fid ≡ is_implemented fid = ground (arith, range, apart fid range) in
    let asked : (dispatch psci_fn_features fid).ret
        ≡ (if is_implemented fid then psci_success else psci_not_supported) =
      ap (λ b. if b then psci_success else psci_not_supported) (ap present word ∙ seen) in
    let called : dispatch fid argument ≡ answer_entry (find fid) argument = ground (arith, range) in
    let decided = found_accepts table (strip_smc64 fid) argument refl other in
    (
      (λ e ref. decided.0 (ground (arith, asked, e)) (sym called ∙ ref)),
      (λ ne. ground (arith, asked, decided.1 (λ ref. ne (called ∙ ref)))),
    )
