-- ===== src/Service/Smccc.antt =====
-- The SMCCC architecture service: src/components/service/psci/include/psci/smccc_model.hpp, with the
-- mitigation verdicts of src/nova/arch/cpu_features.hpp and the constants of
-- src/nova/abi/smccc.h.
use novavisor.Base.{ℕ, ◌-◌, ◌%◌, ◌^◌, bit_and}
use novavisor.Base.{Bool, true, false, not, ◌&&◌, ◌||◌, Option, none, some, List, [], ◌∷◌}
use novavisor.Base.{leb, ◌==◌, if◌then◌else◌}
pub mod Honest
mod Tests

abbrev pub smccc_fn_version : ℕ
smccc_fn_version = 2147483648

abbrev pub smccc_fn_arch_features : ℕ
smccc_fn_arch_features = 2147483649

abbrev pub smccc_fn_workaround_3 : ℕ
smccc_fn_workaround_3 = 2147500031

abbrev pub smccc_fn_workaround_2 : ℕ
smccc_fn_workaround_2 = 2147516415

abbrev pub smccc_fn_workaround_1 : ℕ
smccc_fn_workaround_1 = 2147516416

abbrev pub smccc_version_1_1 : ℕ
smccc_version_1_1 = 65537

abbrev pub smccc_success : ℕ
smccc_success = 0

-- `-1` and `-2` as 64-bit words.
abbrev pub smccc_not_supported : ℕ
smccc_not_supported = 2 ^ 64 - 1

abbrev pub smccc_not_required : ℕ
smccc_not_required = 2 ^ 64 - 2

-- The speculation fields of the ID registers that the verdicts read.
pub record SpeculationState : Type 0 where
  pub csv2 : ℕ
  pub csv2_frac : ℕ
  pub ssbs : ℕ
  pub clrbhb : Bool

pub data Mitigation : Type 0 where
  unaffected : Mitigation
  guest_mitigates : Mitigation
  unknown : Mitigation

abbrev pub is_unaffected : Mitigation → Bool
is_unaffected unaffected = true
is_unaffected _ = false

abbrev pub branch_target_mitigation : SpeculationState → Mitigation
branch_target_mitigation s = if leb 1 s.csv2 then unaffected else unknown

abbrev pub store_bypass_mitigation : SpeculationState → Mitigation
store_bypass_mitigation s = if not (s.ssbs == 0) then unaffected else unknown

abbrev pub branch_history_mitigation : SpeculationState → Mitigation
branch_history_mitigation s =
    if leb 3 s.csv2 || ((s.csv2 == 1) && leb 2 s.csv2_frac)
    then unaffected
    else if s.clrbhb
    then guest_mitigates
    else unknown

pub record Verdict : Type 0 where
  pub claimed : Bool
  pub ret : ℕ

abbrev pub in_range : ℕ → Bool
in_range fid = bit_and fid 4294901760 == 2147483648

pub record Entry : Type 0 where
  pub fid : ℕ
  pub query : Option (SpeculationState → Mitigation)
  pub ret : ℕ

abbrev entry : ℕ → Option (SpeculationState → Mitigation) → ℕ → Entry
entry fid query ret = record { fid = fid; query = query; ret = ret }

-- `kTable`.
abbrev pub table : List Entry
table =
    entry smccc_fn_version none smccc_version_1_1
    ∷ entry smccc_fn_arch_features none 0
    ∷ entry smccc_fn_workaround_1 (some branch_target_mitigation) 0
    ∷ entry smccc_fn_workaround_2 (some store_bypass_mitigation) 0
    ∷ entry smccc_fn_workaround_3 (some branch_history_mitigation) 0
    ∷ []

abbrev pub find_in : List Entry → ℕ → Option Entry
find_in [] fid = none
find_in (e ∷ es) fid = if e.fid == fid then some e else find_in es fid

abbrev pub find : ℕ → Option Entry
find fid = find_in table fid

abbrev pub is_implemented : ℕ → Bool
is_implemented fid = elim (find fid) [ none ↦ false | some e ↦ true ]

abbrev pub entry_answer : Entry → SpeculationState → ℕ
entry_answer e spec = elim e.query [
  | none ↦ smccc_success
  | some q ↦ if is_unaffected (q spec) then smccc_not_required else smccc_not_supported
]

abbrev pub feature_answer : ℕ → SpeculationState → ℕ
feature_answer fid spec = elim (find fid) [
  | none ↦ smccc_not_supported
  | some e ↦ entry_answer e spec
]

abbrev has_query : Entry → Bool
has_query e = elim e.query [ none ↦ false | some q ↦ true ]

abbrev claim : ℕ → Verdict
claim ret = record { claimed = true; ret = ret }

abbrev pub dispatch : ℕ → ℕ → SpeculationState → Verdict
dispatch fid argument spec =
    if not (in_range fid) then record { claimed = false; ret = 0 } else elim (find fid) [
      | none ↦ claim smccc_not_supported
      | some e ↦
          if e.fid == smccc_fn_arch_features
          then claim (feature_answer (argument % 2 ^ 32) spec)
          else claim (if has_query e then entry_answer e spec else e.ret)
    ]
