-- ===== src/Service/Psci.antt =====
-- The guest's PSCI implementation: src/components/service/psci/include/psci/psci_model.hpp, with the
-- constants of src/nova/abi/psci.h.
use novavisor.Base.{ℕ, ◌-◌, ◌%◌, ◌^◌, bit_and, bit_or}
use novavisor.Base.{Bool, true, false, not, ◌&&◌, ◌||◌, Option, none, some, List, [], ◌∷◌}
use novavisor.Base.{◌==◌, if◌then◌else◌}
use novavisor.Base.{bit_not}
use novavisor.Service.Smccc
pub mod Twin
pub mod Discovery
mod Tests

abbrev pub psci_fn_version : ℕ
psci_fn_version = 2214592512

abbrev pub psci_fn_cpu_suspend : ℕ
psci_fn_cpu_suspend = 2214592513

abbrev pub psci_fn_cpu_off : ℕ
psci_fn_cpu_off = 2214592514

abbrev pub psci_fn_cpu_on : ℕ
psci_fn_cpu_on = 2214592515

abbrev pub psci_fn_affinity_info : ℕ
psci_fn_affinity_info = 2214592516

abbrev pub psci_fn_migrate_info_type : ℕ
psci_fn_migrate_info_type = 2214592518

abbrev pub psci_fn_system_off : ℕ
psci_fn_system_off = 2214592520

abbrev pub psci_fn_system_reset : ℕ
psci_fn_system_reset = 2214592521

abbrev pub psci_fn_features : ℕ
psci_fn_features = 2214592522

abbrev pub psci_fn_smc64 : ℕ
psci_fn_smc64 = 2 ^ 30

abbrev pub psci_version_1_1 : ℕ
psci_version_1_1 = 65537

abbrev pub psci_tos_not_present_mp : ℕ
psci_tos_not_present_mp = 2

abbrev pub psci_success : ℕ
psci_success = 0

-- `-1` as a 64-bit word.
abbrev pub psci_not_supported : ℕ
psci_not_supported = 2 ^ 64 - 1

pub data Action : Type 0 where
  no_action : Action
  system_off : Action
  system_reset : Action
  cpu_on : Action
  cpu_off : Action
  cpu_suspend : Action
  affinity_info : Action

pub record Verdict : Type 0 where
  pub claimed : Bool
  pub action : Action
  pub ret : ℕ

abbrev pub in_range : ℕ → Bool
in_range fid = bit_and fid (bit_not 32 (bit_or psci_fn_smc64 31)) == psci_fn_version

abbrev pub strip_smc64 : ℕ → ℕ
strip_smc64 fid = bit_and fid (bit_not 32 psci_fn_smc64)

pub record Entry : Type 0 where
  pub fid : ℕ
  pub action : Action
  pub ret : ℕ

abbrev entry : ℕ → Action → ℕ → Entry
entry fid action ret = record { fid = fid; action = action; ret = ret }

-- `kTable`.
abbrev pub table : List Entry
table =
    entry psci_fn_version no_action psci_version_1_1
    ∷ entry psci_fn_cpu_suspend cpu_suspend psci_success
    ∷ entry psci_fn_cpu_off cpu_off 0
    ∷ entry psci_fn_cpu_on cpu_on 0
    ∷ entry psci_fn_affinity_info affinity_info 0
    ∷ entry psci_fn_migrate_info_type no_action psci_tos_not_present_mp
    ∷ entry psci_fn_system_off system_off 0
    ∷ entry psci_fn_system_reset system_reset 0
    ∷ entry psci_fn_features no_action 0
    ∷ []

abbrev pub find_in : List Entry → ℕ → Option Entry
find_in [] base = none
find_in (e ∷ es) base = if e.fid == base then some e else find_in es base

abbrev pub find : ℕ → Option Entry
find fid = find_in table (strip_smc64 fid)

abbrev pub is_some : Option Entry → Bool
is_some none = false
is_some (some e) = true

abbrev pub is_implemented : ℕ → Bool
is_implemented fid = is_some (find fid)

-- `kInvalidTarget`.
abbrev pub invalid_target : ℕ
invalid_target = 2 ^ 64 - 1

abbrev pub target_vcpu : ℕ → ℕ
target_vcpu mpidr =
    if not (bit_and mpidr 1095233437440 == 0) then invalid_target else bit_and mpidr 255

-- What `PSCI_FEATURES` asks of the queried ID.
abbrev pub present : ℕ → Bool
present queried =
    (in_range queried && is_implemented queried)
    || (Smccc.in_range queried && Smccc.is_implemented queried)

abbrev pub not_supported : Verdict
not_supported = record { claimed = true; action = no_action; ret = psci_not_supported }

abbrev pub answer_entry : Option Entry → ℕ → Verdict
answer_entry none argument = not_supported
answer_entry (some e) argument =
    if e.fid == psci_fn_features
    then record {
      claimed = true;
      action = no_action;
      ret = if present (argument % 2 ^ 32) then psci_success else psci_not_supported;
    }
    else record { claimed = true; action = e.action; ret = e.ret }

abbrev pub dispatch : ℕ → ℕ → Verdict
dispatch fid argument =
    if not (in_range fid)
    then record { claimed = false; action = no_action; ret = 0 }
    else answer_entry (find fid) argument
