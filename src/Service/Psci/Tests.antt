-- ===== src/Service/Psci/Tests.antt =====
-- Calls of `CPU_ON` in both conventions.
use novavisor.Base.{◌≡◌, refl, ◌≢◌, ◌↔◌}
use novavisor.Base.{arith}
use novavisor.Service.Psci.{psci_fn_cpu_on}
use novavisor.Service.Psci.{psci_fn_features}
use novavisor.Service.Psci.{psci_success}
use novavisor.Service.Psci.{not_supported, dispatch}
use novavisor.Service.Psci.Discovery.{features_agree}

reserved_refused : dispatch 2214592519 0 ≡ not_supported
reserved_refused = refl

features_agree_example :
    ((dispatch psci_fn_features psci_fn_cpu_on).ret ≡ psci_success)
    ↔ (dispatch psci_fn_cpu_on 1 ≢ not_supported)
features_agree_example =
    features_agree psci_fn_cpu_on 1 (omega arith) refl (λ e. absurd (omega (arith, e)))
