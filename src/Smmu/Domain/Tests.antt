-- ===== src/Smmu/Domain/Tests.antt =====
-- Two translation contexts and a stream.
use novavisor.Base.{◌≡◌, refl, ◌≢◌}
use novavisor.Base.{true, false, List, [], ◌∷◌}
use novavisor.Base.{arith}
use novavisor.Dma.Policy.{GuestDescriptor}
use novavisor.Smmu.Domain.{streams_of, build_stream_index}
use novavisor.Smmu.Domain.{TranslationContext}
use novavisor.Smmu.Domain.{StreamBinding}
use novavisor.Smmu.Domain.{mark_attached}
use novavisor.Smmu.Domain.{detached}
use novavisor.Smmu.Domain.Binding.{Request, run, attach_once}
use novavisor.Smmu.Domain.Binding
use novavisor.Smmu.Domain.Contexts.{contexts_apart}

abbrev stream : StreamBinding
stream = record { owner_vm = 1; generation = 2; state = detached }

attach_once_example :
    (mark_attached
      (run 2 ((mark_attached stream 5).1) (Binding.detach ∷ Binding.quarantine ∷ []))
      5).0
    ≡ false
attach_once_example =
    attach_once 2 stream 5 5 (Binding.detach ∷ Binding.quarantine ∷ []) refl (omega arith)

abbrev context_a : TranslationContext
context_a = record { owner_vm = 0; vmid = 1; root_pa = 4096 }

abbrev context_b : TranslationContext
context_b = record { owner_vm = 1; vmid = 2; root_pa = 8192 }

abbrev tenants : List GuestDescriptor
tenants =
    record { load_pa = 1048576; ipa_base = 1073741824; ipa_size = 65536; vmid = 1 }
    ∷ record { load_pa = 2097152; ipa_base = 1073741824; ipa_size = 65536; vmid = 2 }
    ∷ []

contexts_apart_example : (context_b.vmid ≢ context_a.vmid) × (context_b.root_pa ≢ context_a.root_pa)
contexts_apart_example =
    contexts_apart (context_a ∷ context_b ∷ []) tenants true 0 1 context_a context_b refl
      (omega arith) refl refl

abbrev bindings : List StreamBinding
bindings =
    stream
    ∷ record { owner_vm = 0; generation = 0; state = detached }
    ∷ record { owner_vm = 18446744073709551615; generation = 0; state = detached }
    ∷ stream
    ∷ []

two_streams : streams_of (build_stream_index 32 bindings) 1 ≡ 0 ∷ 3 ∷ []
two_streams = refl
