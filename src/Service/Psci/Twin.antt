-- ===== src/Service/Psci/Twin.antt =====
-- The two calling conventions (src/components/service/psci/include/psci/psci_model.hpp).
use novavisor.Base.{ℕ, ◌^◌, ◌<◌, bit_and, bit_or}
use novavisor.Base.{◌≡◌, refl, ap}
use novavisor.Base.{false}
use novavisor.Base.{arith, ℕ_discrete}
use novavisor.Base.{bit, bit_not, bit-bit_and, bit-bit_or, bit-pow}
use novavisor.Base.{bit-ext, bit_and-lt, bit_or-lt}
use novavisor.Base.{pow_lt}
use novavisor.Service.Psci.{psci_fn_smc64}
use novavisor.Service.Psci.{dispatch}

masked :
    (k m x : ℕ)
    → k < 32
    → m < 2 ^ 32
    → x < 2 ^ 32
    → bit m k ≡ false
    → bit_and (bit_or x (2 ^ k)) m ≡ bit_and x m
masked k m x kw mw xw off =
    bit-ext 32 (bit_and (bit_or x (2 ^ k)) m) (bit_and x m)
      (bit_and-lt 32 (bit_or x (2 ^ k)) m (bit_or-lt 32 x (2 ^ k) xw (pow_lt k 32 kw)))
      (bit_and-lt 32 x m xw)
      (λ i h.
        let lhs = bit-bit_and (bit_or x (2 ^ k)) m i in
        let mid = bit-bit_or x (2 ^ k) i in
        let rhs = bit-bit_and x m i in
        elim (ℕ_discrete k i) [
          | yes e ↦ ground (arith, lhs, rhs, off, ap (bit m) e)
          | no n ↦ ground (arith, lhs, mid, rhs, bit-pow k i)
        ])

-- Bit 30 picks the calling convention and never the function: an ID and its SMC64 twin get the same verdict.
pub twin :
    (fid argument : ℕ)
    → fid < 2 ^ 32
    → dispatch (bit_or fid psci_fn_smc64) argument ≡ dispatch fid argument
unfolding bit
twin fid argument h =
    let range =
      masked 30 (bit_not 32 (bit_or psci_fn_smc64 31)) fid (omega arith) (omega arith) h refl in
    let base = masked 30 (bit_not 32 psci_fn_smc64) fid (omega arith) (omega arith) h refl in
    rw range (rw base refl)
