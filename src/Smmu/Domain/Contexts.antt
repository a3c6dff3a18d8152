-- ===== src/Smmu/Domain/Contexts.antt =====
-- Translation contexts and fault notices (src/components/device/smmu/include/smmu/domain_model.hpp).
use novavisor.Base.{ℕ, ◌≤◌, ◌<◌}
use novavisor.Base.{◌≡◌, refl, ◌≢◌}
use novavisor.Base.{Bool, true, not, ◌&&◌, none, some, List, [], ◌∷◌, ◌++◌}
use novavisor.Base.{arith}
use novavisor.Base.{ltb, ◌==◌, if◌then◌else◌}
use novavisor.Base.{if-cases, length, get_elem?}
use novavisor.Base.{length-append}
use novavisor.Base.{count_if, count_if-le}
use novavisor.Base.{first-none, reject, reject-none, validate_all}
use novavisor.Base.{validate-pair}
use novavisor.Dma.Policy.{GuestDescriptor}
use novavisor.Smmu.Domain.{TranslationContext}
use novavisor.Smmu.Domain.{FaultNotice, notice_valid}
use novavisor.Smmu.Domain.{collect_from, context_here}
use novavisor.Smmu.Domain.{context_pair, validate_contexts}
use novavisor.Smmu.Domain.{invalid_owner, duplicate_vmid}
use novavisor.Smmu.Domain.{duplicate_root}

-- Under accepted contexts two guests share neither the tag of their translations nor their root table.
pub contexts_apart :
    (contexts : List TranslationContext) (guests : List GuestDescriptor) (vmid16 : Bool) (i j : ℕ)
    (c d : TranslationContext)
    → validate_contexts contexts guests vmid16 ≡ none
    → i < j
    → get_elem? contexts i ≡ some c
    → get_elem? contexts j ≡ some d
    → (d.vmid ≢ c.vmid) × (d.root_pa ≢ c.root_pa)
contexts_apart contexts guests vmid16 i j c d ok lt ci dj =
    let all =
      (first-none (reject (not (length contexts == length guests)) invalid_owner)
        (validate_all (context_here guests vmid16) context_pair [] 0 contexts) ok).1 in
    let (n, m, e) =
      validate-pair (context_here guests vmid16) context_pair [] 0 contexts i j c d all lt ci dj in
    let (v, r) =
      first-none (reject (d.vmid == c.vmid) duplicate_vmid)
        (reject (d.root_pa == c.root_pa) duplicate_root) e in
    let v' = reject-none (d.vmid == c.vmid) duplicate_vmid v in
    let r' = reject-none (d.root_pa == c.root_pa) duplicate_root r in
    ((λ s. ground arith), (λ s. ground arith))

count_if-last :
    (l : List FaultNotice) (n : FaultNotice)
    → notice_valid n ≡ true
    → count_if notice_valid l ≡ length l
    → count_if notice_valid (l ++ (n ∷ [])) ≡ length (l ++ (n ∷ []))
count_if-last [] n v e = ground (arith, v)
count_if-last (x ∷ l) n v e = ground (arith, v, count_if-last l n, count_if-le notice_valid l)

collect_all :
    {W : Type 0} (capacity : ℕ) (quarantine : W → ℕ → FaultNotice × W) (w : W)
    (found : List FaultNotice) (sids : List ℕ)
    → length found ≤ capacity
    → count_if notice_valid found ≡ length found
    → (length ((collect_from capacity quarantine w found sids).0) ≤ capacity)
      × (count_if notice_valid ((collect_from capacity quarantine w found sids).0)
          ≡ length ((collect_from capacity quarantine w found sids).0))
collect_all capacity quarantine w found [] h e = (h, e)
collect_all capacity quarantine w found (sid ∷ rest) h e =
    let n = (quarantine w sid).0 in
    let kept = if notice_valid n && ltb (length found) capacity then found ++ (n ∷ []) else found in
    let ok : (length kept ≤ capacity) × (count_if notice_valid kept ≡ length kept) =
      if-cases (λ l. (length l ≤ capacity) × (count_if notice_valid l ≡ length l))
        (notice_valid n && ltb (length found) capacity)
        (λ t. (
          ground (arith, length-append found (n ∷ []), t),
          count_if-last found n (ground (arith, t)) e,
        ))
        (λ f. (h, e)) in
    collect_all capacity quarantine (quarantine w sid).1 kept rest ok.0 ok.1

-- A batch holds valid notices only, and at most as many as its array.
pub collect_bounded :
    {W : Type 0} (capacity : ℕ) (quarantine : W → ℕ → FaultNotice × W) (w : W) (sids : List ℕ)
    → (length ((collect_from capacity quarantine w [] sids).0) ≤ capacity)
      × (count_if notice_valid ((collect_from capacity quarantine w [] sids).0)
          ≡ length ((collect_from capacity quarantine w [] sids).0))
collect_bounded capacity quarantine w sids =
    collect_all capacity quarantine w [] sids (omega arith) refl
