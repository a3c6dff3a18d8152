-- ===== src/Smmu/Domain.antt =====
-- Stream ownership and translation contexts: src/components/device/smmu/include/smmu/domain_model.hpp.
use novavisor.Base.{suc, ◌^◌, ◌%◌, replicate, set}
use novavisor.Base.{ℕ, suc, ◌%◌, ◌^◌, bit_and}
use novavisor.Base.{Bool, true, false, not, ◌&&◌, ◌||◌, Option, List, [], ◌∷◌, ◌++◌}
use novavisor.Base.{ltb, leb, ◌==◌, if◌then◌else◌}
use novavisor.Base.{length, get_or, set, replicate}
use novavisor.Base.{first, reject, validate_all}
use novavisor.Dma.Range.{range_well_formed, range_contains}
use novavisor.Dma.Policy.{no_vm, GuestDescriptor}
pub mod Binding
pub mod Contexts
pub mod Index
mod Tests

pub data DomainState : Type 0 where
  detached : DomainState
  attached : DomainState
  quarantined : DomainState

abbrev pub is_attached : DomainState → Bool
is_attached attached = true
is_attached _ = false

pub record TranslationContext : Type 0 where
  pub owner_vm : ℕ
  pub vmid : ℕ
  pub root_pa : ℕ

-- `kNone` is the absence of an error.
pub data ContextError : Type 0 where
  invalid_owner : ContextError
  invalid_vmid : ContextError
  duplicate_vmid : ContextError
  unaligned_root : ContextError
  root_out_of_range : ContextError
  guest_pa_out_of_range : ContextError
  duplicate_root : ContextError

pub record StreamBinding : Type 0 where
  pub owner_vm : ℕ
  pub generation : ℕ
  pub state : DomainState

abbrev pub configured : StreamBinding → Bool
configured b = not (b.owner_vm == no_vm)

-- `kMaxGuests`.
abbrev pub max_guests : ℕ
max_guests = 4

-- The streams of each VM; the count of a row is its length. The loop of `build_stream_index` from
-- stream `sid` on, for tables of `max_streams`.
abbrev pub index_from : ℕ → List (List ℕ) → ℕ → List StreamBinding → List (List ℕ)
index_from max_streams index sid [] = index
index_from max_streams index sid (b ∷ bindings) =
    let row = get_or index b.owner_vm [] in
    let next =
      if not (configured b) || leb max_guests b.owner_vm || leb max_streams (length row)
      then index
      else set index b.owner_vm (row ++ (sid % 2 ^ 16 ∷ [])) in
    index_from max_streams next (suc sid) bindings

abbrev pub build_stream_index : ℕ → List StreamBinding → List (List ℕ)
build_stream_index max_streams bindings =
    index_from max_streams (replicate max_guests []) 0 bindings

abbrev pub streams_of : List (List ℕ) → ℕ → List ℕ
streams_of index vm = if leb max_guests vm then [] else get_or index vm []

pub record FaultNotice : Type 0 where
  pub owner_vm : ℕ
  pub stream_id : ℕ
  pub generation : ℕ

abbrev pub notice_valid : FaultNotice → Bool
notice_valid n = not (n.owner_vm == no_vm) && not (n.generation == 0)

abbrev pub no_notice : FaultNotice
no_notice = record { owner_vm = no_vm; stream_id = 0; generation = 0 }

-- `collect_fault_notices`, from the notices collected so far; `quarantine` changes the state `W`.
abbrev pub collect_from :
    {W : Type 0}
    → ℕ
    → (W → ℕ → FaultNotice × W)
    → W
    → List FaultNotice
    → List ℕ
    → List FaultNotice × W
collect_from capacity quarantine w found [] = (found, w)
collect_from capacity quarantine w found (sid ∷ rest) =
    let next = quarantine w sid in
    let kept =
      if notice_valid next.0 && ltb (length found) capacity
      then found ++ (next.0 ∷ [])
      else found in
    collect_from capacity quarantine next.1 kept rest

abbrev pub snapshot_fault : StreamBinding → ℕ → FaultNotice
snapshot_fault b sid =
    if not (configured b) || not (is_attached b.state) || (b.generation == 0)
    then no_notice
    else record { owner_vm = b.owner_vm; stream_id = sid; generation = b.generation }

-- `kOutputAddressLimit`.
abbrev pub output_address_limit : ℕ
output_address_limit = 2 ^ 40

-- The checks of one context against its guest, in order.
abbrev pub context_here : List GuestDescriptor → Bool → ℕ → TranslationContext → Option ContextError
context_here guests vmid16 i c =
    let g = get_or guests i (record { load_pa = 0; ipa_base = 0; ipa_size = 0; vmid = 0 }) in
    first (reject (not (c.owner_vm == i)) invalid_owner) (
      first
        (reject ((c.vmid == 0) || not (c.vmid == g.vmid) || (not vmid16 && ltb 255 c.vmid))
          invalid_vmid)
        (first (reject (not (bit_and c.root_pa 4095 == 0)) unaligned_root) (
          first (reject (leb output_address_limit c.root_pa) root_out_of_range) (
            reject
              (not (range_well_formed g.load_pa g.ipa_size)
                || not (range_contains 0 output_address_limit g.load_pa g.ipa_size))
              guest_pa_out_of_range))))

abbrev pub context_pair : ℕ → TranslationContext → ℕ → TranslationContext → Option ContextError
context_pair i c j d =
    first (reject (c.vmid == d.vmid) duplicate_vmid)
      (reject (c.root_pa == d.root_pa) duplicate_root)

abbrev pub validate_contexts :
    List TranslationContext → List GuestDescriptor → Bool → Option ContextError
validate_contexts contexts guests vmid16 =
    first (reject (not (length contexts == length guests)) invalid_owner)
      (validate_all (context_here guests vmid16) context_pair [] 0 contexts)

abbrev pub configure_binding : StreamBinding → ℕ → ℕ → Bool × StreamBinding
configure_binding b owner guests =
    if leb guests owner || configured b
    then (false, b)
    else (true, record b { owner_vm = owner; state = detached })

abbrev pub can_attach : StreamBinding → ℕ → Bool
can_attach b generation = configured b && not (is_attached b.state) && ltb b.generation generation

abbrev pub attachment_matches : StreamBinding → ℕ → Bool
attachment_matches b generation =
    configured b && is_attached b.state && (b.generation == generation)

abbrev pub may_sit_at : StreamBinding → ℕ → Bool
may_sit_at b generation =
    if is_attached b.state then attachment_matches b generation else can_attach b generation

abbrev no_binding : StreamBinding
no_binding = record { owner_vm = no_vm; generation = 0; state = detached }

abbrev pub can_attach_vm : List StreamBinding → List ℕ → ℕ → Bool
can_attach_vm bindings [] generation = true
can_attach_vm bindings (sid ∷ sids) generation =
    if not (may_sit_at (get_or bindings sid no_binding) generation)
    then false
    else can_attach_vm bindings sids generation

abbrev pub mark_attached : StreamBinding → ℕ → Bool × StreamBinding
mark_attached b generation =
    if not (can_attach b generation)
    then (false, b)
    else (true, record b { generation = generation; state = attached })

abbrev pub mark_detached : StreamBinding → Bool × StreamBinding
mark_detached b =
    if not (configured b) || not (is_attached b.state)
    then (false, b)
    else (true, record b { state = detached })

abbrev pub mark_quarantined : StreamBinding → Bool × StreamBinding
mark_quarantined b =
    if not (configured b) then (false, b) else (true, record b { state = quarantined })
