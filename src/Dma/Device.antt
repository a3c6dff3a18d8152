-- ===== src/Dma/Device.antt =====
-- The registry of assigned devices and the verdicts of its walks:
-- src/components/device/dma_device/include/dma_device/lifecycle_model.hpp. The array of entries with
-- its count is the list of the entries in use, and `capacity` the array's size.
use novavisor.Base.{ℕ}
use novavisor.Base.{Bool, true, false, not, ◌&&◌, ◌||◌, Option, none, some, List, [], ◌∷◌, ◌++◌}
use novavisor.Base.{◌==◌, if◌then◌else◌}
use novavisor.Base.{length}
use novavisor.Dma.Policy.{no_vm, no_device, Assignment}
pub mod Registry
pub mod Failure
mod Tests

pub data State : Type 0 where
  unavailable : State
  quiesced : State
  quiescing : State
  detaching : State
  resuming : State
  active : State
  failed : State

abbrev pub is_unavailable : State → Bool
is_unavailable unavailable = true
is_unavailable _ = false

abbrev pub is_active : State → Bool
is_active active = true
is_active _ = false

abbrev pub is_failed : State → Bool
is_failed failed = true
is_failed _ = false

pub record Entry : Type 0 where
  pub device_id : ℕ
  pub owner_vm : ℕ
  pub state : State
  pub generation : ℕ
  pub deadline : ℕ
  pub bus_master_blocked : Bool

pub data ScanAction : Type 0 where
  skip : ScanAction
  fail : ScanAction
  pending : ScanAction
  collect : ScanAction

abbrev pub classify_begin_quiesce : State → ScanAction
classify_begin_quiesce unavailable = skip
classify_begin_quiesce quiesced = skip
classify_begin_quiesce quiescing = pending
classify_begin_quiesce detaching = pending
classify_begin_quiesce active = collect
classify_begin_quiesce failed = fail
classify_begin_quiesce resuming = fail

abbrev pub classify_quiescing : State → Bool → ScanAction
classify_quiescing unavailable blocked = skip
classify_quiescing quiesced blocked = skip
classify_quiescing quiescing blocked = if blocked then collect else pending
classify_quiescing detaching blocked = pending
classify_quiescing resuming blocked = pending
classify_quiescing active blocked = pending
classify_quiescing failed blocked = fail

abbrev pub classify_resume : State → ScanAction
classify_resume unavailable = skip
classify_resume quiesced = collect
classify_resume quiescing = fail
classify_resume detaching = fail
classify_resume resuming = fail
classify_resume active = fail
classify_resume failed = fail

abbrev pub fresh_entry : ℕ → ℕ → Entry
fresh_entry device owner = record {
  device_id = device;
  owner_vm = owner;
  state = unavailable;
  generation = 0;
  deadline = 0;
  bus_master_blocked = true;
}

abbrev pub find : List Entry → ℕ → Option Entry
find [] device = none
find (e ∷ entries) device = if e.device_id == device then some e else find entries device

abbrev pub add_new : ℕ → List Entry → ℕ → ℕ → Bool × List Entry
add_new capacity entries device owner =
    if (device == no_device) || (owner == no_vm) || (length entries == capacity)
    then (false, entries)
    else (true, entries ++ (fresh_entry device owner ∷ []))

abbrev pub add : ℕ → List Entry → ℕ → ℕ → Bool × List Entry
add capacity entries device owner = elim (find entries device) [
  | some e ↦ (e.owner_vm == owner, entries)
  | none ↦ add_new capacity entries device owner
]

abbrev pub load_from : ℕ → List Entry → List Assignment → Bool × List Entry
load_from capacity entries [] = (true, entries)
load_from capacity entries (a ∷ rest) =
    let added = add capacity entries a.device_id a.vm in
    let loaded = load_from capacity added.1 rest in if not added.0 then (false, []) else loaded

abbrev pub load : ℕ → List Assignment → Bool × List Entry
load capacity assignments = load_from capacity [] assignments

-- The loop of `owner_active`, with whether an entry of the VM was found so far.
abbrev pub active_from : List Entry → ℕ → ℕ → Bool → Bool
active_from [] vm generation found = found
active_from (e ∷ entries) vm generation found =
    if not (e.owner_vm == vm) || is_unavailable e.state
    then active_from entries vm generation found
    else if not (is_active e.state) || (generation == 0) || not (e.generation == generation)
    then false
    else active_from entries vm generation true

abbrev pub owner_active : List Entry → ℕ → ℕ → Bool
owner_active entries vm generation = active_from entries vm generation false

abbrev pub owner_failed : List Entry → ℕ → Bool
owner_failed [] vm = false
owner_failed (e ∷ entries) vm =
    if (e.owner_vm == vm) && is_failed e.state then true else owner_failed entries vm

abbrev pub failed_entry : ℕ → Entry → Entry
failed_entry vm e =
    if (e.owner_vm == vm) && not (is_unavailable e.state)
    then record e { state = failed; generation = 0; bus_master_blocked = true }
    else e

abbrev pub fail_owner : List Entry → ℕ → List Entry
fail_owner [] vm = []
fail_owner (e ∷ entries) vm = failed_entry vm e ∷ fail_owner entries vm
