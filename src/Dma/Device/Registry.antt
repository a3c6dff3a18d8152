-- ===== src/Dma/Device/Registry.antt =====
-- Loading the registry from the assignments
-- (src/components/device/dma_device/include/dma_device/lifecycle_model.hpp).
use novavisor.Base.{ℕ, zero, suc, ◌≤◌}
use novavisor.Base.{◌≡◌, refl, sym, ap, ◌∙◌, inl, inr}
use novavisor.Base.{Bool, true, false, not, ◌||◌, Option, none, some, List, [], ◌∷◌, ◌++◌}
use novavisor.Base.{arith}
use novavisor.Base.{◌==◌, if◌then◌else◌, Bool-cases}
use novavisor.Base.{Option-cases, if-cases, length, get_elem?}
use novavisor.Base.{length-append}
use novavisor.Dma.Policy.{no_vm, no_device, Assignment}
use novavisor.Dma.Device.{Entry}
use novavisor.Dma.Device.{fresh_entry, find, add_new, add, load_from, load}

abbrev pub Registered : List Entry → ℕ → ℕ → Type 0
Registered entries device owner =
    (e : Entry) × (find entries device ≡ some e) × (e.owner_vm ≡ owner)

find-append :
    (entries : List Entry) (n e : Entry) (device : ℕ)
    → find entries device ≡ some e
    → find (entries ++ (n ∷ [])) device ≡ some e
find-append [] n e device h = absurd (cc h)
find-append (x ∷ entries) n e device h = ground (arith, h, find-append entries n e device)

find-last :
    (entries : List Entry) (n : Entry)
    → find entries n.device_id ≡ none
    → find (entries ++ (n ∷ [])) n.device_id ≡ some n
find-last [] n h = ground arith
find-last (x ∷ entries) n h = ground (arith, h, find-last entries n)

-- What an accepted assignment does to the registry.
record IsAdded (capacity : ℕ) (entries : List Entry) (device owner : ℕ) (next : List Entry)
    : Type 0 where
  mine : Registered next device owner
  others : (d o : ℕ) → Registered entries d o → Registered next d o
  fits : length next ≤ capacity

new-IsAdded :
    (capacity : ℕ) (entries : List Entry) (device owner : ℕ)
    → length entries ≤ capacity
    → find entries device ≡ none
    → (add_new capacity entries device owner).0 ≡ true
    → IsAdded capacity entries device owner ((add_new capacity entries device owner).1)
new-IsAdded capacity entries device owner h absent ok =
    let n = fresh_entry device owner in
    if-cases {A = Bool × List Entry}
      (λ r. (r).0 ≡ true → IsAdded capacity entries device owner ((r).1))
      ((device == no_device) || (owner == no_vm) || (length entries == capacity))
      (λ t refused. absurd (cc refused))
      (λ f took. record {
        mine = (n, find-last entries n absent, refl);
        others = λ d o (e, found, at). (e, find-append entries n e d found, at);
        fits = ground (arith, length-append entries (n ∷ []), h, f);
      })
      ok

add-IsAdded :
    (capacity : ℕ) (entries : List Entry) (device owner : ℕ)
    → length entries ≤ capacity
    → (add capacity entries device owner).0 ≡ true
    → IsAdded capacity entries device owner ((add capacity entries device owner).1)
add-IsAdded capacity entries device owner h ok = elim (Option-cases (find entries device)) [
  | inl absent ↦
      let same : add capacity entries device owner ≡ add_new capacity entries device owner =
        ap (λ o. answer capacity entries device owner o) absent in
      rw same (new-IsAdded capacity entries device owner h absent (ap (λ r. r.0) (sym same) ∙ ok))
  | inr (e, found) ↦
      let same : add capacity entries device owner ≡ ((e.owner_vm == owner), entries) =
        ap (λ o. answer capacity entries device owner o) found in
      let at : (e.owner_vm == owner) ≡ true = ap (λ r. r.0) (sym same) ∙ ok in
      rw same (record { mine = (e, found, ground (arith, at)); others = λ d o r. r; fits = h })
]
  where
    answer : ℕ → List Entry → ℕ → ℕ → Option Entry → Bool × List Entry
    answer capacity entries device owner (some e) = ((e.owner_vm == owner), entries)
    answer capacity entries device owner none = add_new capacity entries device owner

loads_step :
    (capacity : ℕ) (entries : List Entry) (b : Assignment) (rest : List Assignment)
    → (load_from capacity entries (b ∷ rest)).0 ≡ true
    → ((add capacity entries b.device_id b.vm).0 ≡ true)
      × (load_from capacity entries (b ∷ rest)
          ≡ load_from capacity ((add capacity entries b.device_id b.vm).1) rest)
loads_step capacity entries b rest ok =
    let added = add capacity entries b.device_id b.vm in
    elim (Bool-cases added.0) [
      | inl t ↦ (t, ap (λ c. if not c then (false, []) else load_from capacity added.1 rest) t)
      | inr f ↦ absurd (
          cc (
            sym ok
            ∙ ap (λ r. r.0)
                (ap (λ c. if not c then (false, []) else load_from capacity added.1 rest) f)))
    ]

each :
    (capacity : ℕ) (entries : List Entry) (b : Assignment) (rest : List Assignment)
    → Registered entries b.device_id b.vm
    → ((d o : ℕ) → Registered entries d o → Registered ((load_from capacity entries rest).1) d o)
    → ((i : ℕ) (a : Assignment)
        → get_elem? rest i ≡ some a
        → Registered ((load_from capacity entries rest).1) a.device_id a.vm)
    → (i : ℕ) (a : Assignment) → get_elem? (b ∷ rest) i ≡ some a
    → Registered ((load_from capacity entries rest).1) a.device_id a.vm
each capacity entries b rest mine keep later zero a e =
    let same : b ≡ a = cc e in rw (sym same) (keep b.device_id b.vm mine)
each capacity entries b rest mine keep later (suc i) a e = later i a e

loads :
    (capacity : ℕ) (entries : List Entry) (rest : List Assignment)
    → length entries ≤ capacity
    → (load_from capacity entries rest).0 ≡ true
    → ((d o : ℕ) → Registered entries d o → Registered ((load_from capacity entries rest).1) d o)
      × ((i : ℕ) (a : Assignment)
          → get_elem? rest i ≡ some a
          → Registered ((load_from capacity entries rest).1) a.device_id a.vm)
      × (length ((load_from capacity entries rest).1) ≤ capacity)
loads capacity entries [] h ok = ((λ d o r. r), (λ i a e. absurd (cc e)), h)
loads capacity entries (b ∷ rest) h ok =
    let added = add capacity entries b.device_id b.vm in
    let step = loads_step capacity entries b rest ok in
    let one = add-IsAdded capacity entries b.device_id b.vm h step.0 in
    let ih = loads capacity added.1 rest one.fits (ap (λ r. r.0) (sym step.1) ∙ ok) in
    rw (step.1) (
      (λ d o r. ih.0 d o (one.others d o r)),
      (λ i a e. each capacity added.1 b rest one.mine ih.0 ih.1 i a e),
      ih.2,
    )

-- A registry that loads has an entry for the device of every assignment, owned by its VM, and fits its array.
pub load-Registered :
    (capacity : ℕ) (assignments : List Assignment) (i : ℕ) (a : Assignment)
    → (load capacity assignments).0 ≡ true
    → get_elem? assignments i ≡ some a
    → Registered ((load capacity assignments).1) a.device_id a.vm
      × (length ((load capacity assignments).1) ≤ capacity)
load-Registered capacity assignments i a ok ai =
    let all = loads capacity [] assignments (omega arith) ok in (all.1 i a ai, all.2)
