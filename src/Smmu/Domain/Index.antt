-- ===== src/Smmu/Domain/Index.antt =====
-- The streams of each VM (src/components/device/smmu/include/smmu/domain_model.hpp).
use novavisor.Base.{ℕ, zero, suc, ◌+◌, ◌%◌, ◌^◌, ◌≤◌, ◌<◌}
use novavisor.Base.{◌≡◌, refl, sym, ap, ◌∙◌}
use novavisor.Base.{not, ◌||◌, List, [], ◌∷◌, ◌++◌}
use novavisor.Base.{arith, ℕ_discrete}
use novavisor.Base.{leb, ◌==◌, if◌then◌else◌}
use novavisor.Base.{if-cases, length, get_or, set, replicate}
use novavisor.Base.{length-set, length-append, get_or-set_self, get_or-set_ne}
use novavisor.Smmu.Domain.{StreamBinding, configured, max_guests, index_from, build_stream_index}
use novavisor.Smmu.Domain.{streams_of}

-- The streams of a table, from stream `sid` on, that a VM owns, in order.
abbrev pub owned : ℕ → ℕ → List StreamBinding → List ℕ
owned vm sid [] = []
owned vm sid (b ∷ bindings) =
    let rest = owned vm (suc sid) bindings in if b.owner_vm == vm then sid ∷ rest else rest

append_nil : (l : List ℕ) → l ++ [] ≡ l
append_nil [] = refl
append_nil (x ∷ l) = ap (λ t. x ∷ t) (append_nil l)

append_assoc : (l m n : List ℕ) → (l ++ m) ++ n ≡ l ++ (m ++ n)
append_assoc [] m n = refl
append_assoc (x ∷ l) m n = ap (λ t. x ∷ t) (append_assoc l m n)

-- What the loop keeps true before stream `sid`.
record IsIndex (index : List (List ℕ)) (sid : ℕ) : Type 0 where
  rows : length index ≡ max_guests
  short : (v : ℕ) → length (get_or index v []) ≤ sid

abbrev advanced : ℕ → List (List ℕ) → ℕ → StreamBinding → List (List ℕ)
advanced max_streams index sid b =
    let row = get_or index b.owner_vm [] in
    if not (configured b) || leb max_guests b.owner_vm || leb max_streams (length row)
    then index
    else set index b.owner_vm (row ++ (sid % 2 ^ 16 ∷ []))

advanced-IsIndex :
    (max_streams : ℕ) (index : List (List ℕ)) (sid : ℕ) (b : StreamBinding)
    → IsIndex index sid
    → IsIndex (advanced max_streams index sid b) (suc sid)
advanced-IsIndex max_streams index sid b i =
    let row = get_or index b.owner_vm [] in
    let new = row ++ (sid % 2 ^ 16 ∷ []) in
    if-cases (λ n. IsIndex n (suc sid))
      (not (configured b) || leb max_guests b.owner_vm || leb max_streams (length row))
      (λ t. record { rows = i.rows; short = λ v. omega (arith, i.short v) })
      (λ f. record {
        rows = length-set index b.owner_vm new ∙ i.rows;
        short = λ v. elim (ℕ_discrete b.owner_vm v) [
          | yes e ↦
              let at : get_or (set index b.owner_vm new) v [] ≡ new =
                ap (λ k. get_or (set index b.owner_vm new) k []) (sym e)
                ∙ get_or-set_self index b.owner_vm new [] (ground (arith, f, i.rows)) in
              rw at (omega (arith, length-append row (sid % 2 ^ 16 ∷ []), i.short b.owner_vm))
          | no n ↦ rw (get_or-set_ne index b.owner_vm v new [] n) (omega (arith, i.short v))
        ];
      })

advanced-row :
    (max_streams : ℕ) (index : List (List ℕ)) (sid vm : ℕ) (b : StreamBinding)
    → IsIndex index sid
    → sid < max_streams
    → sid < 2 ^ 16
    → vm < max_guests
    → get_or (advanced max_streams index sid b) vm []
      ≡ get_or index vm [] ++ (if b.owner_vm == vm then sid ∷ [] else [])
advanced-row max_streams index sid vm b i room word inside =
    let row = get_or index b.owner_vm [] in
    let new = row ++ (sid % 2 ^ 16 ∷ []) in
    let small : sid % 2 ^ 16 ≡ sid = omega (arith, word) in
    elim (ℕ_discrete b.owner_vm vm) [
      | yes e ↦
          let taken : advanced max_streams index sid b ≡ set index b.owner_vm new =
            ground (arith, e, inside, i.short b.owner_vm, room) in
          ap (λ n. get_or n vm []) taken
          ∙ ap (λ k. get_or (set index b.owner_vm new) k []) (sym e)
          ∙ get_or-set_self index b.owner_vm new [] (omega (arith, e, inside, i.rows))
          ∙ ap (λ k. get_or index k [] ++ (sid % 2 ^ 16 ∷ [])) e
          ∙ ap (λ k. get_or index vm [] ++ (k ∷ [])) small
          ∙ ap (λ t. get_or index vm [] ++ t) (ground (arith, e))
      | no n ↦
          if-cases
            (λ x.
              get_or x vm [] ≡ get_or index vm [] ++ (if b.owner_vm == vm then sid ∷ [] else []))
            (not (configured b) || leb max_guests b.owner_vm || leb max_streams (length row))
            (λ t.
              sym (append_nil (get_or index vm []))
              ∙ ap (λ t. get_or index vm [] ++ t) (ground (arith, n)))
            (λ f.
              get_or-set_ne index b.owner_vm vm new [] n
              ∙ sym (append_nil (get_or index vm []))
              ∙ ap (λ t. get_or index vm [] ++ t) (ground (arith, n)))
    ]

index_from-owned :
    (max_streams : ℕ) (index : List (List ℕ)) (sid vm : ℕ) (bindings : List StreamBinding)
    → IsIndex index sid
    → sid + length bindings ≤ max_streams
    → sid + length bindings ≤ 2 ^ 16
    → vm < max_guests
    → get_or (index_from max_streams index sid bindings) vm []
      ≡ get_or index vm [] ++ owned vm sid bindings
index_from-owned max_streams index sid vm [] i room word inside =
    sym (append_nil (get_or index vm []))
index_from-owned max_streams index sid vm (b ∷ bindings) i room word inside =
    index_from-owned max_streams (advanced max_streams index sid b) (suc sid) vm bindings
      (advanced-IsIndex max_streams index sid b i) (omega (arith, room)) (omega (arith, word))
      inside
    ∙ ap (λ r. r ++ owned vm (suc sid) bindings)
        (advanced-row max_streams index sid vm b i (omega (arith, room)) (omega (arith, word))
          inside)
    ∙ append_assoc (get_or index vm []) (if b.owner_vm == vm then sid ∷ [] else [])
        (owned vm (suc sid) bindings)
    ∙ ap (λ t. get_or index vm [] ++ t)
        (if-cases (λ t. t ++ owned vm (suc sid) bindings ≡ owned vm sid (b ∷ bindings))
          (b.owner_vm == vm) (λ t. ground (arith, t)) (λ f. ground (arith, f)))

empty_row : (n v : ℕ) → ◌≡◌ {A = List ℕ} (get_or (replicate n []) v []) []
empty_row zero v = refl
empty_row (suc n) zero = refl
empty_row (suc n) (suc v) = empty_row n v

blank : (n v : ℕ) → length {A = ℕ} (get_or (replicate n []) v []) ≤ 0
blank n v = rw (empty_row n v) (omega arith)

-- The index of a table that fits it lists for every VM exactly the streams that VM owns, in order.
pub streams_of-owned :
    (max_streams : ℕ) (bindings : List StreamBinding) (vm : ℕ)
    → length bindings ≤ max_streams
    → max_streams ≤ 2 ^ 16
    → vm < max_guests
    → streams_of (build_stream_index max_streams bindings) vm ≡ owned vm 0 bindings
streams_of-owned max_streams bindings vm room word inside =
    let i : IsIndex (replicate max_guests []) 0 = record {
      rows = refl;
      short = λ v. blank max_guests v;
    } in
    let built =
      index_from-owned max_streams (replicate max_guests []) 0 vm bindings i (omega (arith, room))
        (omega (arith, room, word)) inside in
    if-cases (λ l. l ≡ owned vm 0 bindings) (leb max_guests vm)
      (λ t. absurd (ground (arith, t, inside)))
      (λ f. built ∙ ap (λ r. r ++ owned vm 0 bindings) (empty_row max_guests vm))
