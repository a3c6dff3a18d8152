-- ===== src/Base/Scan.antt =====
-- Validation loops: each element is tested alone and then against every earlier one, and the
-- first failure is returned.
use Prim.Native.Nat.{ℕ, zero, suc, ◌<◌}
use mathlib.Core.Path.{◌≡◌, refl, ◌∙◌}
use mathlib.Core.Bool.{Bool, true, false}
use mathlib.Core.List.{List, [], ◌∷◌, ◌++◌}
use mathlib.Core.Option.{Option, none, some}
use native.Mathlib.Omega.{arith}
use novavisor.Base.Lists.{length, get_elem?, get_or}

-- An early return: the first result that there is.
abbrev pub first {ℓ} : {E : Type ℓ} → Option E → Option E → Option E
first (some e) r = some e
first none r = r

pub first-none {ℓ} : {E : Type ℓ} (a b : Option E) → first a b ≡ none → (a ≡ none) × (b ≡ none)
first-none (some e) b h = absurd (cc h)
first-none none b h = (refl, h)

-- `if (c) return e;`
abbrev pub reject {ℓ} : {E : Type ℓ} → Bool → E → Option E
reject true e = some e
reject false e = none

pub reject-none {ℓ} : {E : Type ℓ} (c : Bool) (e : E) → reject c e ≡ none → c ≡ false
reject-none true e h = absurd (cc h)
reject-none false e h = refl

pub get_elem?-append {ℓ} :
    {A : Type ℓ} (xs ys : List A) (k : ℕ) (a : A)
    → get_elem? xs k ≡ some a
    → get_elem? (xs ++ ys) k ≡ some a
get_elem?-append [] ys k a h = absurd (cc h)
get_elem?-append (x ∷ xs) ys zero a h = h
get_elem?-append (x ∷ xs) ys (suc k) a h = get_elem?-append xs ys k a h

pub get_elem?-last {ℓ} :
    {A : Type ℓ} (xs : List A) (a : A) → get_elem? (xs ++ (a ∷ [])) (length xs) ≡ some a
get_elem?-last [] a = refl
get_elem?-last (x ∷ xs) a = get_elem?-last xs a

module _ {ℓ κ} {A : Type ℓ} {E : Type κ} where
  -- The inner loop, over the elements `earlier` from index `j` on.
  abbrev pub scan : (ℕ → A → Option E) → ℕ → List A → Option E
  scan test j [] = none
  scan test j (y ∷ ys) = first (test j y) (scan test (suc j) ys)

  -- The outer loop, at index `i`.
  abbrev pub validate_all :
      (ℕ → A → Option E) → (ℕ → A → ℕ → A → Option E) → List A → ℕ → List A → Option E
  validate_all here pair earlier i [] = none
  validate_all here pair earlier i (x ∷ xs) =
      first (here i x) (
        first (scan (pair i x) 0 earlier) (validate_all here pair (earlier ++ (x ∷ [])) (suc i) xs))

  pub scan-none :
      (test : ℕ → A → Option E) (j : ℕ) (ys : List A) (k : ℕ) (y : A)
      → scan test j ys ≡ none
      → get_elem? ys k ≡ some y
      → (n : ℕ) × (test n y ≡ none)
  scan-none test j [] k y h e = absurd (cc e)
  scan-none test j (z ∷ ys) zero y h e =
      (j, cc ((first-none (test j z) (scan test (suc j) ys) h).0, e))
  scan-none test j (z ∷ ys) (suc k) y h e =
      scan-none test (suc j) ys k y (first-none (test j z) (scan test (suc j) ys) h).1 e

  module _ (here : ℕ → A → Option E) (pair : ℕ → A → ℕ → A → Option E) where
    parts :
        (earlier : List A) (i : ℕ) (x : A) (xs : List A)
        → validate_all here pair earlier i (x ∷ xs) ≡ none
        → (here i x ≡ none)
          × (scan (pair i x) 0 earlier ≡ none)
          × (validate_all here pair (earlier ++ (x ∷ [])) (suc i) xs ≡ none)
    parts earlier i x xs h =
        let rest = validate_all here pair (earlier ++ (x ∷ [])) (suc i) xs in
        let outer = first-none (here i x) (first (scan (pair i x) 0 earlier) rest) h in
        let inner = first-none (scan (pair i x) 0 earlier) rest outer.1 in
        (outer.0, inner.0, inner.1)

    -- Every element passed its own test.
    pub validate-here :
        (earlier : List A) (i : ℕ) (xs : List A) (k : ℕ) (x : A)
        → validate_all here pair earlier i xs ≡ none
        → get_elem? xs k ≡ some x
        → (n : ℕ) × (here n x ≡ none)
    validate-here earlier i [] k x h e = absurd (cc e)
    validate-here earlier i (y ∷ xs) zero x h e = (i, cc ((parts earlier i y xs h).0, e))
    validate-here earlier i (y ∷ xs) (suc k) x h e =
        validate-here (earlier ++ (y ∷ [])) (suc i) xs k x (parts earlier i y xs h).2 e

    pub validate-earlier :
        (earlier : List A) (i : ℕ) (xs : List A) (k l : ℕ) (y x : A)
        → validate_all here pair earlier i xs ≡ none
        → get_elem? earlier k ≡ some y
        → get_elem? xs l ≡ some x
        → (n : ℕ) × (m : ℕ) × (pair n x m y ≡ none)
    validate-earlier earlier i [] k l y x h p q = absurd (cc q)
    validate-earlier earlier i (z ∷ xs) k zero y x h p q =
        let found = scan-none (pair i z) 0 earlier k y (parts earlier i z xs h).1 p in
        (i, found.0, cc (found.1, q))
    validate-earlier earlier i (z ∷ xs) k (suc l) y x h p q =
        validate-earlier (earlier ++ (z ∷ [])) (suc i) xs k l y x (parts earlier i z xs h).2
          (get_elem?-append earlier (z ∷ []) k y p) q

    -- Every element passed its test against each earlier one.
    pub validate-pair :
        (earlier : List A) (i : ℕ) (xs : List A) (k l : ℕ) (y x : A)
        → validate_all here pair earlier i xs ≡ none
        → k < l
        → get_elem? xs k ≡ some y
        → get_elem? xs l ≡ some x
        → (n : ℕ) × (m : ℕ) × (pair n x m y ≡ none)
    validate-pair earlier i [] k l y x h lt p q = absurd (cc p)
    validate-pair earlier i (z ∷ xs) k zero y x h lt p q = absurd (omega arith)
    validate-pair earlier i (z ∷ xs) zero (suc l) y x h lt p q =
        validate-earlier (earlier ++ (z ∷ [])) (suc i) xs (length earlier) l y x
          (parts earlier i z xs h).2 (get_elem?-last earlier z ∙ p) q
    validate-pair earlier i (z ∷ xs) (suc k) (suc l) y x h lt p q =
        validate-pair (earlier ++ (z ∷ [])) (suc i) xs k l y x (parts earlier i z xs h).2
          (omega arith) p q

pub get_elem?-lt {ℓ} :
    {A : Type ℓ} (xs : List A) (k : ℕ) (a d : A)
    → get_elem? xs k ≡ some a
    → (k < length xs) × (get_or xs k d ≡ a)
get_elem?-lt [] k a d h = absurd (cc h)
get_elem?-lt (x ∷ xs) zero a d h = (omega arith, cc h)
get_elem?-lt (x ∷ xs) (suc k) a d h =
    let (lt, e) = get_elem?-lt xs k a d h in (omega (arith, lt), e)
