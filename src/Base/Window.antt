-- ===== src/Base/Window.antt =====
-- A ring over an array: the elements from a running index on, read at the index modulo the capacity.
use Prim.Native.Nat.{ℕ, zero, suc, ◌+◌, ◌-◌, ◌%◌, ◌≤◌, ◌<◌}
use mathlib.Core.Path.{◌≡◌, refl, ap, ap₂, ◌∙◌, sym}
use mathlib.Core.Logic.{◌≢◌}
use mathlib.Core.List.{List, [], ◌∷◌, ◌++◌}
use native.Mathlib.Nat.{mod-add-mod, mod-lt, add-zero}
use native.Mathlib.Decide.{dec_lt}
use native.Mathlib.Omega.{arith}
use novavisor.Base.Lists.{length, get_or, set, get_or-set_self, get_or-set_ne}

pub mod_low : (n m : ℕ) → n < m → n % m ≡ n
mod_low n m h = grind arith

pub mod_second : (n m : ℕ) → m ≤ n → n < m + m → n % m ≡ n - m
mod_second n m h k = grind arith

-- Fewer than `m` steps round the ring lead somewhere else.
pub mod-add-ne : (m s e : ℕ) → 0 < e → e < m → (s + e) % m ≢ s % m
mod-add-ne m s e lo hi same =
    let small = mod-lt s {m = m} (omega arith) in
    let around = mod-add-mod s m e in
    elim (dec_lt (s % m + e) m) [
      | yes p ↦ omega (arith, mod_low (s % m + e) m p)
      | no p ↦ omega (arith, mod_second (s % m + e) m (omega arith) (omega arith))
    ]

module _ {ℓ} {A : Type ℓ} (cap : ℕ) (d : A) where
  abbrev pub window : List A → ℕ → ℕ → List A
  window buf start zero = []
  window buf start (suc n) = get_or buf (start % cap) d ∷ window buf (start + 1) n

  pub length-window : (buf : List A) (start n : ℕ) → length (window buf start n) ≡ n
  length-window buf start zero = refl
  length-window buf start (suc n) = ap suc (length-window buf (start + 1) n)

  -- Only the start's remainder counts.
  pub window_mod : (buf : List A) (s t n : ℕ) → s % cap ≡ t % cap → window buf s n ≡ window buf t n
  window_mod buf s t zero e = refl
  window_mod buf s t (suc n) e =
      let next : (s + 1) % cap ≡ (t + 1) % cap =
        sym (mod-add-mod s cap 1) ∙ ap (λ k. (k + 1) % cap) e ∙ mod-add-mod t cap 1 in
      ap₂ ◌∷◌ (ap (λ i. get_or buf i d) e) (window_mod buf (s + 1) (t + 1) n next)

  window-set_away :
      (buf : List A) (i start n : ℕ) (v : A)
      → ((k : ℕ) → k < n → i ≢ (start + k) % cap)
      → window (set buf i v) start n ≡ window buf start n
  window-set_away buf i start zero v away = refl
  window-set_away buf i start (suc n) v away =
      ap₂ ◌∷◌
        (get_or-set_ne buf i (start % cap) v d
          (λ e. away 0 (omega arith) (e ∙ ap (λ t. t % cap) (omega arith))))
        (window-set_away buf i (start + 1) n v
          (λ k h e. away (1 + k) (omega arith) (e ∙ ap (λ t. t % cap) (omega arith))))

  -- The last element of a window.
  pub window-suc :
      (buf : List A) (start n : ℕ)
      → window buf start (suc n) ≡ window buf start n ++ (get_or buf ((start + n) % cap) d ∷ [])
  window-suc buf start zero = rw add-zero
  window-suc buf start (suc n) =
      ap (λ t. get_or buf (start % cap) d ∷ t)
        (window-suc buf (start + 1) n
          ∙ ap (λ k. window buf (start + 1) n ++ (get_or buf (k % cap) d ∷ [])) (omega arith))

  -- A write just behind a window that does not fill the ring extends it by the value written.
  pub window-write :
      (buf : List A) (start n : ℕ) (v : A)
      → cap ≤ length buf
      → n < cap
      → window (set buf ((start + n) % cap) v) start (suc n) ≡ window buf start n ++ (v ∷ [])
  window-write buf start n v room h =
      let i = (start + n) % cap in
      let kept = window-set_away buf i start n v (λ k lt. apart k lt) in
      window-suc (set buf i v) start n
      ∙ ap₂ (λ l x. l ++ (x ∷ [])) kept
          (get_or-set_self buf i v d (omega (arith, mod-lt (start + n) {m = cap} (omega arith))))
    where
      apart : (k : ℕ) → k < n → (start + n) % cap ≢ (start + k) % cap
      apart k lt e =
          mod-add-ne cap (start + k) (n - k) (omega arith) (omega arith)
            (ap (λ t. t % cap) (omega arith) ∙ e)
