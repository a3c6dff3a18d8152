-- ===== src/Vdev/Uart/Fifo.antt =====
-- The RX FIFO as a bounded queue (src/components/vdev/vuart/include/vuart/vuart_model.hpp).
use novavisor.Base.{ℕ, suc, ◌+◌, ◌-◌, ◌%◌, ◌≤◌, ◌<◌}
use novavisor.Base.{◌≡◌, refl, sym, ap, ◌∙◌}
use novavisor.Base.{Bool, true, false, List, [], ◌∷◌, ◌++◌}
use novavisor.Base.{arith, dec_lt}
use novavisor.Base.{◌==◌}
use novavisor.Base.{if-cases, length, get_or, set}
use novavisor.Base.{length-set}
use novavisor.Base.{window, length-window, window_mod, window-write, mod_low}
use novavisor.Vdev.Uart.{UartState, rx_push, rx_pop, fifo_depth}
use native.Mathlib.Nat.{mod-lt}

-- What `UartState` keeps true: a FIFO of 16 cells, and counters within it.
pub record IsUart (u : UartState) : Type 0 where
  pub cells : length u.fifo ≡ 16
  pub head_in : u.head < 16
  pub count_in : u.count ≤ 16

-- The bytes waiting, oldest first.
abbrev pub pending : UartState → List ℕ
pending u = window 16 0 u.fifo u.head u.count

abbrev pub drop_first : List ℕ → List ℕ
drop_first [] = []
drop_first (x ∷ xs) = xs

abbrev pub first_or : ℕ → List ℕ → ℕ
first_or d [] = d
first_or d (x ∷ xs) = x

push_room :
    (u : UartState) (b : ℕ)
    → IsUart u
    → u.count < 16
    → ((rx_push u b).0 ≡ true) × (pending ((rx_push u b).1) ≡ pending u ++ (b ∷ []))
push_room u b w h =
    let next = mod_low (u.count + 1) 256 (omega arith) in
    let wrote = window-write 16 0 u.fifo u.head u.count b (omega (arith, w.cells)) h in
    if-cases {A = Bool × UartState}
      (λ r. ((r).0 ≡ true) × (pending ((r).1) ≡ pending u ++ (b ∷ []))) (u.count == fifo_depth)
      (λ e. absurd (ground arith))
      (λ e. (
        refl,
        ap (λ n. window 16 0 (set u.fifo ((u.head + u.count) % 16) b) u.head n) {y = suc u.count}
              (next ∙ omega arith)
            ∙ wrote,
      ))

-- A push is refused exactly when the queue is full, with the state kept; otherwise the byte joins the back of the queue.
pub push-pending :
    (u : UartState) (b : ℕ)
    → IsUart u
    → IsUart ((rx_push u b).1)
      × (length (pending u) ≡ 16 → rx_push u b ≡ (false, u))
      × (length (pending u) < 16
          → ((rx_push u b).0 ≡ true) × (pending ((rx_push u b).1) ≡ pending u ++ (b ∷ [])))
push-pending u b w =
    let shape : IsUart ((rx_push u b).1) =
      if-cases {A = Bool × UartState} (λ r. IsUart ((r).1)) (u.count == fifo_depth) (λ e. w)
        (λ e. record {
          cells = length-set u.fifo ((u.head + u.count) % fifo_depth) b ∙ w.cells;
          head_in = w.head_in;
          count_in = (ground (arith, w.count_in, mod_low (u.count + 1) 256));
        }) in
    let len = length-window 16 0 u.fifo u.head u.count in
    (shape, (λ h. ground (arith, len)), (λ h. push_room u b w (omega (arith, len))))

abbrev Popped : UartState → ℕ × UartState → Type 0
Popped u r =
    IsUart ((r).1) × ((r).0 ≡ first_or 0 (pending u)) × (pending ((r).1) ≡ drop_first (pending u))

pop_none : (u : UartState) → IsUart u → u.count ≡ 0 → Popped u (rx_pop u)
pop_none u w e =
    let empty : pending u ≡ [] = ap (λ n. window 16 0 u.fifo u.head n) e in
    if-cases {A = ℕ × UartState} (Popped u) (u.count == 0)
      (λ t. (w, (sym (ap (first_or 0) empty)), (empty ∙ sym (ap drop_first empty))))
      (λ f. absurd (ground arith))

pop_some : (u : UartState) (n : ℕ) → IsUart u → u.count ≡ suc n → Popped u (rx_pop u)
pop_some u n w e =
    let full : pending u ≡ window 16 0 u.fifo u.head (suc n) =
      ap (λ k. window 16 0 u.fifo u.head k) e in
    let head_at : u.head % 16 ≡ u.head = mod_low u.head 16 w.head_in in
    let left : u.count - 1 ≡ n = omega arith in
    let shift =
      window_mod 16 0 u.fifo ((u.head + 1) % 16) (u.head + 1) n
        (mod_low ((u.head + 1) % 16) 16 (mod-lt (u.head + 1) {m = 16} (omega arith))) in
    if-cases {A = ℕ × UartState} (Popped u) (u.count == 0) (λ t. absurd (ground arith))
      (λ f. (
        record {
          cells = w.cells;
          head_in = mod-lt (u.head + 1) {m = 16} (omega arith);
          count_in = omega (arith, w.count_in);
        },
        (ap (λ i. get_or u.fifo i 0) (sym head_at) ∙ sym (ap (first_or 0) full)),
        (ap (λ k. window 16 0 u.fifo ((u.head + 1) % 16) k) left
            ∙ shift
            ∙ sym (ap drop_first full)),
      ))

-- A pop returns the oldest byte and removes it, and on an empty queue returns 0 and leaves the whole state as it is; the interrupt mask stays either way.
pub pop-pending :
    (u : UartState)
    → IsUart u
    → IsUart ((rx_pop u).1)
      × ((rx_pop u).0 ≡ first_or 0 (pending u))
      × (pending ((rx_pop u).1) ≡ drop_first (pending u))
      × (length (pending u) ≡ 0 → rx_pop u ≡ (0, u))
      × (((rx_pop u).1).imsc ≡ u.imsc)
pop-pending u w =
    let len = length-window 16 0 u.fifo u.head u.count in
    let bare : length (pending u) ≡ 0 → rx_pop u ≡ (0, u) = λ h. ground (arith, len) in
    elim (dec_lt 0 u.count) [
      | yes p ↦
          let (a, b, c) = pop_some u (u.count - 1) w (omega arith) in (a, b, c, bare, ground arith)
      | no p ↦ let (a, b, c) = pop_none u w (omega arith) in (a, b, c, bare, ground arith)
    ]
