-- ===== src/Service/Command/Table.antt =====
-- The table of commands (`OpTable` of src/nova/command.hpp).
use novavisor.Base.{ℕ, ◌%◌, ◌^◌, ◌≤◌, ◌<◌}
use novavisor.Base.{◌≡◌, ap, ◌∙◌, ◌≢◌}
use novavisor.Base.{Bool, true, false, not, ◌&&◌, some, List, [], ◌∷◌, ◌++◌}
use novavisor.Base.{arith}
use novavisor.Base.{ltb, ◌==◌}
use novavisor.Base.{if-cases, length}
use novavisor.Base.{length-append}
use novavisor.Service.Command.{cmd_answer_mask}
use novavisor.Service.Command.{Record}
use novavisor.Service.Command.{Op, is_none, find, declare, run_row, dispatch}

module _ {World : Type 0} where
  -- What a table keeps true: it fits the page, every row has an opcode and a handler, and no two rows share an opcode.
  abbrev fresh : List (Op World) → Bool
  fresh [] = true
  fresh (row ∷ rows) =
      is_none (find rows row.op) && not (row.op == 0) && not (is_none row.handler) && fresh rows

  pub record IsTable (rows : List (Op World)) : Type 0 where
    pub fits : length rows ≤ 16
    pub apart : fresh rows ≡ true

  find-append_ne :
      (rows : List (Op World)) (e : Op World) (op : ℕ)
      → e.op ≢ op
      → find (rows ++ (e ∷ [])) op ≡ find rows op
  find-append_ne [] e op h = ground arith
  find-append_ne (row ∷ rows) e op h = ground (arith, find-append_ne rows e op h)

  find-append_self :
      (rows : List (Op World)) (e : Op World)
      → is_none (find rows e.op) ≡ true
      → find (rows ++ (e ∷ [])) e.op ≡ some e
  find-append_self [] e h = ground arith
  find-append_self (row ∷ rows) e h = ground (arith, find-append_self rows e)

  fresh-append :
      (rows : List (Op World)) (e : Op World)
      → fresh rows ≡ true
      → is_none (find rows e.op) ≡ true
      → e.op ≢ 0
      → is_none e.handler ≡ false
      → fresh (rows ++ (e ∷ [])) ≡ true
  fresh-append [] e f n z k = ground arith
  fresh-append (row ∷ rows) e f n z k =
      ground (arith, fresh-append rows e, find-append_ne rows e row.op)

  -- Declaring a row keeps the table well formed, whatever the row.
  pub declare-IsTable :
      (rows : List (Op World)) (e : Op World) → IsTable rows → IsTable ((declare rows e).1)
  declare-IsTable rows e t = record {
    fits = ground (arith, length-append rows (e ∷ []), t.fits);
    apart = ground (arith, fresh-append rows e, t.apart);
  }

  declare_accepts :
      (rows : List (Op World)) (e : Op World)
      → (declare rows e).0 ≡ true
      → ((declare rows e).1 ≡ rows ++ (e ∷ [])) × (is_none (find rows e.op) ≡ true)
  declare_accepts rows e ok = ground arith

  -- An accepted row is the one its opcode runs from then on, and every other command runs as before.
  pub declare-dispatch :
      (rows : List (Op World)) (e : Op World) (c : Record) (w : World)
      → (declare rows e).0 ≡ true
      → e.op < 2 ^ 16
      → (c.op ≡ e.op → dispatch ((declare rows e).1) c w ≡ run_row (some e) c w)
        × (c.op ≢ e.op → dispatch ((declare rows e).1) c w ≡ dispatch rows c w)
  declare-dispatch rows e c w ok h =
      let (grown, absent) = declare_accepts rows e ok in
      (
        (λ same.
            let op : c.op % 2 ^ 16 ≡ e.op = omega (arith, same, h) in
            let found : find ((declare rows e).1) (c.op % 2 ^ 16) ≡ some e =
              ap (find ((declare rows e).1)) op
              ∙ ap (λ l. find l e.op) grown
              ∙ find-append_self rows e absent in
            if-cases (λ r. r ≡ run_row (some e) c w) (ltb cmd_answer_mask c.op)
              (λ t. absurd (ground arith)) (λ f. ap (λ o. run_row o c w) found)),
        (λ other.
            let kept : ltb cmd_answer_mask c.op ≡ false
                → find ((declare rows e).1) (c.op % 2 ^ 16) ≡ find rows (c.op % 2 ^ 16) =
              λ f.
                ap (λ l. find l (c.op % 2 ^ 16)) grown
                ∙ find-append_ne rows e (c.op % 2 ^ 16) (ground arith) in
            if-cases (λ r. r ≡ dispatch rows c w) (ltb cmd_answer_mask c.op)
              (λ t. ground (arith, t)) (λ f. ap (λ o. run_row o c w) (kept f) ∙ ground (arith, f))),
      )
