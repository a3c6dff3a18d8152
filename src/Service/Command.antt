-- ===== src/Service/Command.antt =====
-- The host's command ring: src/nova/command.hpp over src/nova/abi/command_ring.h. The
-- producer is the host and is not trusted; the consumer is EL2.
use novavisor.Base.{ℕ, zero, suc, ◌+◌, ◌-◌, ◌%◌, ◌^◌}
use novavisor.Base.{Bool, true, false, ◌||◌, ◌&&◌, not}
use novavisor.Base.{List, [], ◌∷◌, ◌++◌, Option, none, some}
use novavisor.Base.{ltb, leb, ◌==◌, if◌then◌else◌, get_or, set, length}
pub mod Wrap
pub mod Queue
pub mod Untrusted
pub mod Table
mod Tests

-- `NOVA_CMD_SLOTS`, `NOVA_CMD_OPS_CAP`, `NOVA_CMD_ANSWER_MASK`, `NOVA_CMD_RESULT_UNKNOWN`.
abbrev pub cmd_slots : ℕ
cmd_slots = 128

abbrev pub cmd_ops_cap : ℕ
cmd_ops_cap = 16

abbrev pub cmd_answer_mask : ℕ
cmd_answer_mask = 65535

abbrev pub cmd_result_unknown : ℕ
cmd_result_unknown = 1

abbrev pub cmd_arg_plain : ℕ
cmd_arg_plain = 0

pub record Record : Type 0 where
  pub op : ℕ
  pub a : ℕ
  pub b : ℕ

abbrev pub no_record : Record
no_record = record { op = 0; a = 0; b = 0 }

-- The two indices and the records of the page, and whether the ring is bound to a page at all.
pub record Ring : Type 0 where
  pub placed : Bool
  pub widx : ℕ
  pub ridx : ℕ
  pub records : List Record

abbrev pub spoken_to : Ring → Bool
spoken_to r = r.placed && not (r.widx == 0)

-- Subtraction of 64-bit words.
abbrev pub minus_word : ℕ → ℕ → ℕ
minus_word x y = (x + (2 ^ 64 - y)) % 2 ^ 64

abbrev pub push : Ring → Record → Bool × Ring
push r c =
    if not r.placed
    then (false, r)
    else if leb cmd_slots (minus_word r.widx r.ridx)
    then (false, r)
    else (
      true,
      record r { widx = (r.widx + 1) % 2 ^ 64; records = set r.records (r.widx % cmd_slots) c },
    )

-- The loop from `read` to `write`, whose distance is at most the ring's depth; `consume` is
-- handed the records in the order of the list.
abbrev pub consumed : List Record → ℕ → ℕ → List Record
consumed records index zero = []
consumed records index (suc n) =
    get_or records (index % cmd_slots) no_record ∷ consumed records ((index + 1) % 2 ^ 64) n

-- What a drain returns: the count, the records handed to `consume`, and the ring after it. A
-- distance is negative when its sign bit is set.
pub record Drained : Type 0 where
  pub handed : ℕ
  pub commands : List Record
  pub after : Ring

abbrev pub resync : Ring → Ring
resync r = record r { ridx = r.widx }

abbrev drained : ℕ → List Record → Ring → Drained
drained handed commands after = record { handed = handed; commands = commands; after = after }

abbrev pub drain : Ring → Drained
drain r =
    let ahead = minus_word r.widx r.ridx in
    if not r.placed
    then drained 0 [] r
    else if leb (2 ^ 63) ahead || ltb cmd_slots ahead
    then drained 0 [] (resync r)
    else drained ahead (consumed r.records r.ridx ahead)
        (if not (r.widx == r.ridx) then resync r else r)

pub record Arg : Type 0 where
  pub kind : ℕ
  pub lo : ℕ
  pub hi : ℕ
  pub def : ℕ

abbrev pub free_arg : Arg
free_arg = record { kind = cmd_arg_plain; lo = 1; hi = 0; def = 0 }

-- A handler turns a record and the machine's state into a result and a state; a table row may
-- have none.
module _ (World : Type 0) where
  pub record Op : Type 0 where
    pub op : ℕ
    pub words : ℕ
    pub a : Arg
    pub b : Arg
    pub handler : Option (Record → World → ℕ × World)

abbrev pub is_none : {A : Type 0} → Option A → Bool
is_none none = true
is_none (some x) = false

module _ {World : Type 0} where
  abbrev pub find : List (Op World) → ℕ → Option (Op World)
  find [] op = none
  find (row ∷ rows) op = if row.op == op then some row else find rows op

  -- The array's first `count_` rows, in order.
  abbrev pub declare : List (Op World) → Op World → Bool × List (Op World)
  declare rows entry =
      if (length rows == cmd_ops_cap)
        || (entry.op == 0)
        || is_none entry.handler
        || not (is_none (find rows entry.op))
      then (false, rows)
      else (true, rows ++ (entry ∷ []))

  -- The table holds no row without a handler; the case is written out all the same.
  abbrev pub run_row : Option (Op World) → Record → World → ℕ × World
  run_row none c w = (cmd_result_unknown, w)
  run_row (some row) c w = elim row.handler [ none ↦ (cmd_result_unknown, w) | some f ↦ f c w ]

  abbrev pub dispatch : List (Op World) → Record → World → ℕ × World
  dispatch rows c w =
      if ltb cmd_answer_mask c.op
      then (cmd_result_unknown, w)
      else run_row (find rows (c.op % 2 ^ 16)) c w
