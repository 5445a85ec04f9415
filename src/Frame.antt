-- ===== src/Frame.antt =====
-- Stack frames and their accessors (jthread.h, jthread.c). `none` is undefined behaviour: an access
-- outside the arrays of the frame. Cells are 32-bit patterns, double cells 64-bit patterns that lie
-- in two cells, the low half first.
pub mod View
use cs_562_jvm.Base.{
  ℕ, suc, ◌+◌, ◌-◌, ◌*◌, ◌/◌, ◌%◌, ◌^◌, Bool, ◌&&◌, Option, none, some, List, ltb, leb, ◌==◌,
  if◌then◌else◌, length, get_elem?, set,
}

-- dataTypes.h: the type tags that lie beside the operands.
abbrev pub type_boolean : ℕ
type_boolean = 0

abbrev pub type_char : ℕ
type_char = 1

abbrev pub type_byte : ℕ
type_byte = 2

abbrev pub type_short : ℕ
type_short = 3

abbrev pub type_int : ℕ
type_int = 4

abbrev pub type_long : ℕ
type_long = 5

abbrev pub type_float : ℕ
type_float = 6

abbrev pub type_double : ℕ
type_double = 7

abbrev pub type_reference : ℕ
type_reference = 8

abbrev pub type_return_address : ℕ
type_return_address = 9

-- `type == TYPE_LONG || type == TYPE_DOUBLE`
abbrev pub is_wide : ℕ → Bool
is_wide t = if t == type_long then Bool.true else t == type_double

-- `types` is the memory from operandStackTypeBase up to operandStackBase. `code` is the code of
-- currentMethod, and `prev_pc` the index that prevFramePC has in the code of the calling frame.
-- The operand stack has maxStack cells, so topOfStack stays below 2 ^ 16.
pub record Frame : Type 0 where
  pub locals : List ℕ
  pub types : List ℕ
  pub operands : List ℕ
  pub top : ℕ
  pub code : List ℕ
  pub prev_pc : ℕ

abbrev pub option_bind {ℓ κ} : {A : Type ℓ} {B : Type κ} → Option A → (A → Option B) → Option B
option_bind none k = none
option_bind (some a) k = k a

infixl 5 ◌>>=◌
abbrev ◌>>=◌ {ℓ κ} : {A : Type ℓ} {B : Type κ} → Option A → (A → Option B) → Option B
◌>>=◌ = option_bind

abbrev pub low_half : ℕ → ℕ
low_half v = v % 2 ^ 32

abbrev pub high_half : ℕ → ℕ
high_half v = v / 2 ^ 32

-- two neighbouring cells read as one double cell
abbrev pub read_pair : List ℕ → ℕ → Option ℕ
read_pair cells i =
    option_bind (get_elem? cells i)
      λ lo. option_bind (get_elem? cells (i + 1)) λ hi. some (lo + hi * 2 ^ 32)

abbrev pub write_pair : List ℕ → ℕ → ℕ → List ℕ
write_pair cells i v = set (set cells i (low_half v)) (i + 1) (high_half v)

-- The callers in the interpreter pass NULL for the type of a local.
unfoldable pub read_local : ℕ → Frame → Option ℕ
read_local i f = get_elem? f.locals i

unfoldable pub read_local2 : ℕ → Frame → Option ℕ
read_local2 i f = read_pair f.locals i

unfoldable pub write_local : ℕ → ℕ → Frame → Option Frame
write_local i v f =
    if ltb i (length f.locals) then some (record f { locals = set f.locals i v }) else none

unfoldable pub write_local2 : ℕ → ℕ → Frame → Option Frame
write_local2 i v f =
    if ltb (i + 1) (length f.locals)
    then some (record f { locals = write_pair f.locals i v })
    else none

unfoldable pub peek_operand_type : ℕ → Frame → Option ℕ
peek_operand_type i f = if ltb i f.top then get_elem? f.types (f.top - 1 - i) else none

-- popOperand with NULL for the type
unfoldable pub pop_operand : Frame → Option (ℕ × Frame)
pop_operand f =
    if f.top == 0
    then none
    else do v ← get_elem? f.operands (f.top - 1); some (v, record f { top = f.top - 1 })

-- popOperand that also reports the type
unfoldable pub pop_operand_typed : Frame → Option ((ℕ × ℕ) × Frame)
pop_operand_typed f = if f.top == 0 then none else do
  t ← get_elem? f.types (f.top - 1)
  v ← get_elem? f.operands (f.top - 1)
  some ((v, t), record f { top = f.top - 1 })

unfoldable pub pop_operand2 : Frame → Option (ℕ × Frame)
pop_operand2 f =
    if ltb f.top 2
    then none
    else do v ← read_pair f.operands (f.top - 2); some (v, record f { top = f.top - 2 })

-- The cell at operandStackBase - 1 - index, which does not depend on topOfStack: it lies in the
-- last bytes of the type array.
unfoldable pub peek_operand : ℕ → Frame → Option (ℕ × ℕ)
unfolding peek_operand_type
peek_operand i f =
    let at = length f.types - 4 * (i + 1) in
    if leb (4 * (i + 1)) (length f.types)
    then (do
      t ← peek_operand_type i f
      b0 ← get_elem? f.types at
      b1 ← get_elem? f.types (at + 1)
      b2 ← get_elem? f.types (at + 2)
      b3 ← get_elem? f.types (at + 3)
      some (b0 + b1 * 2 ^ 8 + b2 * 2 ^ 16 + b3 * 2 ^ 24, t))
    else none

unfoldable pub push_operand : ℕ → ℕ → Frame → Option Frame
push_operand v t f =
    if ltb f.top (length f.types) && ltb f.top (length f.operands)
    then some (record f {
      types = set f.types f.top t;
      operands = set f.operands f.top v;
      top = f.top + 1;
    })
    else none

unfoldable pub push_operand2 : ℕ → ℕ → Frame → Option Frame
push_operand2 v t f =
    if ltb (f.top + 1) (length f.types) && ltb (f.top + 1) (length f.operands)
    then some (record f {
      types = set (set f.types f.top t) (f.top + 1) t;
      operands = write_pair f.operands f.top v;
      top = f.top + 2;
    })
    else none
