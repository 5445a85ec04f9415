-- ===== src/Interp/Branches.antt =====
-- The handlers that branch (bytecode_interpreter.c: ifeq to ret, ifnull, ifnonnull, goto_w, jsr_w).
-- A handler that has moved the program counter returns 0.
pub mod Targets
use cs_562_jvm.Base.{ℕ, ◌+◌, ◌%◌, ◌^◌, Bool, not, ◌==◌, if◌then◌else◌, ℤ, pos, ltb_ℤ, signed32}
use cs_562_jvm.Frame.{type_return_address, read_local}
use cs_562_jvm.Machine.{
  Machine, M, ok, pure, ◌>>=◌, ◌>>◌, from_frame, pop, push, read_short_operand, read_int_operand,
  jump,
}
use cs_562_jvm.Interp.Defs.{Handler, advance}
use cs_562_jvm.Interp.Locals.{read_index}

-- `if(test) { pc += offset; return 0; } return 3;`
abbrev pub branch : Bool → ℤ → M ℤ
branch test offset = if test then (do jump offset; advance 0) else advance 3

abbrev pub if_one : (ℕ → Bool) → Handler
if_one test wide = do top ← pop; offset ← read_short_operand 1; branch (test top) offset

abbrev pub if_two : (ℕ → ℕ → Bool) → Handler
if_two test wide = do
  top ← pop
  next ← pop
  offset ← read_short_operand 1
  branch (test next top) offset

-- C comparisons of two int32_t patterns
abbrev pub lt_int : ℕ → ℕ → Bool
lt_int a b = ltb_ℤ (signed32 a) (signed32 b)

unfoldable pub handle_instr_ifeq : Handler
handle_instr_ifeq = if_one (λ top. top == 0)

unfoldable pub handle_instr_ifne : Handler
handle_instr_ifne = if_one (λ top. not (top == 0))

unfoldable pub handle_instr_iflt : Handler
handle_instr_iflt = if_one (λ top. lt_int top 0)

unfoldable pub handle_instr_ifge : Handler
handle_instr_ifge = if_one (λ top. not (lt_int top 0))

unfoldable pub handle_instr_ifgt : Handler
handle_instr_ifgt = if_one (λ top. lt_int 0 top)

unfoldable pub handle_instr_ifle : Handler
handle_instr_ifle = if_one (λ top. not (lt_int 0 top))

unfoldable pub handle_instr_if_icmpeq : Handler
handle_instr_if_icmpeq = if_two (λ next top. next == top)

unfoldable pub handle_instr_if_icmpne : Handler
handle_instr_if_icmpne = if_two (λ next top. not (next == top))

unfoldable pub handle_instr_if_icmplt : Handler
handle_instr_if_icmplt = if_two (λ next top. lt_int next top)

unfoldable pub handle_instr_if_icmpge : Handler
handle_instr_if_icmpge = if_two (λ next top. not (lt_int next top))

unfoldable pub handle_instr_if_icmpgt : Handler
handle_instr_if_icmpgt = if_two (λ next top. lt_int top next)

unfoldable pub handle_instr_if_icmple : Handler
handle_instr_if_icmple = if_two (λ next top. not (lt_int top next))

unfoldable pub handle_instr_if_acmpeq : Handler
handle_instr_if_acmpeq = if_two (λ next top. next == top)

unfoldable pub handle_instr_if_acmpne : Handler
handle_instr_if_acmpne = if_two (λ next top. not (next == top))

unfoldable pub handle_instr_ifnull : Handler
handle_instr_ifnull = if_one (λ top. top == 0)

unfoldable pub handle_instr_ifnonnull : Handler
handle_instr_ifnonnull = if_one (λ top. not (top == 0))

unfoldable pub handle_instr_goto : Handler
handle_instr_goto wide = do offset ← read_short_operand 1; jump offset; advance 0

unfoldable pub handle_instr_goto_w : Handler
handle_instr_goto_w wide = do offset ← read_int_operand 1; jump offset; advance 0

-- `jthread->pc + 1 - code` as a uint32_t
abbrev pub next_address : M ℕ
next_address m = ok ((m.pc + 1) % 2 ^ 32) m

unfoldable pub handle_instr_jsr : Handler
handle_instr_jsr wide = do
  offset ← read_short_operand 1
  return_address ← next_address
  jump offset
  push return_address type_return_address
  advance 0

unfoldable pub handle_instr_jsr_w : Handler
handle_instr_jsr_w wide = do
  offset ← read_int_operand 1
  return_address ← next_address
  jump offset
  push return_address type_return_address
  advance 0

-- `jthread->pc = code + returnAddress.r`
abbrev pub set_pc : ℕ → M (Unit {0})
set_pc a m = ok tt (record m { pc = a })

unfoldable pub handle_instr_ret : Handler
handle_instr_ret wide = do
  index ← read_index wide
  return_address ← from_frame (read_local index)
  set_pc return_address
  advance 0
