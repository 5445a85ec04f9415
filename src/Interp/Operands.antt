-- ===== src/Interp/Operands.antt =====
-- The handlers that rearrange the operand stack (bytecode_interpreter.c, pop to swap).
pub mod Shuffle
use cs_562_jvm.Base.{ℕ, ◌+◌, ◌-◌, ◌%◌, ◌^◌, some}
use cs_562_jvm.Frame.{peek_operand}
use cs_562_jvm.Machine.{M, ◌>>=◌, ◌>>◌, from_frame, write_frame, pop_typed, push}
use cs_562_jvm.Interp.Defs.{Handler, advance}

-- `topOfStack -= n` on a uint16_t
abbrev pub lower_top : ℕ → M (Unit {0})
lower_top n = write_frame λ f. some (record f { top = (f.top + (2 ^ 16 - n)) % 2 ^ 16 })

unfoldable pub handle_instr_pop : Handler
handle_instr_pop wide = do lower_top 1; advance 1

unfoldable pub handle_instr_pop2 : Handler
handle_instr_pop2 wide = do lower_top 2; advance 1

unfoldable pub handle_instr_dup : Handler
handle_instr_dup wide = do (v, t) ← from_frame (peek_operand 0); push v t; advance 1

unfoldable pub handle_instr_dup_x1 : Handler
handle_instr_dup_x1 wide = do
  (top, tos_type) ← pop_typed
  (next, next_type) ← pop_typed
  push top tos_type
  push next next_type
  push top tos_type
  advance 1

unfoldable pub handle_instr_dup_x2 : Handler
handle_instr_dup_x2 wide = do
  (top, tos_type) ← pop_typed
  (next, next_type) ← pop_typed
  (next2, next2_type) ← pop_typed
  push top tos_type
  push next2 next2_type
  push next next_type
  push top tos_type
  advance 1

unfoldable pub handle_instr_dup2 : Handler
handle_instr_dup2 wide = do
  (v, next_type) ← from_frame (peek_operand 1)
  push v next_type
  (w, tos_type) ← from_frame (peek_operand 1)
  push w tos_type
  advance 1

unfoldable pub handle_instr_dup2_x1 : Handler
handle_instr_dup2_x1 wide = do
  (top, tos_type) ← pop_typed
  (next, next_type) ← pop_typed
  (next2, next2_type) ← pop_typed
  push next next_type
  push top tos_type
  push next2 next2_type
  push next next_type
  push top tos_type
  advance 1

unfoldable pub handle_instr_dup2_x2 : Handler
handle_instr_dup2_x2 wide = do
  (top, tos_type) ← pop_typed
  (next, next_type) ← pop_typed
  (next2, next_type2) ← pop_typed
  (next3, next_type3) ← pop_typed
  push next next_type
  push top tos_type
  push next3 next_type3
  push next2 next_type2
  push next next_type
  push top tos_type
  advance 1

unfoldable pub handle_instr_swap : Handler
handle_instr_swap wide = do
  (top, tos_type) ← pop_typed
  (next, next_type) ← pop_typed
  push top tos_type
  push next next_type
  advance 1
