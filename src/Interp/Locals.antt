-- ===== src/Interp/Locals.antt =====
-- The handlers that move values between the operand stack and the local variables
-- (bytecode_interpreter.c: handle_instr_xload to handle_instr_xstore_n, iinc).
pub mod Loads
pub mod Stores
pub mod Moves
use cs_562_jvm.Base.{ℕ, ◌+◌, ◌%◌, ◌^◌, Bool, if◌then◌else◌, ℤ, pos, wrap, wrap32, half8, half16}
use cs_562_jvm.Frame.{
  type_int, is_wide, read_local, read_local2, write_local, write_local2, peek_operand_type,
}
use cs_562_jvm.Machine.{
  M, pure, ◌>>=◌, ◌>>◌, from_frame, write_frame, pop, pop2, push, push2, read_byte_operand,
  read_short_operand,
}
use cs_562_jvm.Interp.Defs.{Handler, advance}

-- `wide ? readShortOperand(jthread, 2) : (uint8_t) readByteOperand(jthread, 1)`, as a uint16_t
abbrev pub read_index : Bool → M ℕ
read_index wide =
    if wide
    then (do i ← read_short_operand 2; pure (wrap half16 i))
    else (do i ← read_byte_operand 1; pure (wrap half8 i))

-- `wide ? 4 : 2`
abbrev pub advance_wide : Bool → M ℤ
advance_wide wide = if wide then advance 4 else advance 2

abbrev pub load_local : ℕ → ℕ → M (Unit {0})
load_local index type =
    if is_wide type
    then (do v ← from_frame (read_local2 index); push2 v type)
    else (do v ← from_frame (read_local index); push v type)

abbrev pub store_local : ℕ → ℕ → M (Unit {0})
store_local index type =
    if is_wide type
    then (do v ← pop2; write_frame (write_local2 index v))
    else (do v ← pop; write_frame (write_local index v))

unfoldable pub handle_instr_xload : ℕ → Handler
handle_instr_xload type wide = do index ← read_index wide; load_local index type; advance_wide wide

unfoldable pub handle_instr_xstore : Handler
handle_instr_xstore wide = do
  index ← read_index wide
  type ← from_frame (peek_operand_type 0)
  store_local index type
  advance_wide wide

unfoldable pub handle_instr_xload_n : ℕ → ℕ → Handler
handle_instr_xload_n index type wide = do load_local index type; advance 1

-- The type is read at depth `index`, not at the top.
unfoldable pub handle_instr_xstore_n : ℕ → Handler
handle_instr_xstore_n index wide = do
  type ← from_frame (peek_operand_type index)
  store_local index type
  advance 1

-- `cell.i += amt`
abbrev pub add_amount : ℕ → ℤ → ℕ
add_amount v amt = (v + wrap32 amt) % 2 ^ 32

unfoldable pub handle_instr_iinc : Handler
handle_instr_iinc wide = do
  index ← read_index wide
  amt ← (if wide then read_short_operand 4 else read_byte_operand 2)
  v ← from_frame (read_local index)
  write_frame (write_local index (add_amount v amt))
  if wide then advance 6 else advance 3
