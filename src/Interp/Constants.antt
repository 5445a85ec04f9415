-- ===== src/Interp/Constants.antt =====
-- The handlers that push constants (bytecode_interpreter.c, nop to sipush). The float constants are
-- written as the bit patterns of 0.0, 1.0 and 2.0.
use cs_562_jvm.Base.{ℕ, ◌-◌, ◌^◌, wrap32}
use cs_562_jvm.Frame.{
  type_byte, type_short, type_int, type_long, type_float, type_double, type_reference,
}
use cs_562_jvm.Machine.{◌>>=◌, ◌>>◌, push, push2, read_byte_operand, read_short_operand}
use cs_562_jvm.Interp.Defs.{Handler, Throw, advance}

-- `cell_t cell = {...}; pushOperand(..., cell, type); return 1;`
abbrev push_constant : ℕ → ℕ → Handler
push_constant v t wide = do push v t; advance 1

abbrev push_constant2 : ℕ → ℕ → Handler
push_constant2 v t wide = do push2 v t; advance 1

unfoldable pub handle_instr_unknown : Throw → Handler
handle_instr_unknown throw wide = do
  throw "java/lang/InternalError" "Unimplemented Instruction"
  advance 0

unfoldable pub handle_instr_nop : Handler
handle_instr_nop wide = advance 1

unfoldable pub handle_instr_aconst_null : Handler
handle_instr_aconst_null = push_constant 0 type_reference

unfoldable pub handle_instr_iconst_m1 : Handler
handle_instr_iconst_m1 = push_constant (2 ^ 32 - 1) type_int

unfoldable pub handle_instr_iconst_0 : Handler
handle_instr_iconst_0 = push_constant 0 type_int

unfoldable pub handle_instr_iconst_1 : Handler
handle_instr_iconst_1 = push_constant 1 type_int

unfoldable pub handle_instr_iconst_2 : Handler
handle_instr_iconst_2 = push_constant 2 type_int

unfoldable pub handle_instr_iconst_3 : Handler
handle_instr_iconst_3 = push_constant 3 type_int

unfoldable pub handle_instr_iconst_4 : Handler
handle_instr_iconst_4 = push_constant 4 type_int

unfoldable pub handle_instr_iconst_5 : Handler
handle_instr_iconst_5 = push_constant 5 type_int

unfoldable pub handle_instr_lconst_0 : Handler
handle_instr_lconst_0 = push_constant2 0 type_long

unfoldable pub handle_instr_lconst_1 : Handler
handle_instr_lconst_1 = push_constant2 1 type_long

unfoldable pub handle_instr_fconst_0 : Handler
handle_instr_fconst_0 = push_constant 0 type_float

unfoldable pub handle_instr_fconst_1 : Handler
handle_instr_fconst_1 = push_constant 0x3f80_0000 type_float

unfoldable pub handle_instr_fconst_2 : Handler
handle_instr_fconst_2 = push_constant 0x4000_0000 type_float

unfoldable pub handle_instr_dconst_0 : Handler
handle_instr_dconst_0 = push_constant2 0 type_double

unfoldable pub handle_instr_dconst_1 : Handler
handle_instr_dconst_1 = push_constant2 0x3ff0_0000_0000_0000 type_double

unfoldable pub handle_instr_bipush : Handler
handle_instr_bipush wide = do v ← read_byte_operand 1; push (wrap32 v) type_byte; advance 2

unfoldable pub handle_instr_sipush : Handler
handle_instr_sipush wide = do v ← read_short_operand 1; push (wrap32 v) type_short; advance 3
