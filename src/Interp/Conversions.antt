-- ===== src/Interp/Conversions.antt =====
-- Integer conversions and the comparison of longs (bytecode_interpreter.c: i2l, l2i, i2b, i2c, i2s,
-- lcmp).
pub mod Widths
use cs_562_jvm.Base.{
  ℕ, ◌+◌, ◌-◌, ◌%◌, ◌^◌, ltb_ℤ, if◌then◌else◌, ℤ, pos, negsuc, signed8, signed16, signed32,
  signed64, wrap32, wrap64,
}
use cs_562_jvm.Frame.{type_byte, type_char, type_short, type_int, type_long}
use cs_562_jvm.Machine.{◌>>=◌, ◌>>◌, pop, pop2, push, push2}
use cs_562_jvm.Interp.Defs.{Handler, advance, unary}

unfoldable pub handle_instr_i2l : Handler
handle_instr_i2l wide = do v ← pop; push2 (wrap64 (signed32 v)) type_long; advance 1

unfoldable pub handle_instr_l2i : Handler
handle_instr_l2i wide = do v ← pop2; push (v % 2 ^ 32) type_int; advance 1

unfoldable pub handle_instr_i2b : Handler
handle_instr_i2b = unary (λ v. wrap32 (signed8 (v % 2 ^ 8))) type_byte

unfoldable pub handle_instr_i2c : Handler
handle_instr_i2c = unary (λ v. v % 2 ^ 16) type_char

unfoldable pub handle_instr_i2s : Handler
handle_instr_i2s = unary (λ v. wrap32 (signed16 (v % 2 ^ 16))) type_short

-- utils.h: MIN and MAX
abbrev pub min_ℤ : ℤ → ℤ → ℤ
min_ℤ x y = if ltb_ℤ x y then x else y

abbrev pub max_ℤ : ℤ → ℤ → ℤ
max_ℤ x y = if ltb_ℤ y x then x else y

-- `MAX(-1, MIN(1, next.l - top.l))`
unfoldable pub compare_long : ℕ → ℕ → ℤ
compare_long next top = max_ℤ (negsuc 0) (min_ℤ (pos 1) (signed64 ((next + 2 ^ 64 - top) % 2 ^ 64)))

unfoldable pub handle_instr_lcmp : Handler
handle_instr_lcmp wide = do
  top ← pop2
  next ← pop2
  push (wrap32 (compare_long next top)) type_int
  advance 1
