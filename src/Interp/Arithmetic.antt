-- ===== src/Interp/Arithmetic.antt =====
-- Integer arithmetic handlers (bytecode_interpreter.c, iadd to lneg). Sums, differences, products
-- and negations wrap around, as two's complement machines compute them. The quotient and the
-- remainder of the smallest number by -1 overflow, which traps: a fault.
pub mod Signed
pub mod Division
use cs_562_jvm.Base.{
  ℕ, ◌+◌, ◌-◌, ◌*◌, ◌/◌, ◌%◌, ◌^◌, Bool, ◌&&◌, ◌==◌, if◌then◌else◌, ℤ, signed32, signed64, wrap32,
  wrap64, quot_ℤ, rem_ℤ, pos,
}
use cs_562_jvm.Frame.{type_int, type_long}
use cs_562_jvm.Machine.{M, pure, crash, ◌>>=◌, ◌>>◌, pop, pop2, push, push2}
use cs_562_jvm.Interp.Defs.{Handler, Throw, advance, binary, binary2, unary, unary2}

-- `next + top`, `next - top`, `next * top` and `-top` at 32 and 64 bits
abbrev pub add_word : ℕ → ℕ → ℕ → ℕ
add_word w next top = (top + next) % 2 ^ w

abbrev pub sub_word : ℕ → ℕ → ℕ → ℕ
sub_word w next top = (next + 2 ^ w - top) % 2 ^ w

abbrev pub mul_word : ℕ → ℕ → ℕ → ℕ
mul_word w next top = (top * next) % 2 ^ w

abbrev pub neg_word : ℕ → ℕ → ℕ
neg_word w top = (2 ^ w - top) % 2 ^ w

unfoldable pub handle_instr_iadd : Handler
handle_instr_iadd = binary (add_word 32) type_int

unfoldable pub handle_instr_ladd : Handler
handle_instr_ladd = binary2 (add_word 64) type_long

unfoldable pub handle_instr_isub : Handler
handle_instr_isub = binary (sub_word 32) type_int

unfoldable pub handle_instr_lsub : Handler
handle_instr_lsub = binary2 (sub_word 64) type_long

unfoldable pub handle_instr_imul : Handler
handle_instr_imul = binary (mul_word 32) type_int

unfoldable pub handle_instr_lmul : Handler
handle_instr_lmul = binary2 (mul_word 64) type_long

unfoldable pub handle_instr_ineg : Handler
handle_instr_ineg = unary (neg_word 32) type_int

unfoldable pub handle_instr_lneg : Handler
handle_instr_lneg = unary2 (neg_word 64) type_long

-- the smallest number of `w` bits, by -1
abbrev pub overflows : ℕ → ℕ → ℕ → Bool
overflows w next top = next == 2 ^ (w - 1) && top == 2 ^ w - 1

abbrev pub throw_division : Throw → M ℤ
throw_division throw = do throw "java/lang/ArithmeticException" "Cannot divide by 0"; advance 0

-- the test of idiv and irem for 0, and the division `op`
abbrev divide : Throw → (ℤ → ℤ → ℤ) → Handler
divide throw op wide = do
  top ← pop
  next ← pop
  if top == 0
      then throw_division throw
      else if overflows 32 next top
      then crash
      else do push (wrap32 (op (signed32 next) (signed32 top))) type_int; advance 1

abbrev divide2 : Throw → (ℤ → ℤ → ℤ) → Handler
divide2 throw op wide = do
  top ← pop2
  next ← pop2
  if top == 0
      then throw_division throw
      else if overflows 64 next top
      then crash
      else do push2 (wrap64 (op (signed64 next) (signed64 top))) type_long; advance 1

unfoldable pub handle_instr_idiv : Throw → Handler
handle_instr_idiv throw = divide throw quot_ℤ

unfoldable pub handle_instr_ldiv : Throw → Handler
handle_instr_ldiv throw = divide2 throw quot_ℤ

unfoldable pub handle_instr_irem : Throw → Handler
handle_instr_irem throw = divide throw rem_ℤ

unfoldable pub handle_instr_lrem : Throw → Handler
handle_instr_lrem throw = divide2 throw rem_ℤ
