-- ===== src/Interp/Bitwise.antt =====
-- Shift and bit handlers (bytecode_interpreter.c, ishl to lxor). C leaves a shift by a negative count
-- or by the width or more undefined: a fault. A shift of a negative number to the left wraps, and to
-- the right it copies the sign, as compilers for two's complement machines have it.
use Prim.Native.Nat.{bit_and, bit_or, bit_xor}
use cs_562_jvm.Base.{ℕ, ◌-◌, ◌*◌, ◌/◌, ◌%◌, ◌^◌, ltb, if◌then◌else◌}
use cs_562_jvm.Frame.{type_int, type_long}
use cs_562_jvm.Machine.{crash, ◌>>=◌, ◌>>◌, pop, pop2, push, push2}
use cs_562_jvm.Interp.Defs.{Handler, advance, binary, binary2}

-- `v << k`, `(intN_t) v >> k` and `(uintN_t) v >> k` at `w` bits
abbrev pub shl_word : ℕ → ℕ → ℕ → ℕ
shl_word w v k = (v * 2 ^ k) % 2 ^ w

abbrev pub sar_word : ℕ → ℕ → ℕ → ℕ
sar_word w v k = if ltb v (2 ^ (w - 1)) then v / 2 ^ k else 2 ^ w - 1 - (2 ^ w - 1 - v) / 2 ^ k

abbrev pub shr_word : ℕ → ℕ → ℕ → ℕ
shr_word w v k = v / 2 ^ k

abbrev shift : (ℕ → ℕ → ℕ) → Handler
shift op wide = do
  top ← pop
  next ← pop
  if ltb top 32 then (do push (op next top) type_int; advance 1) else crash

abbrev shift2 : (ℕ → ℕ → ℕ) → Handler
shift2 op wide = do
  top ← pop
  next ← pop2
  if ltb top 64 then (do push2 (op next top) type_long; advance 1) else crash

unfoldable pub handle_instr_ishl : Handler
handle_instr_ishl = shift (shl_word 32)

unfoldable pub handle_instr_lshl : Handler
handle_instr_lshl = shift2 (shl_word 64)

unfoldable pub handle_instr_ishr : Handler
handle_instr_ishr = shift (sar_word 32)

unfoldable pub handle_instr_lshr : Handler
handle_instr_lshr = shift2 (sar_word 64)

unfoldable pub handle_instr_iushr : Handler
handle_instr_iushr = shift (shr_word 32)

unfoldable pub handle_instr_lushr : Handler
handle_instr_lushr = shift2 (shr_word 64)

unfoldable pub handle_instr_iand : Handler
handle_instr_iand = binary (λ next top. bit_and top next) type_int

unfoldable pub handle_instr_land : Handler
handle_instr_land = binary2 (λ next top. bit_and top next) type_long

unfoldable pub handle_instr_ior : Handler
handle_instr_ior = binary (λ next top. bit_or top next) type_int

unfoldable pub handle_instr_lor : Handler
handle_instr_lor = binary2 (λ next top. bit_or top next) type_long

unfoldable pub handle_instr_ixor : Handler
handle_instr_ixor = binary (λ next top. bit_xor top next) type_int

unfoldable pub handle_instr_lxor : Handler
handle_instr_lxor = binary2 (λ next top. bit_xor top next) type_long
