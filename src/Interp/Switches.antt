-- ===== src/Interp/Switches.antt =====
-- tableswitch and lookupswitch (bytecode_interpreter.c). The code of a method is a block from malloc,
-- aligned to at least 4 bytes, so the padding that is computed from the address of the instruction
-- is a function of its index.
pub mod Search
pub mod Table
use cs_562_jvm.Base.{
  ℕ, zero, suc, ◌+◌, ◌-◌, ◌*◌, ◌/◌, ◌%◌, Bool, ◌||◌, Option, none, some, leb, ◌==◌, if◌then◌else◌,
  ℤ, pos, pos_part, neg_part, ltb_ℤ, signed32, ◌+ℤ◌, ◌-ℤ◌,
}
use cs_562_jvm.Machine.{M, Machine, ok, pure, crash, ◌>>=◌, ◌>>◌, pop, read_int_operand, jump}
use cs_562_jvm.Interp.Defs.{Handler, advance}

-- `((pc & ~3) + 4) - pc`
unfoldable pub padding : M ℕ
padding m = ok (m.pc / 4 * 4 + 4 - m.pc) m

-- readIntOperand at an offset that may be negative, which is before the instruction
abbrev pub read_int_at : ℤ → M ℤ
read_int_at (pos n) = read_int_operand n
read_int_at (ℤ.negsuc n) = crash

unfoldable pub handle_instr_tableswitch : Handler
handle_instr_tableswitch wide = do
  offset ← padding
  default_offset ← read_int_operand offset
  low ← read_int_operand (offset + 4)
  high ← read_int_operand (offset + 8)
  index ← pop
  if ltb_ℤ (signed32 index) low || ltb_ℤ high (signed32 index)
      then (do jump default_offset; advance 0)
      else do
        address_offset ← read_int_at (pos (offset + 12) +ℤ signed32 index -ℤ low)
        jump address_offset
        advance 0

-- lookupswitch_binary_search, on fuel for the depth of the C stack: a search that goes deeper is a
-- fault. `none` is the result -1.
unfoldable pub lookupswitch_binary_search : ℕ → ℕ → ℕ → ℕ → ℤ → M (Option ℕ)
lookupswitch_binary_search zero base start end key = crash
lookupswitch_binary_search (suc fuel) base start end key =
    let mid = start + (end - start) / 2 in
    let upper = lookupswitch_binary_search fuel base mid end key in
    let lower = lookupswitch_binary_search fuel base start mid key in
    if leb end start then pure none else do
      test_key ← read_int_operand (base + 8 * mid)
      if ltb_ℤ test_key key then upper else if ltb_ℤ key test_key then lower else pure (some mid)

abbrev pub switch_to : ℕ → ℤ → Option ℕ → M ℤ
switch_to pair_start default_offset none = do jump default_offset; advance 0
switch_to pair_start default_offset (some location) = do
  address_offset ← read_int_operand (pair_start + 8 * location + 4)
  jump address_offset
  advance 0

-- `depth` is the fuel of the search.
unfoldable pub handle_instr_lookupswitch : ℕ → Handler
handle_instr_lookupswitch depth wide = do
  offset ← padding
  default_offset ← read_int_operand offset
  npairs ← read_int_operand (offset + 4)
  key ← pop
  location ← lookupswitch_binary_search depth (offset + 8) 0 (pos_part npairs) (signed32 key)
  switch_to (offset + 8) default_offset location
