-- ===== src/Tests/Stack.antt =====
-- Instructions that work on the operand stack and the local variables.
use cs_562_jvm.Interp.Returns.Values.{cell_returns-Ends}
use cs_562_jvm.Interp.Arithmetic.Signed.{iadd_isub-signed32}
use cs_562_jvm.Interp.Returns.{handle_instr_ireturn, handle_instr_freturn, handle_instr_areturn}
use cs_562_jvm.Interp.Conversions.{handle_instr_lcmp}
use cs_562_jvm.Interp.Conversions.Widths.{FitsLong, lcmp_wraps}
use cs_562_jvm.Interp.Arithmetic.{
  handle_instr_idiv, handle_instr_iadd, handle_instr_irem, handle_instr_isub,
}
use cs_562_jvm.Interp.Arithmetic.Division.{Divides, idiv_irem-Divides}
use cs_562_jvm.Interp.Defs.{Throw}
use cs_562_jvm.Base.{
  [], ℤ, ℕ, List, ◌∷◌, signed64, false, arith, ◌*◌, pos, ◌^◌, wrap32, ◌-◌, ◌+◌, ◌-ℤ◌, refl, ◌+ℤ◌,
}
use cs_562_jvm.Frame.{Frame, type_int, type_float, type_reference}
use cs_562_jvm.Machine.{Machine, crash}
use cs_562_jvm.Tests.Machines.{frame, machine, with_height, standing, filled}
use cs_562_jvm.Machine.Effects.{on, Leaves, At, Ends}

abbrev b0 : Machine
b0 = machine 0

abbrev f0 : Frame
f0 = frame []

abbrev m2 : Machine
m2 = on b0 [] (with_height f0 2)

abbrev m4 : Machine
m4 = on b0 [] (with_height f0 4)

at2 : At b0 f0 [] ((9, 4) ∷ (7, 4) ∷ []) m2
at2 = standing b0 f0 [] 2 (omega arith) (omega arith)

at4 : At b0 f0 [] ((5, 4) ∷ (3, 4) ∷ (9, 4) ∷ (7, 4) ∷ []) m4
at4 = standing b0 f0 [] 4 (omega arith) (omega arith)

iadd_isub_example :
    Leaves b0 f0 [] ((16, 4) ∷ []) (handle_instr_iadd false) (pos 1) m2
    × Leaves b0 f0 [] ((2 ^ 32 - 2, 4) ∷ []) (handle_instr_isub false) (pos 1) m2
unfolding ◌+ℤ◌ ◌-ℤ◌
iadd_isub_example =
    iadd_isub-signed32 false 9 7 4 4 at2 (omega arith) (omega arith) (omega arith, omega arith)

abbrev no_throw : Throw
no_throw class_name message = crash

idiv_irem_example :
    (q r : ℤ) × Divides (pos 7) (pos 9) q r
    × Leaves b0 f0 [] ((wrap32 q, 4) ∷ []) (handle_instr_idiv no_throw false) (pos 1) m2
    × Leaves b0 f0 [] ((wrap32 r, 4) ∷ []) (handle_instr_irem no_throw false) (pos 1) m2
idiv_irem_example =
    idiv_irem-Divides false no_throw 9 7 4 4 at2 (omega arith) (omega arith) (omega arith) refl
      (omega arith, omega arith)

small : FitsLong (signed64 (9 * 2 ^ 32 + 7) -ℤ signed64 (5 * 2 ^ 32 + 3))
unfolding ◌-ℤ◌
small = (omega arith, omega arith)

-- -2 ^ 63 below 1
abbrev f2 : Frame
f2 = record f0 { operands = 0 ∷ 2 ^ 31 ∷ 1 ∷ 0 ∷ [] }

wraps : ¬ FitsLong (signed64 (2 ^ 63) -ℤ signed64 1)
unfolding ◌-ℤ◌
wraps h = omega (arith, h.0, h.1)

-- the answer is 1, although the lower operand is less
lcmp_wraps_example :
    Leaves b0 f2 [] ((1, 4) ∷ []) (handle_instr_lcmp false) (pos 1) (on b0 [] (with_height f2 4))
lcmp_wraps_example =
    lcmp_wraps false 1 (2 ^ 63) 4 4 (standing b0 f2 [] 4 (omega arith) (omega arith)) (omega arith)
      (omega arith) (omega arith, omega arith) wraps

-- the bytes of iinc 1 -2, istore 2 and wide iinc 1 258
abbrev iinc_code : List ℕ
iinc_code = 132 ∷ 1 ∷ 254 ∷ 54 ∷ 2 ∷ 196 ∷ 132 ∷ 0 ∷ 1 ∷ 1 ∷ 2 ∷ []

abbrev f1 : Frame
f1 = frame iinc_code

-- istore_2 with two operands

cell_returns_example :
    Ends
      (machine 17)
      f1
      []
      ((9, type_int) ∷ (7, 4) ∷ [])
      (pos 0)
      (handle_instr_ireturn false (on b0 (with_height f1 1 ∷ []) (with_height f0 2)))
    × Ends
        (machine 17)
        f1
        []
        ((9, type_float) ∷ (7, 4) ∷ [])
        (pos 0)
        (handle_instr_freturn false (on b0 (with_height f1 1 ∷ []) (with_height f0 2)))
    × Ends
        (machine 17)
        f1
        []
        ((9, type_reference) ∷ (7, 4) ∷ [])
        (pos 0)
        (handle_instr_areturn false (on b0 (with_height f1 1 ∷ []) (with_height f0 2)))
cell_returns_example =
    cell_returns-Ends false 9 4
      (standing b0 f0 (with_height f1 1 ∷ []) 2 (omega arith) (omega arith))
      (filled f1 1 (omega arith) (omega arith)) (omega arith, omega arith)
