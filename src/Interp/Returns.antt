-- ===== src/Interp/Returns.antt =====
-- The handlers that return from a method, and the loop `run` (bytecode_interpreter.c).
pub mod Values
pub mod Rounds
use cs_562_jvm.Base.{
  ℕ, zero, suc, ◌+◌, Option, none, some, List, [], ◌∷◌, if◌then◌else◌, ℤ, pos, negsuc, get_elem?,
  Bool, ◌==◌,
}
use cs_562_jvm.Frame.{Frame, type_int, type_long, type_float, type_double, type_reference}
use cs_562_jvm.Machine.{
  M, ok, fault, pure, crash, ◌>>=◌, ◌>>◌, pop, pop2, push, push2, lift, code_byte,
}
use mathlib.Core.Option
use cs_562_jvm.Interp.Defs.{Handler, advance}

-- `pc = currentStackFrame->prevFramePC; currentStackFrame = currentStackFrame->previousStackFrame`
abbrev pub leave_to : List Frame → M (Unit {0})
leave_to [] m = fault
leave_to (f ∷ fs) m = ok tt (record m { frames = fs; pc = f.prev_pc })

unfoldable pub leave_frame : M (Unit {0})
leave_frame m = leave_to m.frames m

abbrev pub return_cell : ℕ → Handler
return_cell t wide = do v ← pop; leave_frame; push v t; advance 0

abbrev pub return_cell2 : ℕ → Handler
return_cell2 t wide = do v ← pop2; leave_frame; push2 v t; advance 0

unfoldable pub handle_instr_ireturn : Handler
unfolding leave_frame
handle_instr_ireturn = return_cell type_int

unfoldable pub handle_instr_lreturn : Handler
unfolding leave_frame
handle_instr_lreturn = return_cell2 type_long

unfoldable pub handle_instr_freturn : Handler
unfolding leave_frame
handle_instr_freturn = return_cell type_float

unfoldable pub handle_instr_dreturn : Handler
unfolding leave_frame
handle_instr_dreturn = return_cell2 type_double

unfoldable pub handle_instr_areturn : Handler
unfolding leave_frame
handle_instr_areturn = return_cell type_reference

-- `return -EJUST_RETURNED`
unfoldable pub handle_instr_return : Handler
unfolding leave_frame
handle_instr_return wide = do leave_frame; pure (negsuc 1)

abbrev add_pc : ℕ → M (Unit {0})
add_pc n m = ok tt (record m { pc = m.pc + n })

abbrev no_frames : M (Option (Unit {0}))
no_frames m = elim m.frames [ [] ↦ ok (some tt) m | _ ↦ ok none m ]

-- What `run` does with the result of a handler: `some r` is `return r`, `none` is the next round.
unfoldable pub after_instr : ℤ → M (Option ℕ)
after_instr (pos zero) = pure none
after_instr (pos (suc n)) = do add_pc (suc n); pure none
after_instr (negsuc n) =
    if n == 1
    then (do done ← no_frames; pure (Option.map (λ _. 0) done))
    else if n == 2
    then pure (some 1)
    else pure none

-- One round of the loop in `run`: `save_point` is savePoint(), and `table` instr_table.
unfoldable pub run_round : M (Unit {0}) → List Handler → M (Option ℕ)
unfolding after_instr
run_round save_point table = do
  save_point
  opcode ← code_byte 0
  handler ← lift (get_elem? table opcode)
  ret ← handler Bool.false
  after_instr ret

-- `run`, for at most `fuel` rounds
unfoldable pub run : ℕ → M (Unit {0}) → List Handler → M ℕ
unfolding run_round
run zero save_point table = crash
run (suc fuel) save_point table = do
  done ← run_round save_point table
  elim done [ none ↦ run fuel save_point table | some r ↦ pure r ]
