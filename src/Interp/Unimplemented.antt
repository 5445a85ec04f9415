-- ===== src/Interp/Unimplemented.antt =====
-- The handlers of instructions that the interpreter does not implement (bytecode_interpreter.c).
use cs_562_jvm.Machine.{◌>>◌}
use cs_562_jvm.Interp.Defs.{Handler, Throw, advance}

abbrev unimplemented : Throw → Handler
unimplemented throw wide = do throw "java/lang/InternalError" "Unimplemented Instruction"; advance 0

unfoldable pub handle_instr_invokedynamic : Throw → Handler
handle_instr_invokedynamic = unimplemented

unfoldable pub handle_instr_checkcast : Throw → Handler
handle_instr_checkcast = unimplemented

unfoldable pub handle_instr_instanceof : Throw → Handler
handle_instr_instanceof = unimplemented

unfoldable pub handle_instr_breakpoint : Throw → Handler
handle_instr_breakpoint = unimplemented

unfoldable pub handle_instr_impdep1 : Throw → Handler
handle_instr_impdep1 = unimplemented

unfoldable pub handle_instr_impdep2 : Throw → Handler
handle_instr_impdep2 = unimplemented
