-- ===== src/Interp/Arrays/Typed.antt =====
-- handle_instr_iaload to handle_instr_saload, handle_instr_iastore to handle_instr_sastore
-- (bytecode_interpreter.c).
use cs_562_jvm.Interp.Arrays.{handle_instr_xaload, handle_instr_xastore}
use cs_562_jvm.Interp.Defs.{Handler, Throw}

abbrev pub handle_instr_iaload : Throw → Handler
handle_instr_iaload = handle_instr_xaload

abbrev pub handle_instr_laload : Throw → Handler
handle_instr_laload = handle_instr_xaload

abbrev pub handle_instr_faload : Throw → Handler
handle_instr_faload = handle_instr_xaload

abbrev pub handle_instr_daload : Throw → Handler
handle_instr_daload = handle_instr_xaload

abbrev pub handle_instr_aaload : Throw → Handler
handle_instr_aaload = handle_instr_xaload

abbrev pub handle_instr_baload : Throw → Handler
handle_instr_baload = handle_instr_xaload

abbrev pub handle_instr_caload : Throw → Handler
handle_instr_caload = handle_instr_xaload

abbrev pub handle_instr_saload : Throw → Handler
handle_instr_saload = handle_instr_xaload

abbrev pub handle_instr_iastore : Throw → Handler
handle_instr_iastore = handle_instr_xastore

abbrev pub handle_instr_lastore : Throw → Handler
handle_instr_lastore = handle_instr_xastore

abbrev pub handle_instr_fastore : Throw → Handler
handle_instr_fastore = handle_instr_xastore

abbrev pub handle_instr_dastore : Throw → Handler
handle_instr_dastore = handle_instr_xastore

abbrev pub handle_instr_aastore : Throw → Handler
handle_instr_aastore = handle_instr_xastore

abbrev pub handle_instr_bastore : Throw → Handler
handle_instr_bastore = handle_instr_xastore

abbrev pub handle_instr_castore : Throw → Handler
handle_instr_castore = handle_instr_xastore

abbrev pub handle_instr_sastore : Throw → Handler
handle_instr_sastore = handle_instr_xastore
