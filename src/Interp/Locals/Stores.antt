-- ===== src/Interp/Locals/Stores.antt =====
-- handle_instr_istore to handle_instr_astore_3 (bytecode_interpreter.c).
use cs_562_jvm.Interp.Locals.{handle_instr_xstore, handle_instr_xstore_n}
use cs_562_jvm.Interp.Defs.{Handler}

abbrev pub handle_instr_istore : Handler
handle_instr_istore = handle_instr_xstore

abbrev pub handle_instr_lstore : Handler
handle_instr_lstore = handle_instr_xstore

abbrev pub handle_instr_fstore : Handler
handle_instr_fstore = handle_instr_xstore

abbrev pub handle_instr_dstore : Handler
handle_instr_dstore = handle_instr_xstore

abbrev pub handle_instr_astore : Handler
handle_instr_astore = handle_instr_xstore

abbrev pub handle_instr_istore_0 : Handler
handle_instr_istore_0 = handle_instr_xstore_n 0

abbrev pub handle_instr_istore_1 : Handler
handle_instr_istore_1 = handle_instr_xstore_n 1

abbrev pub handle_instr_istore_2 : Handler
handle_instr_istore_2 = handle_instr_xstore_n 2

abbrev pub handle_instr_istore_3 : Handler
handle_instr_istore_3 = handle_instr_xstore_n 3

abbrev pub handle_instr_lstore_0 : Handler
handle_instr_lstore_0 = handle_instr_xstore_n 0

abbrev pub handle_instr_lstore_1 : Handler
handle_instr_lstore_1 = handle_instr_xstore_n 1

abbrev pub handle_instr_lstore_2 : Handler
handle_instr_lstore_2 = handle_instr_xstore_n 2

abbrev pub handle_instr_lstore_3 : Handler
handle_instr_lstore_3 = handle_instr_xstore_n 3

abbrev pub handle_instr_fstore_0 : Handler
handle_instr_fstore_0 = handle_instr_xstore_n 0

abbrev pub handle_instr_fstore_1 : Handler
handle_instr_fstore_1 = handle_instr_xstore_n 1

abbrev pub handle_instr_fstore_2 : Handler
handle_instr_fstore_2 = handle_instr_xstore_n 2

abbrev pub handle_instr_fstore_3 : Handler
handle_instr_fstore_3 = handle_instr_xstore_n 3

abbrev pub handle_instr_dstore_0 : Handler
handle_instr_dstore_0 = handle_instr_xstore_n 0

abbrev pub handle_instr_dstore_1 : Handler
handle_instr_dstore_1 = handle_instr_xstore_n 1

abbrev pub handle_instr_dstore_2 : Handler
handle_instr_dstore_2 = handle_instr_xstore_n 2

abbrev pub handle_instr_dstore_3 : Handler
handle_instr_dstore_3 = handle_instr_xstore_n 3

abbrev pub handle_instr_astore_0 : Handler
handle_instr_astore_0 = handle_instr_xstore_n 0

abbrev pub handle_instr_astore_1 : Handler
handle_instr_astore_1 = handle_instr_xstore_n 1

abbrev pub handle_instr_astore_2 : Handler
handle_instr_astore_2 = handle_instr_xstore_n 2

abbrev pub handle_instr_astore_3 : Handler
handle_instr_astore_3 = handle_instr_xstore_n 3
