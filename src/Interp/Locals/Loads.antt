-- ===== src/Interp/Locals/Loads.antt =====
-- handle_instr_iload to handle_instr_aload_3 (bytecode_interpreter.c).
use cs_562_jvm.Frame.{type_long, type_float, type_double, type_reference}
use cs_562_jvm.Interp.Locals.{handle_instr_xload, handle_instr_xload_n, type_int}
use cs_562_jvm.Interp.Defs.{Handler}

abbrev pub handle_instr_iload : Handler
handle_instr_iload = handle_instr_xload type_int

abbrev pub handle_instr_lload : Handler
handle_instr_lload = handle_instr_xload type_long

abbrev pub handle_instr_fload : Handler
handle_instr_fload = handle_instr_xload type_float

abbrev pub handle_instr_dload : Handler
handle_instr_dload = handle_instr_xload type_double

abbrev pub handle_instr_aload : Handler
handle_instr_aload = handle_instr_xload type_reference

abbrev pub handle_instr_iload_0 : Handler
handle_instr_iload_0 = handle_instr_xload_n 0 type_int

abbrev pub handle_instr_iload_1 : Handler
handle_instr_iload_1 = handle_instr_xload_n 1 type_int

abbrev pub handle_instr_iload_2 : Handler
handle_instr_iload_2 = handle_instr_xload_n 2 type_int

abbrev pub handle_instr_iload_3 : Handler
handle_instr_iload_3 = handle_instr_xload_n 3 type_int

abbrev pub handle_instr_lload_0 : Handler
handle_instr_lload_0 = handle_instr_xload_n 0 type_long

abbrev pub handle_instr_lload_1 : Handler
handle_instr_lload_1 = handle_instr_xload_n 1 type_long

abbrev pub handle_instr_lload_2 : Handler
handle_instr_lload_2 = handle_instr_xload_n 2 type_long

abbrev pub handle_instr_lload_3 : Handler
handle_instr_lload_3 = handle_instr_xload_n 3 type_long

abbrev pub handle_instr_fload_0 : Handler
handle_instr_fload_0 = handle_instr_xload_n 0 type_float

abbrev pub handle_instr_fload_1 : Handler
handle_instr_fload_1 = handle_instr_xload_n 1 type_float

abbrev pub handle_instr_fload_2 : Handler
handle_instr_fload_2 = handle_instr_xload_n 2 type_float

abbrev pub handle_instr_fload_3 : Handler
handle_instr_fload_3 = handle_instr_xload_n 3 type_float

abbrev pub handle_instr_dload_0 : Handler
handle_instr_dload_0 = handle_instr_xload_n 0 type_double

abbrev pub handle_instr_dload_1 : Handler
handle_instr_dload_1 = handle_instr_xload_n 1 type_double

abbrev pub handle_instr_dload_2 : Handler
handle_instr_dload_2 = handle_instr_xload_n 2 type_double

abbrev pub handle_instr_dload_3 : Handler
handle_instr_dload_3 = handle_instr_xload_n 3 type_double

abbrev pub handle_instr_aload_0 : Handler
handle_instr_aload_0 = handle_instr_xload_n 0 type_reference

abbrev pub handle_instr_aload_1 : Handler
handle_instr_aload_1 = handle_instr_xload_n 1 type_reference

abbrev pub handle_instr_aload_2 : Handler
handle_instr_aload_2 = handle_instr_xload_n 2 type_reference

abbrev pub handle_instr_aload_3 : Handler
handle_instr_aload_3 = handle_instr_xload_n 3 type_reference
