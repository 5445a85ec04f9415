-- ===== src/Interp/Opcodes.antt =====
-- The table of handlers by opcode (opcodes.h), which `run` takes. `rest` stands for the handlers that
-- are not modelled, by their opcode.
use cs_562_jvm.Interp.Arrays.{handle_instr_arraylength, handle_instr_athrow}
use cs_562_jvm.Interp.Unimplemented.{
  handle_instr_invokedynamic, handle_instr_checkcast, handle_instr_instanceof,
  handle_instr_breakpoint, handle_instr_impdep1, handle_instr_impdep2,
}
use cs_562_jvm.Interp.Returns.{
  handle_instr_ireturn, handle_instr_lreturn, handle_instr_freturn, handle_instr_dreturn,
  handle_instr_areturn, handle_instr_return,
}
use cs_562_jvm.Interp.Switches.{handle_instr_tableswitch, handle_instr_lookupswitch}
use cs_562_jvm.Interp.Branches.{
  handle_instr_ifeq, handle_instr_ifne, handle_instr_iflt, handle_instr_ifge, handle_instr_ifgt,
  handle_instr_ifle, handle_instr_if_icmpeq, handle_instr_if_icmpne, handle_instr_if_icmplt,
  handle_instr_if_icmpge, handle_instr_if_icmpgt, handle_instr_if_icmple, handle_instr_if_acmpeq,
  handle_instr_if_acmpne, handle_instr_goto, handle_instr_jsr, handle_instr_ret,
  handle_instr_ifnull, handle_instr_ifnonnull, handle_instr_goto_w, handle_instr_jsr_w,
}
use cs_562_jvm.Interp.Conversions.{
  handle_instr_i2l, handle_instr_l2i, handle_instr_i2b, handle_instr_i2c, handle_instr_i2s,
  handle_instr_lcmp,
}
use cs_562_jvm.Interp.Locals.{handle_instr_iinc}
use cs_562_jvm.Interp.Bitwise.{
  handle_instr_ishl, handle_instr_lshl, handle_instr_ishr, handle_instr_lshr, handle_instr_iushr,
  handle_instr_lushr, handle_instr_iand, handle_instr_land, handle_instr_ior, handle_instr_lor,
  handle_instr_ixor, handle_instr_lxor,
}
use cs_562_jvm.Interp.Arithmetic.{
  handle_instr_iadd, handle_instr_ladd, handle_instr_isub, handle_instr_lsub, handle_instr_imul,
  handle_instr_lmul, handle_instr_idiv, handle_instr_ldiv, handle_instr_irem, handle_instr_lrem,
  handle_instr_ineg, handle_instr_lneg,
}
use cs_562_jvm.Interp.Operands.{
  handle_instr_pop, handle_instr_pop2, handle_instr_dup, handle_instr_dup_x1, handle_instr_dup_x2,
  handle_instr_dup2, handle_instr_dup2_x1, handle_instr_dup2_x2, handle_instr_swap,
}
use cs_562_jvm.Interp.Locals.Stores.{
  handle_instr_istore, handle_instr_lstore, handle_instr_fstore, handle_instr_dstore,
  handle_instr_astore, handle_instr_istore_0, handle_instr_istore_1, handle_instr_istore_2,
  handle_instr_istore_3, handle_instr_lstore_0, handle_instr_lstore_1, handle_instr_lstore_2,
  handle_instr_lstore_3, handle_instr_fstore_0, handle_instr_fstore_1, handle_instr_fstore_2,
  handle_instr_fstore_3, handle_instr_dstore_0, handle_instr_dstore_1, handle_instr_dstore_2,
  handle_instr_dstore_3, handle_instr_astore_0, handle_instr_astore_1, handle_instr_astore_2,
  handle_instr_astore_3,
}
use cs_562_jvm.Interp.Arrays.Typed.{
  handle_instr_iaload, handle_instr_laload, handle_instr_faload, handle_instr_daload,
  handle_instr_aaload, handle_instr_baload, handle_instr_caload, handle_instr_saload,
  handle_instr_iastore, handle_instr_lastore, handle_instr_fastore, handle_instr_dastore,
  handle_instr_aastore, handle_instr_bastore, handle_instr_castore, handle_instr_sastore,
}
use cs_562_jvm.Interp.Locals.Loads.{
  handle_instr_iload, handle_instr_lload, handle_instr_fload, handle_instr_dload,
  handle_instr_aload, handle_instr_iload_0, handle_instr_iload_1, handle_instr_iload_2,
  handle_instr_iload_3, handle_instr_lload_0, handle_instr_lload_1, handle_instr_lload_2,
  handle_instr_lload_3, handle_instr_fload_0, handle_instr_fload_1, handle_instr_fload_2,
  handle_instr_fload_3, handle_instr_dload_0, handle_instr_dload_1, handle_instr_dload_2,
  handle_instr_dload_3, handle_instr_aload_0, handle_instr_aload_1, handle_instr_aload_2,
  handle_instr_aload_3,
}
use cs_562_jvm.Interp.Constants.{
  handle_instr_nop, handle_instr_aconst_null, handle_instr_iconst_m1, handle_instr_iconst_0,
  handle_instr_iconst_1, handle_instr_iconst_2, handle_instr_iconst_3, handle_instr_iconst_4,
  handle_instr_iconst_5, handle_instr_lconst_0, handle_instr_lconst_1, handle_instr_fconst_0,
  handle_instr_fconst_1, handle_instr_fconst_2, handle_instr_dconst_0, handle_instr_dconst_1,
  handle_instr_bipush, handle_instr_sipush, handle_instr_unknown,
}
use cs_562_jvm.Interp.Floats.{
  Floats, handle_instr_fadd, handle_instr_dadd, handle_instr_fsub, handle_instr_dsub,
  handle_instr_fmul, handle_instr_dmul, handle_instr_fdiv, handle_instr_ddiv, handle_instr_frem,
  handle_instr_drem, handle_instr_fneg, handle_instr_dneg, handle_instr_i2f, handle_instr_i2d,
  handle_instr_l2f, handle_instr_l2d, handle_instr_f2i, handle_instr_f2l, handle_instr_f2d,
  handle_instr_d2i, handle_instr_d2l, handle_instr_d2f, handle_instr_fcmpl, handle_instr_fcmpg,
  handle_instr_dcmpl, handle_instr_dcmpg,
}
use cs_562_jvm.Machine.{crash, ◌>>=◌, read_byte_operand, lift}
use cs_562_jvm.Base.{[], List, ℕ, suc, get_elem?, ◌∷◌, wrap, half8, true, zero}
use cs_562_jvm.Interp.Defs.{Handler, Throw}

-- a call through a null pointer
abbrev no_handler : Handler
no_handler wide = crash

-- `instr_table[(uint8_t) readByteOperand(jthread, 1)](interpreter, true)`
unfoldable pub handle_instr_wide : List Handler → Handler
handle_instr_wide table wide = do
  opcode ← read_byte_operand 1
  handler ← lift (get_elem? table (wrap half8 opcode))
  handler true

-- `depth` bounds the search of lookupswitch. The handler of the wide prefix calls the table again:
-- `wides` bounds how often in a row.
unfoldable pub instr_table : Throw → Floats → ℕ → (ℕ → Handler) → ℕ → List Handler
unfolding handle_instr_wide
instr_table throw floats depth rest zero = []
instr_table throw floats depth rest (suc wides) =
    handle_instr_nop
    ∷ handle_instr_aconst_null
    ∷ handle_instr_iconst_m1
    ∷ handle_instr_iconst_0
    ∷ handle_instr_iconst_1
    ∷ handle_instr_iconst_2
    ∷ handle_instr_iconst_3
    ∷ handle_instr_iconst_4
    ∷ handle_instr_iconst_5
    ∷ handle_instr_lconst_0
    ∷ handle_instr_lconst_1
    ∷ handle_instr_fconst_0
    ∷ handle_instr_fconst_1
    ∷ handle_instr_fconst_2
    ∷ handle_instr_dconst_0
    ∷ handle_instr_dconst_1
    ∷ handle_instr_bipush
    ∷ handle_instr_sipush
    ∷ rest 18
    ∷ rest 19
    ∷ rest 20
    ∷ handle_instr_iload
    ∷ handle_instr_lload
    ∷ handle_instr_fload
    ∷ handle_instr_dload
    ∷ handle_instr_aload
    ∷ handle_instr_iload_0
    ∷ handle_instr_iload_1
    ∷ handle_instr_iload_2
    ∷ handle_instr_iload_3
    ∷ handle_instr_lload_0
    ∷ handle_instr_lload_1
    ∷ handle_instr_lload_2
    ∷ handle_instr_lload_3
    ∷ handle_instr_fload_0
    ∷ handle_instr_fload_1
    ∷ handle_instr_fload_2
    ∷ handle_instr_fload_3
    ∷ handle_instr_dload_0
    ∷ handle_instr_dload_1
    ∷ handle_instr_dload_2
    ∷ handle_instr_dload_3
    ∷ handle_instr_aload_0
    ∷ handle_instr_aload_1
    ∷ handle_instr_aload_2
    ∷ handle_instr_aload_3
    ∷ handle_instr_iaload throw
    ∷ handle_instr_laload throw
    ∷ handle_instr_faload throw
    ∷ handle_instr_daload throw
    ∷ handle_instr_aaload throw
    ∷ handle_instr_baload throw
    ∷ handle_instr_caload throw
    ∷ handle_instr_saload throw
    ∷ handle_instr_istore
    ∷ handle_instr_lstore
    ∷ handle_instr_fstore
    ∷ handle_instr_dstore
    ∷ handle_instr_astore
    ∷ handle_instr_istore_0
    ∷ handle_instr_istore_1
    ∷ handle_instr_istore_2
    ∷ handle_instr_istore_3
    ∷ handle_instr_lstore_0
    ∷ handle_instr_lstore_1
    ∷ handle_instr_lstore_2
    ∷ handle_instr_lstore_3
    ∷ handle_instr_fstore_0
    ∷ handle_instr_fstore_1
    ∷ handle_instr_fstore_2
    ∷ handle_instr_fstore_3
    ∷ handle_instr_dstore_0
    ∷ handle_instr_dstore_1
    ∷ handle_instr_dstore_2
    ∷ handle_instr_dstore_3
    ∷ handle_instr_astore_0
    ∷ handle_instr_astore_1
    ∷ handle_instr_astore_2
    ∷ handle_instr_astore_3
    ∷ handle_instr_iastore throw
    ∷ handle_instr_lastore throw
    ∷ handle_instr_fastore throw
    ∷ handle_instr_dastore throw
    ∷ handle_instr_aastore throw
    ∷ handle_instr_bastore throw
    ∷ handle_instr_castore throw
    ∷ handle_instr_sastore throw
    ∷ handle_instr_pop
    ∷ handle_instr_pop2
    ∷ handle_instr_dup
    ∷ handle_instr_dup_x1
    ∷ handle_instr_dup_x2
    ∷ handle_instr_dup2
    ∷ handle_instr_dup2_x1
    ∷ handle_instr_dup2_x2
    ∷ handle_instr_swap
    ∷ handle_instr_iadd
    ∷ handle_instr_ladd
    ∷ handle_instr_fadd floats
    ∷ handle_instr_dadd floats
    ∷ handle_instr_isub
    ∷ handle_instr_lsub
    ∷ handle_instr_fsub floats
    ∷ handle_instr_dsub floats
    ∷ handle_instr_imul
    ∷ handle_instr_lmul
    ∷ handle_instr_fmul floats
    ∷ handle_instr_dmul floats
    ∷ handle_instr_idiv throw
    ∷ handle_instr_ldiv throw
    ∷ handle_instr_fdiv floats
    ∷ handle_instr_ddiv floats
    ∷ handle_instr_irem throw
    ∷ handle_instr_lrem throw
    ∷ handle_instr_frem floats
    ∷ handle_instr_drem floats
    ∷ handle_instr_ineg
    ∷ handle_instr_lneg
    ∷ handle_instr_fneg floats
    ∷ handle_instr_dneg floats
    ∷ handle_instr_ishl
    ∷ handle_instr_lshl
    ∷ handle_instr_ishr
    ∷ handle_instr_lshr
    ∷ handle_instr_iushr
    ∷ handle_instr_lushr
    ∷ handle_instr_iand
    ∷ handle_instr_land
    ∷ handle_instr_ior
    ∷ handle_instr_lor
    ∷ handle_instr_ixor
    ∷ handle_instr_lxor
    ∷ handle_instr_iinc
    ∷ handle_instr_i2l
    ∷ handle_instr_i2f floats
    ∷ handle_instr_i2d floats
    ∷ handle_instr_l2i
    ∷ handle_instr_l2f floats
    ∷ handle_instr_l2d floats
    ∷ handle_instr_f2i floats
    ∷ handle_instr_f2l floats
    ∷ handle_instr_f2d floats
    ∷ handle_instr_d2i floats
    ∷ handle_instr_d2l floats
    ∷ handle_instr_d2f floats
    ∷ handle_instr_i2b
    ∷ handle_instr_i2c
    ∷ handle_instr_i2s
    ∷ handle_instr_lcmp
    ∷ handle_instr_fcmpl floats
    ∷ handle_instr_fcmpg floats
    ∷ handle_instr_dcmpl floats
    ∷ handle_instr_dcmpg floats
    ∷ handle_instr_ifeq
    ∷ handle_instr_ifne
    ∷ handle_instr_iflt
    ∷ handle_instr_ifge
    ∷ handle_instr_ifgt
    ∷ handle_instr_ifle
    ∷ handle_instr_if_icmpeq
    ∷ handle_instr_if_icmpne
    ∷ handle_instr_if_icmplt
    ∷ handle_instr_if_icmpge
    ∷ handle_instr_if_icmpgt
    ∷ handle_instr_if_icmple
    ∷ handle_instr_if_acmpeq
    ∷ handle_instr_if_acmpne
    ∷ handle_instr_goto
    ∷ handle_instr_jsr
    ∷ handle_instr_ret
    ∷ handle_instr_tableswitch
    ∷ handle_instr_lookupswitch depth
    ∷ handle_instr_ireturn
    ∷ handle_instr_lreturn
    ∷ handle_instr_freturn
    ∷ handle_instr_dreturn
    ∷ handle_instr_areturn
    ∷ handle_instr_return
    ∷ rest 178
    ∷ rest 179
    ∷ rest 180
    ∷ rest 181
    ∷ rest 182
    ∷ rest 183
    ∷ rest 184
    ∷ rest 185
    ∷ handle_instr_invokedynamic throw
    ∷ rest 187
    ∷ rest 188
    ∷ rest 189
    ∷ handle_instr_arraylength throw
    ∷ handle_instr_athrow throw
    ∷ handle_instr_checkcast throw
    ∷ handle_instr_instanceof throw
    ∷ rest 194
    ∷ rest 195
    ∷ handle_instr_wide (instr_table throw floats depth rest wides)
    ∷ rest 197
    ∷ handle_instr_ifnull
    ∷ handle_instr_ifnonnull
    ∷ handle_instr_goto_w
    ∷ handle_instr_jsr_w
    ∷ handle_instr_breakpoint throw
    ∷ handle_instr_unknown throw
    ∷ handle_instr_unknown throw
    ∷ handle_instr_unknown throw
    ∷ handle_instr_unknown throw
    ∷ handle_instr_unknown throw
    ∷ handle_instr_unknown throw
    ∷ handle_instr_unknown throw
    ∷ handle_instr_unknown throw
    ∷ handle_instr_unknown throw
    ∷ handle_instr_unknown throw
    ∷ handle_instr_unknown throw
    ∷ handle_instr_unknown throw
    ∷ handle_instr_unknown throw
    ∷ handle_instr_unknown throw
    ∷ handle_instr_unknown throw
    ∷ handle_instr_unknown throw
    ∷ handle_instr_unknown throw
    ∷ handle_instr_unknown throw
    ∷ handle_instr_unknown throw
    ∷ handle_instr_unknown throw
    ∷ handle_instr_unknown throw
    ∷ handle_instr_unknown throw
    ∷ handle_instr_unknown throw
    ∷ handle_instr_unknown throw
    ∷ handle_instr_unknown throw
    ∷ handle_instr_unknown throw
    ∷ handle_instr_unknown throw
    ∷ handle_instr_unknown throw
    ∷ handle_instr_unknown throw
    ∷ handle_instr_unknown throw
    ∷ handle_instr_unknown throw
    ∷ handle_instr_unknown throw
    ∷ handle_instr_unknown throw
    ∷ handle_instr_unknown throw
    ∷ handle_instr_unknown throw
    ∷ handle_instr_unknown throw
    ∷ handle_instr_unknown throw
    ∷ handle_instr_unknown throw
    ∷ handle_instr_unknown throw
    ∷ handle_instr_unknown throw
    ∷ handle_instr_unknown throw
    ∷ handle_instr_unknown throw
    ∷ handle_instr_unknown throw
    ∷ handle_instr_unknown throw
    ∷ handle_instr_unknown throw
    ∷ handle_instr_unknown throw
    ∷ handle_instr_unknown throw
    ∷ handle_instr_unknown throw
    ∷ handle_instr_unknown throw
    ∷ handle_instr_unknown throw
    ∷ handle_instr_unknown throw
    ∷ handle_instr_impdep1 throw
    ∷ handle_instr_impdep2 throw
    ∷ []
