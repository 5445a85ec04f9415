-- ===== src/Interp/Allocation.antt =====
-- The handlers that make objects and arrays (bytecode_interpreter.c: new, newarray, anewarray,
-- multianewarray). A class is a number, and a slot 0 is NULL.
use cs_562_jvm.Parser.Class.{class_name_at}
use cs_562_jvm.Parser.Pool.{ConstantPool}
use cs_562_jvm.Machine.{push, read_short_operand, read_byte_operand, pop, from_frame, write_frame}
use cs_562_jvm.Frame.{
  type_boolean, type_char, type_reference, type_float, type_double, type_byte, type_short, type_int,
  type_long, Frame,
}
use cs_562_jvm.Classfile.{Name}
use Prim.Native.String.{String}
use cs_562_jvm.Base.{
  [], ◌∷◌, List, ℤ, ℕ, if◌then◌else◌, Option, ◌==◌, Bool, pos, some, none, wrap, half8, half16, leb,
  take, ◌-◌, drop,
}
use cs_562_jvm.Interp.Statics.{Vm, pure, ◌>>=◌, ◌>>◌, on_machine, given}

-- the switch of newarray on the operand of the instruction
unfoldable pub array_type_char : ℕ → ℕ
array_type_char type =
    if type == type_boolean
    then b'Z'
    else if type == type_char
    then b'C'
    else if type == type_float
    then b'F'
    else if type == type_double
    then b'D'
    else if type == type_byte
    then b'B'
    else if type == type_short
    then b'S'
    else if type == type_int
    then b'I'
    else if type == type_long
    then b'J'
    else b'I'

-- the `n` topmost cells of the operand stack, from the lowest on
abbrev top_cells : ℕ → Frame → Option (List ℕ)
top_cells n f = if leb n f.top then some (take n (drop (f.top - n) f.operands)) else none

-- `topOfStack -= n`
abbrev drop_cells : ℕ → Frame → Option Frame
drop_cells n f = if leb n f.top then some (record f { top = f.top - n }) else none

-- `throw` is throwException, `load` loadClass, `load_primitive` loadPrimitiveClass, and `initialize`
-- initializeClass.
module _ (throw : String → String → Vm (Unit {0})) (load : Name → Vm (Option ℕ))
    (load_primitive : ℕ → Vm (Option ℕ)) (initialize : ℕ → Vm Bool) where
  abbrev refused : String → String → Vm ℤ
  refused class_name message = do throw class_name message; pure (pos 0)

  -- the tests on the class, and what follows them
  abbrev with_loaded : String → Option ℕ → (ℕ → Vm ℤ) → Vm ℤ
  with_loaded message none next = refused "NoClassDefFoundError" message
  with_loaded message (some id) next = do
    initialized ← initialize id
    if initialized
        then next id
        else refused "java/lang/ExceptionInInitializerError" "Failed to initialize class"

  -- the test on the new slot, and the push
  abbrev push_slot : ℕ → ℕ → Vm ℤ
  push_slot slot n =
      if slot == 0
      then refused "java/lang/OutOfMemoryError" "Failed to create array"
      else (do on_machine (push slot type_reference); pure (pos n))

  -- `new_object` is newObject and `new_array` newArray, with the sizes in the number of dimensions;
  -- `pool` is the constant pool of the class of the current method.
  module _ (new_object : ℕ → Vm ℕ) (new_array : List ℕ → ℕ → Vm ℕ) (pool : ConstantPool) where
    -- the class that an index names
    abbrev load_index : ℕ → Vm (Option ℕ)
    load_index index = do name ← given (class_name_at pool index); load name

    -- the index is kept in a uint8_t
    unfoldable pub handle_instr_new : Vm ℤ
    handle_instr_new = do
      index ← on_machine (read_short_operand 1)
      loaded ← load_index (wrap half8 index)
      with_loaded "Failed to find class" loaded λ id. do slot ← new_object id; push_slot slot 3

    unfoldable pub handle_instr_newarray : Vm ℤ
    handle_instr_newarray = do
      type ← on_machine (read_byte_operand 1)
      loaded ← load_primitive (array_type_char (wrap half8 type))
      with_loaded "Failed to load primitive class" loaded
          λ id. do size ← on_machine pop; slot ← new_array (size ∷ []) id; push_slot slot 2

    unfoldable pub handle_instr_anewarray : Vm ℤ
    handle_instr_anewarray = do
      index ← on_machine (read_short_operand 1)
      loaded ← load_index (wrap half8 index)
      with_loaded "Failed to find class" loaded
          λ id. do size ← on_machine pop; slot ← new_array (size ∷ []) id; push_slot slot 3

    -- the sizes lie in the top cells, which are popped when the array has been made
    unfoldable pub handle_instr_multianewarray : Vm ℤ
    handle_instr_multianewarray = do
      index ← on_machine (read_short_operand 1)
      dimensions ← on_machine (read_byte_operand 3)
      loaded ← load_index (wrap half16 index)
      with_loaded "Failed to find class" loaded λ id.
          let n = wrap half8 dimensions in
          (do
            sizes ← on_machine (from_frame (top_cells n))
            slot ← new_array sizes id
            if slot == 0
                then refused "java/lang/OutOfMemoryError" "Failed to create array"
                else (do on_machine (write_frame (drop_cells n)); push_slot slot 4))
