-- ===== src/Interp/Arrays.antt =====
-- The handlers of arrays and athrow (bytecode_interpreter.c: handle_instr_xaload,
-- handle_instr_xastore, arraylength, athrow). getObject of slot 0 is NULL.
pub mod Bounds
pub mod Typed
use cs_562_jvm.Base.{
  ℕ, Bool, not, ◌||◌, Option, none, some, ◌==◌, if◌then◌else◌, ℤ, pos, ltb_ℤ, signed32,
}
use cs_562_jvm.Frame.{type_int, is_wide, peek_operand_type}
use cs_562_jvm.Machine.{
  Machine, Object, M, ok, pure, crash, lift, ◌>>=◌, ◌>>◌, from_frame, pop, pop2, push, push2,
}
use cs_562_jvm.Interp.Defs.{Handler, Throw, advance}
use cs_562_jvm.Object.{
  get_array_element_type, get_array_element, get_array_element2, set_array_element,
  set_array_element2,
}

abbrev pub get_object : ℕ → M (Option Object)
get_object slot m = ok (m.objects slot) m

-- a write through the pointer that getObject returned
abbrev pub put_object : ℕ → Object → M (Unit {0})
put_object slot obj m =
    ok tt (record m { objects = λ i. if i == slot then some obj else m.objects i })

-- `index < 0 || index >= obj->length`
abbrev pub out_of_bounds : ℕ → Object → Bool
out_of_bounds index obj =
    ltb_ℤ (signed32 index) (pos 0) || not (ltb_ℤ (signed32 index) (signed32 obj.len))

abbrev null_array : Throw → M ℤ
null_array throw = do throw "java/lang/NullPointerException" "Array was null"; advance 0

abbrev bad_index : Throw → M ℤ
bad_index throw = do
  throw "java/lang/ArrayIndexOutOfBoundsException" "index was out of bounds for the array"
  advance 0

-- the tests that both handlers make before the access
abbrev pub checked : Throw → ℕ → Option Object → (Object → M ℤ) → M ℤ
checked throw index none access = null_array throw
checked throw index (some obj) access =
    if out_of_bounds index obj then bad_index throw else access obj

unfoldable pub handle_instr_xaload : Throw → Handler
handle_instr_xaload throw wide = do
  index ← pop
  slot ← pop
  found ← get_object slot
  checked throw index found λ obj.
      let type = get_array_element_type obj in
      if is_wide type
      then (do element ← lift (get_array_element2 obj index); push2 element type; advance 1)
      else (do element ← lift (get_array_element obj index); push element type; advance 1)

unfoldable pub handle_instr_xastore : Throw → Handler
handle_instr_xastore throw wide = do
  type ← from_frame (peek_operand_type 0)
  if is_wide type
      then (do
        value ← pop2
        index ← pop
        slot ← pop
        found ← get_object slot
        checked throw index found λ obj. do
          changed ← lift (set_array_element2 obj index value)
          put_object slot changed
          advance 1)
      else (do
        value ← pop
        index ← pop
        slot ← pop
        found ← get_object slot
        checked throw index found λ obj. do
          changed ← lift (set_array_element obj index value)
          put_object slot changed
          advance 1)

-- `cell.i = array->length`, then the end of the function without a `return`
abbrev push_length : Throw → Option Object → M ℤ
push_length throw none = do throw "java/lang/NullPointerException" "Array cannot be null"; advance 0
push_length throw (some array) = do push array.len type_int; crash

unfoldable pub handle_instr_arraylength : Throw → Handler
handle_instr_arraylength throw wide = do
  slot ← pop
  array ← get_object slot
  push_length throw array

-- `interpreter->exception = getObject(slot)`
abbrev set_exception : ℕ → M (Unit {0})
set_exception slot m = ok tt (record m { exception = some slot })

unfoldable pub handle_instr_athrow : Throw → Handler
handle_instr_athrow throw wide = do
  slot ← pop
  if slot == 0
      then (do throw "java/lang/NullPointerException" "Cannot throw null"; advance 0)
      else (do set_exception slot; advance 0)
