-- ===== src/Interp/Statics.antt =====
-- The static fields in the interpreter (bytecode_interpreter.c: resolveField, resolveField0,
-- handle_instr_getstatic, handle_instr_putstatic). A class is a number, as in the class loader.
pub mod Stored
pub mod Resolved
pub mod RoundTrip
use cs_562_jvm.Base.{
  ℕ, suc, zero, ◌+◌, ◌*◌, ◌/◌, ◌%◌, ◌^◌, Bool, true, false, ◌&&◌, not, Option, none, some, List, [],
  ◌∷◌, ◌==◌, leb, if◌then◌else◌, length, get_elem?, set, ℤ, pos, wrap, half16,
}
use cs_562_jvm.Classfile.{Name, char_at}
use cs_562_jvm.Frame.{
  type_boolean, type_char, type_byte, type_short, type_int, type_long, type_float, type_double,
  type_reference, is_wide, option_bind,
}
use cs_562_jvm.Machine.{M, ok, fault, and_then, pop, pop2, push, push2, read_short_operand}
use Prim.Native.String.{String}
use cs_562_jvm.Parser.Pool.{
  ConstantPool, ConstantInfo, field_method_interface_method_ref_info, name_and_type_info,
}
use cs_562_jvm.Parser.Attributes.{name_at, same}
use cs_562_jvm.Parser.Class.{Field, has_bit, acc_static, class_name_at, entry_at}
use cs_562_jvm.Loader.{Class}
use cs_562_jvm.Classfile.{Name, char_at}

-- a part of a handler that works on the classes, too
abbrev pub Vm {ℓ} : Type ℓ → Type ℓ
Vm A = List Class → M (A × List Class)

abbrev pub pure {ℓ} : {A : Type ℓ} → A → Vm A
pure a cs m = ok (a, cs) m

infixl 5 ◌>>=◌ ◌>>◌
abbrev pub ◌>>=◌ {ℓ κ} : {A : Type ℓ} {B : Type κ} → Vm A → (A → Vm B) → Vm B
c >>= k = λ cs m. and_then (c cs m) λ p. k p.0 p.1

abbrev pub ◌>>◌ {ℓ κ} : {A : Type ℓ} {B : Type κ} → Vm A → Vm B → Vm B
c >> k = c >>= λ _. k

abbrev pub on_machine {ℓ} : {A : Type ℓ} → M A → Vm A
on_machine c cs m = and_then (c m) λ a. ok (a, cs)

abbrev pub given {ℓ} : {A : Type ℓ} → Option A → Vm A
given none cs m = fault
given (some a) cs m = ok (a, cs) m

abbrev pub class_at : ℕ → Vm Class
class_at id cs = given (get_elem? cs id) cs

abbrev pub store_class : ℕ → Class → Vm (Unit {0})
store_class id c cs = ok (tt, set cs id c)

-- `(bool) (flags & FIELD_ACC_STATIC) == isStatic`
abbrev pub static_as : Bool → ℕ → Bool
static_as is_static flags =
    if is_static then has_bit flags acc_static else not (has_bit flags acc_static)

-- the loop over the fields of one class
unfoldable pub find_field : Bool → Name → Name → List Field → Option Field
find_field is_static name descriptor [] = none
find_field is_static name descriptor (f ∷ fields) =
    let rest = find_field is_static name descriptor fields in
    if static_as is_static f.flags && (same f.name name && same f.descriptor descriptor)
    then some f
    else rest

-- a field with its class
abbrev pub Found : Type 0
Found = Option (ℕ × Field)

-- the loop over the interfaces
abbrev pub first_of : (ℕ → Vm Found) → List ℕ → Vm Found
first_of resolve [] = pure none
first_of resolve (i ∷ interfaces) = do
  found ← resolve i
  elim found [ none ↦ first_of resolve interfaces | some r ↦ pure (some r) ]

-- the call for the superclass, which may be NULL
abbrev pub in_super : (ℕ → Vm Found) → Option ℕ → Vm Found
in_super resolve none = pure none
in_super resolve (some id) = resolve id

-- What a reference of the constant pool names: the class, the field and its descriptor.
pub record FieldRef : Type 0 where
  pub class_name : Name
  pub name : Name
  pub descriptor : Name

-- the two indices that a reference or a name with a type has; of another struct they are not modelled
abbrev pub pair_of : ConstantInfo → Option (ℕ × ℕ)
pair_of (field_method_interface_method_ref_info tag i j) = some (i, j)
pair_of (name_and_type_info tag i j) = some (i, j)
pair_of other = none

abbrev pub pair_at : ConstantPool → ℕ → Option (ℕ × ℕ)
pair_at pool index = option_bind (entry_at pool index) pair_of

-- the reads of the constant pool at the start of resolveField
unfoldable pub field_ref_at : ConstantPool → ℕ → Option FieldRef
field_ref_at pool index = option_bind (pair_at pool index) λ ref.
    option_bind (pair_at pool ref.1) λ name_and_type.
      option_bind (name_at pool name_and_type.0) λ name.
        option_bind (name_at pool name_and_type.1) λ descriptor.
          option_bind (class_name_at pool ref.0) λ class_name.
            some (record { class_name = class_name; name = name; descriptor = descriptor })

-- The size of a field by the first character of its descriptor, as the cases of the switch read it.
abbrev pub field_size : ℕ → ℕ
field_size c =
    if c == b'B'
    then 1
    else if c == b'C'
    then 2
    else if c == b'D'
    then 8
    else if c == b'J'
    then 8
    else if c == b'S'
    then 2
    else if c == b'Z'
    then 1
    else 4

-- the type that the cases push the value with
abbrev pub field_type : ℕ → ℕ
field_type c =
    if c == b'B'
    then type_byte
    else if c == b'C'
    then type_char
    else if c == b'D'
    then type_double
    else if c == b'F'
    then type_float
    else if c == b'I'
    then type_int
    else if c == b'J'
    then type_long
    else if c == b'S'
    then type_short
    else if c == b'Z'
    then type_boolean
    else type_reference

-- `n` bytes from `i` on, as a little-endian number
unfoldable pub read_data : List ℕ → ℕ → ℕ → Option ℕ
read_data bytes i zero = some 0
read_data bytes i (suc n) =
    option_bind (get_elem? bytes i)
      λ byte. option_bind (read_data bytes (i + 1) n) λ rest. some (byte + 2 ^ 8 * rest)

-- the `n` lowest bytes of `v`, written from `i` on
unfoldable pub put_data : List ℕ → ℕ → ℕ → ℕ → List ℕ
put_data bytes i zero v = bytes
put_data bytes i (suc n) v = put_data (set bytes i (v % 2 ^ 8)) (i + 1) n (v / 2 ^ 8)

unfoldable pub write_data : List ℕ → ℕ → ℕ → ℕ → Option (List ℕ)
write_data bytes i n v = if leb (i + n) (length bytes) then some (put_data bytes i n v) else none

-- an assignment of `n` bytes to a member of the union `cell`, which keeps its other bytes
abbrev pub over : ℕ → ℕ → ℕ → ℕ
over cell n v = v + cell / 2 ^ (8 * n) * 2 ^ (8 * n)

-- `cell` is what the local variable of that name holds before the switch, which the source leaves
-- uninitialised.
unfoldable pub push_field : ℕ → ℕ → List ℕ → ℕ → Vm (Unit {0})
push_field cell c bytes offset =
    if is_wide (field_type c)
    then (do
      value ← given (read_data bytes offset (field_size c))
      on_machine (push2 value (field_type c)))
    else (do
      value ← given (read_data bytes offset (field_size c))
      on_machine (push (over cell (field_size c) value) (field_type c)))

unfoldable pub pop_field : ℕ → List ℕ → ℕ → Vm (List ℕ)
pop_field c bytes offset =
    if is_wide (field_type c)
    then (do value ← on_machine pop2; given (write_data bytes offset (field_size c) value))
    else (do value ← on_machine pop; given (write_data bytes offset (field_size c) value))

-- `throw` is throwException, `load` is loadClass and `initialize` initializeClass; `pool` is the constant pool of the class of the
-- current method.
module _ (throw : String → String → Vm (Unit {0})) (load : Name → Vm (Option ℕ))
    (initialize : ℕ → Vm Bool) where
  abbrev pub no_field : Vm Found
  no_field = do
    throw "java/lang/IncompatibleClassChangeError"
        "No field found that matches the name and descriptor"
    pure none

  abbrev pub not_initialized : Vm Found
  not_initialized = do
    throw "java/lang/ExceptionInInitializerError" "Failed to initialize class"
    pure none

  abbrev pub or_throw : Found → Vm Found
  or_throw none = no_field
  or_throw (some r) = pure (some r)

  -- `depth` bounds the recursion over the superclasses and interfaces.
  unfoldable pub resolve_field0 : ℕ → Bool → Name → Name → ℕ → Vm Found
  resolve_field0 zero is_static name descriptor id = λ cs m. fault
  resolve_field0 (suc depth) is_static name descriptor id =
      let deeper = resolve_field0 depth is_static name descriptor in
      (do
        initialized ← initialize id
        c ← class_at id
        if initialized
            then elim (find_field is_static name descriptor c.fields) [
              | some f ↦ pure (some (id, f))
              | none ↦ if is_static then no_field else (do
                found ← first_of deeper c.interfaces
                last ← elim found [ none ↦ in_super deeper c.super_class | some r ↦ pure (some r) ]
                or_throw last)
            ]
            else not_initialized)

  module _ (depth : ℕ) (pool : ConstantPool) where
    unfoldable pub resolve_field : ℕ → Bool → Vm Found
    resolve_field index is_static = do
      ref ← given (field_ref_at pool index)
      loaded ← load ref.class_name
      elim loaded [
        | none ↦ (do throw "java/lang/NoClassDefFoundError" "Failed to load class"; pure none)
        | some id ↦ resolve_field0 depth is_static ref.name ref.descriptor id
      ]

    unfoldable pub handle_instr_getstatic : ℕ → Vm ℤ
    handle_instr_getstatic cell = do
      index ← on_machine (read_short_operand 1)
      found ← resolve_field (wrap half16 index) true
      elim found [
        | none ↦ pure (pos 0)
        | some (id, field) ↦ (do
          c ← class_at id
          push_field cell (char_at field.descriptor 0) c.static_field_data field.object_offset
          pure (pos 3))
      ]

    unfoldable pub handle_instr_putstatic : Vm ℤ
    handle_instr_putstatic = do
      index ← on_machine (read_short_operand 1)
      found ← resolve_field (wrap half16 index) true
      elim found [
        | none ↦ pure (pos 0)
        | some (id, field) ↦ (do
          c ← class_at id
          bytes ← pop_field (char_at field.descriptor 0) c.static_field_data field.object_offset
          store_class id (record c { static_field_data = bytes })
          pure (pos 3))
      ]
