-- ===== src/Parser/Pool.antt =====
-- The constant pool (classfile.h, parseConstantPool in constantpool.c). What the failing paths free is
-- not modelled.
pub mod Printed
pub mod Accepts
use cs_562_jvm.Base.{
  ℕ, ◌+◌, ◌*◌, ◌-◌, suc, zero, Bool, List, [], ◌∷◌, if◌then◌else◌, ◌==◌, Option, none, some, map,
}
use cs_562_jvm.Parser.{
  Parser, pure, fail, stray, need, readu1, readu2, readu4, readu8, read_bytes, ◌>>=◌, ◌>>◌,
}

-- The structs of the union constant_info, each with its tag first.
pub data ConstantInfo : Type 0 where
  class_info : ℕ → ℕ → ConstantInfo
  field_method_interface_method_ref_info : ℕ → ℕ → ℕ → ConstantInfo
  string_info : ℕ → ℕ → ConstantInfo
  integer_float_info : ℕ → ℕ → ConstantInfo
  long_double_info : ℕ → ℕ → ConstantInfo
  name_and_type_info : ℕ → ℕ → ℕ → ConstantInfo
  utf8_info : ℕ → ℕ → List ℕ → ConstantInfo
  method_handle_info : ℕ → ℕ → ℕ → ConstantInfo
  method_type_info : ℕ → ℕ → ConstantInfo
  invoke_dynamic_info : ℕ → ℕ → ℕ → ConstantInfo

-- The entries by index, the first of them NULL.
abbrev pub ConstantPool : Type 0
ConstantPool = List (Option ConstantInfo)

-- which struct of the union a tag is read into: the labels of the switch
pub data Kind : Type 0 where
  utf8 integer_float long_double class string ref name_and_type method_handle method_type
        invoke_dynamic unknown :
      Kind

abbrev pub kind_of : ℕ → Kind
kind_of tag =
    if tag == 1
    then utf8
    else if tag == 3
    then integer_float
    else if tag == 4
    then integer_float
    else if tag == 5
    then long_double
    else if tag == 6
    then long_double
    else if tag == 7
    then class
    else if tag == 8
    then string
    else if tag == 9
    then ref
    else if tag == 10
    then ref
    else if tag == 11
    then ref
    else if tag == 12
    then name_and_type
    else if tag == 15
    then method_handle
    else if tag == 16
    then method_type
    else if tag == 18
    then invoke_dynamic
    else unknown

abbrev pub sizeof_pointer : ℕ
sizeof_pointer = 8

-- sizeof(constant_info_t)
abbrev pub sizeof_constant_info : ℕ
sizeof_constant_info = 16

-- `mallocs n` is whether malloc finds n bytes.
module _ (mallocs : ℕ → Bool) where
  -- the switch of parseConstantPool
  unfoldable pub parse_constant : ℕ → Kind → Parser ConstantInfo
  parse_constant tag utf8 = do
    length ← readu2
    need (mallocs (length + 1))
    chars ← read_bytes length
    pure (utf8_info tag length chars)
  parse_constant tag integer_float = do bytes ← readu4; pure (integer_float_info tag bytes)
  parse_constant tag long_double = do bytes ← readu8; pure (long_double_info tag bytes)
  parse_constant tag class = do name_index ← readu2; pure (class_info tag name_index)
  parse_constant tag string = do string_index ← readu2; pure (string_info tag string_index)
  parse_constant tag ref = do
    class_index ← readu2
    name_and_type_index ← readu2
    pure (field_method_interface_method_ref_info tag class_index name_and_type_index)
  parse_constant tag name_and_type = do
    name_index ← readu2
    descriptor_index ← readu2
    pure (name_and_type_info tag name_index descriptor_index)
  parse_constant tag method_handle = do
    reference_kind ← readu1
    reference_index ← readu2
    pure (method_handle_info tag reference_kind reference_index)
  parse_constant tag method_type = do
    descriptor_index ← readu2
    pure (method_type_info tag descriptor_index)
  parse_constant tag invoke_dynamic = do
    bootstrap_method_attr_index ← readu2
    name_and_type_index ← readu2
    pure (invoke_dynamic_info tag bootstrap_method_attr_index name_and_type_index)
  parse_constant tag unknown = fail

  -- the body of the loop
  unfoldable pub parse_entry : Parser ConstantInfo
  parse_entry = do
    tag ← readu1
    need (mallocs sizeof_constant_info)
    parse_constant tag (kind_of tag)

  -- the loop, with `n` rounds left
  unfoldable pub parse_entries : ℕ → Parser (List ConstantInfo)
  parse_entries zero = pure []
  parse_entries (suc n) = do entry ← parse_entry; entries ← parse_entries n; pure (entry ∷ entries)

  -- constantPool[0] = NULL is outside the array if the length is 0
  abbrev pub parse_after_length : ℕ → Parser ConstantPool
  parse_after_length zero = stray
  parse_after_length (suc n) = do entries ← parse_entries n; pure (none ∷ map some entries)

  unfoldable pub parse_constant_pool : Parser ConstantPool
  parse_constant_pool = do
    length ← readu2
    need (mallocs (sizeof_pointer * length))
    parse_after_length length
