-- ===== src/Parser/Class.antt =====
-- Fields, methods and the layout of a class (classfile.h, parseClassFile in classloader.c).
pub mod Layout
use cs_562_jvm.Base.{
  ℕ, suc, zero, ◌+◌, ◌*◌, ◌%◌, ◌/◌, ◌^◌, ◌==◌, ◌||◌, Bool, true, false, List, [], ◌∷◌, Option, none,
  some, if◌then◌else◌, get_elem?, length, replicate, leb,
}
use cs_562_jvm.Classfile.{Name}
use cs_562_jvm.Frame.{option_bind}
use cs_562_jvm.Descriptor.{
  get_size_of_type_from_field_descriptor, count_num_parameters_from_method_descriptor,
}
use cs_562_jvm.Parser.{Parser, pure, stray, need, readu2, ◌>>=◌, ◌>>◌}
use cs_562_jvm.Parser.Pool.{
  ConstantPool, ConstantInfo, class_info, field_method_interface_method_ref_info, string_info,
  integer_float_info, long_double_info, name_and_type_info, utf8_info, method_handle_info,
  method_type_info, invoke_dynamic_info, sizeof_pointer,
}
use cs_562_jvm.Parser.Attributes.{
  Attribute, Attributes, nil, cons, constant_value_attribute, code_attribute, signature_attribute,
  skipped_attribute, lift, name_at, same, code_name, parse_attributes,
}

pub record Field : Type 0 where
  pub name : Name
  pub descriptor : Name
  pub attributes : Attributes
  pub object_offset : ℕ
  pub data_size : ℕ
  pub num_attributes : ℕ
  pub flags : ℕ

pub record Method : Type 0 where
  pub name : Name
  pub descriptor : Name
  pub code : Option Attribute
  pub attributes : Attributes
  pub num_attributes : ℕ
  pub flags : ℕ
  pub num_parameters : ℕ

-- `flags & (1 << bit) != 0`
abbrev pub has_bit : ℕ → ℕ → Bool
has_bit flags mask = flags / mask % 2 == 1

abbrev pub acc_static : ℕ
acc_static = 2 ^ 3

abbrev pub acc_native : ℕ
acc_native = 2 ^ 8

abbrev pub acc_abstract : ℕ
acc_abstract = 2 ^ 10

-- `->classInfo.nameIndex`, the index that every struct with one has first; the others have padding there
abbrev pub name_index_of : ConstantInfo → Option ℕ
name_index_of (class_info tag index) = some index
name_index_of (field_method_interface_method_ref_info tag index n) = some index
name_index_of (string_info tag index) = some index
name_index_of (integer_float_info tag bytes) = none
name_index_of (long_double_info tag bytes) = none
name_index_of (name_and_type_info tag index d) = some index
name_index_of (utf8_info tag length chars) = some length
name_index_of (method_handle_info tag kind index) = some index
name_index_of (method_type_info tag index) = some index
name_index_of (invoke_dynamic_info tag index n) = some index

abbrev pub entry_at : ConstantPool → ℕ → Option ConstantInfo
entry_at pool index = elim (get_elem? pool index) [ none ↦ none | some entry ↦ entry ]

-- the name of the class that an index of the pool refers to
unfoldable pub class_name_at : ConstantPool → ℕ → Option Name
class_name_at pool index =
    option_bind (entry_at pool index) λ entry. option_bind (name_index_of entry) (name_at pool)

abbrev pub attribute_name : Attribute → Name
attribute_name (constant_value_attribute name value) = name
attribute_name (code_attribute name a b c d e f g h) = name
attribute_name (signature_attribute name value) = name
attribute_name (skipped_attribute name) = name

-- the first attribute with the name Code
abbrev pub find_code : Attributes → Option Attribute
find_code nil = none
find_code (cons a as') =
    let rest = find_code as' in if same (attribute_name a) code_name then some a else rest

abbrev pub code_attribute_of : ℕ → Attributes → Option Attribute
code_attribute_of flags attributes =
    if has_bit flags acc_native || has_bit flags acc_abstract then none else find_code attributes

module _ (mallocs : ℕ → Bool) (pool : ConstantPool) where
  -- the body of the loop over the fields; the offset is set later
  unfoldable pub parse_field : Parser Field
  parse_field = do
    flags ← readu2
    name_index ← readu2
    name ← lift (name_at pool name_index)
    descriptor_index ← readu2
    descriptor ← lift (name_at pool descriptor_index)
    num_attributes ← readu2
    need (mallocs (sizeof_pointer * num_attributes))
    attributes ← parse_attributes mallocs pool num_attributes
    pure (record {
      name = name;
      descriptor = descriptor;
      attributes = attributes;
      object_offset = 0;
      data_size = get_size_of_type_from_field_descriptor descriptor;
      num_attributes = num_attributes;
      flags = flags;
    })

  unfoldable pub parse_field_list : ℕ → Parser (List Field)
  parse_field_list zero = pure []
  parse_field_list (suc n) = do
    field ← parse_field
    fields ← parse_field_list n
    pure (field ∷ fields)

  -- the body of the loop over the methods
  unfoldable pub parse_method : Parser Method
  parse_method = do
    flags ← readu2
    name_index ← readu2
    name ← lift (name_at pool name_index)
    descriptor_index ← readu2
    descriptor ← lift (name_at pool descriptor_index)
    n ← lift (count_num_parameters_from_method_descriptor descriptor (has_bit flags acc_static))
    num_attributes ← readu2
    need (mallocs (sizeof_pointer * num_attributes))
    attributes ← parse_attributes mallocs pool num_attributes
    pure (record {
      name = name;
      descriptor = descriptor;
      code = code_attribute_of flags attributes;
      attributes = attributes;
      num_attributes = num_attributes;
      flags = flags;
      num_parameters = n % 2 ^ 8;
    })

  unfoldable pub parse_method_list : ℕ → Parser (List Method)
  parse_method_list zero = pure []
  parse_method_list (suc n) = do
    method ← parse_method
    methods ← parse_method_list n
    pure (method ∷ methods)

-- fieldCompare, whether `a` may stand before `b` in the order that qsort is asked for
unfoldable pub field_before : Field → Field → Bool
field_before a b = leb b.data_size a.data_size

-- The loop that gives the fields their places: the fields, objectSize and staticDataSize, which are
-- 16 bits wide.
unfoldable pub place_fields : List Field → ℕ → ℕ → List Field × ℕ × ℕ
place_fields [] object_size static_size = ([], object_size, static_size)
place_fields (f ∷ fs) object_size static_size =
    let is_static = has_bit f.flags acc_static in
    let rest =
      place_fields fs (if is_static then object_size else (object_size + f.data_size) % 2 ^ 16)
        (if is_static then (static_size + f.data_size) % 2 ^ 16 else static_size) in
    (
      record f { object_offset = if is_static then static_size else object_size } ∷ rest.0,
      rest.1,
      rest.2,
    )
