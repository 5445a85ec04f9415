-- ===== src/Tests/Parsing.antt =====
-- A constant pool, attributes and fields.
use cs_562_jvm.Base.{ℕ, List, [], ◌∷◌, ◌≡◌, refl, some, none, true, Bool, map, arith}
use cs_562_jvm.Parser.{done, failed, pure}
use cs_562_jvm.Parser.Reads.{put2}
use cs_562_jvm.Parser.Pool.{
  ConstantInfo, ConstantPool, utf8_info, long_double_info, parse_constant_pool,
}
use cs_562_jvm.Parser.Pool.Printed.{
  print_pool, print_constants, parse_constant_pool-print_pool, parse_constant_pool-unknown,
}
use cs_562_jvm.Parser.Attributes.{
  nil, code_name, constant_value_name, parse_attributes, attributes_within,
}
use cs_562_jvm.Parser.Attributes.Printed.{
  Items, end, item, constant_value_item, code_item, other_item, print_items, attributes_of,
  ItemsAreNamed, parse_attributes-print_items,
}
use cs_562_jvm.Parser.Attributes.Depth.{parse_attributes-deeper}
use cs_562_jvm.Parser.Class.{Field, place_fields}
use cs_562_jvm.Parser.Class.Layout.{IsPlaced, place_fields-IsPlaced}

abbrev always : ℕ → Bool
always n = true

always_room : (n : ℕ) → always n ≡ true
always_room n = refl

abbrev two_constants : List ConstantInfo
two_constants = utf8_info 1 2 (65 ∷ 66 ∷ []) ∷ long_double_info 5 7 ∷ []

parse_constant_pool_example :
    parse_constant_pool always (print_pool two_constants (9 ∷ []))
    ≡ done (none ∷ map some two_constants) (9 ∷ [])
parse_constant_pool_example =
    parse_constant_pool-print_pool always always_room two_constants (9 ∷ [])
      ((refl, refl), (refl, tt))

parse_unknown_example :
    parse_constant_pool always (put2 5 (print_constants two_constants (2 ∷ 9 ∷ []))) ≡ failed
parse_unknown_example =
    parse_constant_pool-unknown always always_room two_constants 4 2 (9 ∷ [])
      ((refl, refl), (refl, tt)) (omega arith) refl

abbrev class_bytes : List ℕ
class_bytes = 0 ∷ 2 ∷ 7 ∷ 1 ∷ 4 ∷ 200 ∷ []

-- a pool with the names Code and ConstantValue at 1 and 2, and B at 3
abbrev named : ConstantPool
named =
    none
    ∷ some (utf8_info 1 4 code_name)
    ∷ some (utf8_info 1 13 constant_value_name)
    ∷ some (utf8_info 1 1 (66 ∷ []))
    ∷ []

abbrev some_items : Items
some_items =
    item (code_item 1 30 2 1 (42 ∷ 177 ∷ []) [] (item (other_item 3 (66 ∷ []) (1 ∷ 2 ∷ [])) end))
      (item (constant_value_item 2 2 17) end)

some_items-named : ItemsAreNamed named some_items
unfolding cs_562_jvm.Parser.Attributes.name_at
some_items-named = ((refl, ((refl, refl, refl, refl), tt)), (refl, tt))

parse_attributes_example :
    parse_attributes always named 2 (print_items some_items (9 ∷ []))
    ≡ done (attributes_of some_items) (9 ∷ [])
parse_attributes_example =
    parse_attributes-print_items always always_room named some_items (9 ∷ []) some_items-named

parse_deeper_example :
    attributes_within always named (λ k. pure nil) 5 1 (0 ∷ 3 ∷ 0 ∷ [])
    ≡ parse_attributes always named 1 (0 ∷ 3 ∷ 0 ∷ [])
parse_deeper_example =
    parse_attributes-deeper always named (λ k. pure nil) 1 5 (0 ∷ 3 ∷ 0 ∷ []) (omega arith)

abbrev a_field : ℕ → ℕ → Field
a_field size flags = record {
  name = [];
  descriptor = [];
  attributes = nil;
  object_offset = 0;
  data_size = size;
  num_attributes = 0;
  flags = flags;
}

abbrev three_fields : List Field
three_fields = a_field 8 1 ∷ a_field 4 9 ∷ a_field 4 2 ∷ []

place_fields_example : IsPlaced 112 0 (place_fields three_fields 112 0)
place_fields_example = place_fields-IsPlaced three_fields 112 0 (omega arith) (omega arith)
