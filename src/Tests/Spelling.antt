-- ===== src/Tests/Spelling.antt =====
-- The descriptor ([DLA;I)V, and paths.
use cs_562_jvm.Descriptor.Parameters.{count_parameters-print, method_type-print}
use cs_562_jvm.Frame.{type_reference}
use cs_562_jvm.Descriptor.{
  count_num_parameters_from_method_descriptor, get_type_from_method_descriptor,
}
use cs_562_jvm.Base.{List, All, ◌∷◌, ℕ, true, [], arith, ◌≡◌, some, false}
use cs_562_jvm.Descriptor.Grammar.{
  FieldType, object, print_method, array, IsSpelled, base, double_type, int_type,
}

abbrev name : FieldType
name = object (b'A' ∷ [])

abbrev parameters : List FieldType
parameters = array (base double_type) ∷ name ∷ base int_type ∷ []

abbrev result : List ℕ
result = b'V' ∷ []

spelled : All IsSpelled parameters
spelled = (tt, ((omega arith, tt), (tt, tt)))

method_type_example :
    let d = print_method parameters result in
    (get_type_from_method_descriptor d 1 true ≡ some type_reference)
    × (get_type_from_method_descriptor d 2 false ≡ some type_reference)
    × (get_type_from_method_descriptor d 0 false ≡ some type_reference)
method_type_example =
    method_type-print (array (base double_type) ∷ []) (base int_type ∷ []) name result (tt, tt)

count_parameters_example :
    count_num_parameters_from_method_descriptor (print_method parameters result) true ≡ some 4
count_parameters_example = count_parameters-print parameters result true spelled

-- the strings ab/ at address 64 and / at address 96
abbrev path : List ℕ
path = b'a' ∷ b'b' ∷ b'/' ∷ []

abbrev slash : List ℕ
slash = b'/' ∷ []
