-- ===== src/Descriptor/Grammar.antt =====
-- The grammar of descriptors, by which the functions of dataTypes.c are judged.
use cs_562_jvm.Frame.{
  type_byte, type_reference, type_char, type_double, type_float, type_int, type_long, type_short,
  type_boolean,
}
use cs_562_jvm.Base.{ℕ, ◌∷◌, List, All, Bool, [], ◌++◌, ◌≢◌, ◌+◌, true, if◌then◌else◌, false}
use cs_562_jvm.Classfile.{Name}

pub data BaseType : Type 0 where
  byte_type : BaseType
  char_type : BaseType
  double_type : BaseType
  float_type : BaseType
  int_type : BaseType
  long_type : BaseType
  short_type : BaseType
  boolean_type : BaseType

pub data FieldType : Type 0 where
  base : BaseType → FieldType
  object : Name → FieldType
  array : FieldType → FieldType

abbrev pub letter : BaseType → ℕ
letter byte_type = b'B'
letter char_type = b'C'
letter double_type = b'D'
letter float_type = b'F'
letter int_type = b'I'
letter long_type = b'J'
letter short_type = b'S'
letter boolean_type = b'Z'

abbrev pub base_tag : BaseType → ℕ
base_tag byte_type = type_byte
base_tag char_type = type_char
base_tag double_type = type_double
base_tag float_type = type_float
base_tag int_type = type_int
base_tag long_type = type_long
base_tag short_type = type_short
base_tag boolean_type = type_boolean

abbrev pub tag : FieldType → ℕ
tag (base b) = base_tag b
tag (object name) = type_reference
tag (array t) = type_reference

abbrev pub print : FieldType → Name
print (base b) = letter b ∷ []
print (object name) = b'L' ∷ name ++ (b';' ∷ [])
print (array t) = b'[' ∷ print t

abbrev pub print_all : List FieldType → Name
print_all [] = []
print_all (t ∷ ts) = print t ++ print_all ts

-- the descriptor of a method with the parameters `ts` and the return type that `result` spells
abbrev pub print_method : List FieldType → Name → Name
print_method ts result = b'(' ∷ print_all ts ++ (b')' ∷ result)

-- class names hold no semicolon
abbrev pub IsSpelled : FieldType → Type 0
IsSpelled (base b) = Unit
IsSpelled (object name) = All (λ c. c ≢ b';') name
IsSpelled (array t) = IsSpelled t

-- The cells that an argument takes: two for a long or a double.
abbrev pub cells : FieldType → ℕ
cells (base long_type) = 2
cells (base double_type) = 2
cells t = 1

abbrev pub total_cells : List FieldType → ℕ
total_cells [] = 0
total_cells (t ∷ ts) = cells t + total_cells ts

-- arrays whose innermost elements are long or double
abbrev pub is_wide_array : FieldType → Bool
is_wide_array (array (base long_type)) = true
is_wide_array (array (base double_type)) = true
is_wide_array (array (array t)) = is_wide_array (array t)
is_wide_array t = false

abbrev pub wide_arrays : List FieldType → ℕ
wide_arrays [] = 0
wide_arrays (t ∷ ts) = (if is_wide_array t then 1 else 0) + wide_arrays ts
