-- ===== src/Descriptor.antt =====
-- Field and method descriptors (dataTypes.c). A descriptor is the list of its bytes before the
-- terminating 0; `none` is a read behind that 0.
pub mod Grammar
pub mod Parameters
use mathlib.Core.Option
use cs_562_jvm.Base.{
  ℕ, Option, Bool, if◌then◌else◌, ◌∷◌, none, some, ◌==◌, suc, ltb, length, [], ◌||◌, zero, true,
  false, ◌+◌, ◌%◌, ◌^◌,
}
use cs_562_jvm.Frame.{
  option_bind, type_reference, type_byte, type_char, type_double, type_float, type_int, type_long,
  type_short, type_boolean,
}
use cs_562_jvm.Classfile.{Name, char_at}

unfoldable pub get_type_from_field_descriptor : Name → ℕ
get_type_from_field_descriptor d =
    let c = char_at d 0 in
    if (c == b'[') || (c == b'L')
    then type_reference
    else if c == b'B'
    then type_byte
    else if c == b'C'
    then type_char
    else if c == b'D'
    then type_double
    else if c == b'F'
    then type_float
    else if c == b'I'
    then type_int
    else if c == b'J'
    then type_long
    else if c == b'S'
    then type_short
    else if c == b'Z'
    then type_boolean
    else 0

-- `if(descriptor[0] == '[') while(*++descriptor == '[')`
abbrev pub skip_brackets : Name → Name
skip_brackets [] = []
skip_brackets (c ∷ d) = let rest = skip_brackets d in if c == b'[' then rest else c ∷ d

-- `while(*++descriptor != ';')`, from the byte behind the current one
abbrev pub to_semicolon : Name → Option Name
to_semicolon [] = none
to_semicolon (c ∷ d) = let rest = to_semicolon d in if c == b';' then some (c ∷ d) else rest

-- `++descriptor`
abbrev pub next : Name → Option Name
next [] = none
next (c ∷ d) = some d

-- the last byte of a parameter
abbrev pub skip_class : Name → Option Name
skip_class [] = some []
skip_class (c ∷ d) = if c == b'L' then to_semicolon d else some (c ∷ d)

abbrev pub at_last : Name → Option Name
at_last d = skip_class (skip_brackets d)

-- `while(index > 0)`
abbrev pub skip_parameters : ℕ → Name → Option Name
skip_parameters zero d = some d
skip_parameters (suc index) d =
    option_bind (at_last d) λ e. option_bind (next e) λ rest. skip_parameters index rest

abbrev pub get_parameter_type : ℕ → Name → Option ℕ
get_parameter_type index d =
    option_bind (next d)
      λ rest. Option.map get_type_from_field_descriptor (skip_parameters index rest)

unfoldable pub get_type_from_method_descriptor : Name → ℕ → Bool → Option ℕ
unfolding get_type_from_field_descriptor
get_type_from_method_descriptor d zero false = some type_reference
get_type_from_method_descriptor d (suc index) false = get_parameter_type index d
get_type_from_method_descriptor d index true = get_parameter_type index d

-- `sizeof(slot_t)` and `sizeof(uint32_t)` are 4
unfoldable pub get_size_of_type_from_field_descriptor : Name → ℕ
get_size_of_type_from_field_descriptor d =
    if ltb 1 (length d) then 4 else if (char_at d 0 == b'J') || (char_at d 0 == b'D') then 8 else 4

-- by how much one round of the loop raises numParameters, a uint16_t
abbrev pub parameter_cells : Name → ℕ
parameter_cells e = if (char_at e 0 == b'D') || (char_at e 0 == b'J') then 2 else 1

-- `while(descriptor[0] != ')')`, for at most `fuel` rounds
abbrev pub count_loop : ℕ → ℕ → Name → Option ℕ
count_loop zero n d = none
count_loop (suc fuel) n d =
    let rest =
      option_bind (at_last d)
        λ e. option_bind (next e) λ rest. count_loop fuel ((n + parameter_cells e) % 2 ^ 16) rest in
    if char_at d 0 == b')' then some n else rest

-- Each round moves on by at least one byte, so that the length of the descriptor is enough fuel.
unfoldable pub count_num_parameters_from_method_descriptor : Name → Bool → Option ℕ
count_num_parameters_from_method_descriptor d is_static =
    option_bind (next d) λ rest. count_loop (length d) (if is_static then 0 else 1) rest
