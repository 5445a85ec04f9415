-- ===== src/Object.antt =====
-- Array elements (object.c). The elements lie behind the object header, each in as many bytes as the
-- element type of the class has; an element is the pattern that its bytes hold.
pub mod Elements
use cs_562_jvm.Base.{
  ℕ, ◌%◌, ◌^◌, Bool, ◌||◌, Option, none, some, List, ◌==◌, ltb, if◌then◌else◌, length, get_elem?,
  set, wrap32, signed8, signed16,
}
use cs_562_jvm.Classfile.{Name, char_at}
use cs_562_jvm.Frame.{
  type_boolean, type_char, type_byte, type_short, type_int, type_long, type_float, type_double,
  type_reference,
}
use mathlib.Core.Option
use cs_562_jvm.Machine.{Object}

-- `obj->class->name[1]`
abbrev pub element_char : Object → ℕ
element_char obj = char_at obj.class_name 1

unfoldable pub get_array_element_type : Object → ℕ
get_array_element_type obj =
    let c = element_char obj in
    if c == b'Z'
    then type_boolean
    else if c == b'B'
    then type_byte
    else if c == b'C'
    then type_char
    else if c == b'S'
    then type_short
    else if c == b'I'
    then type_int
    else if c == b'F'
    then type_float
    else if c == b'L'
    then type_reference
    else if c == b'['
    then type_reference
    else if c == b'J'
    then type_long
    else if c == b'D'
    then type_double
    else type_int

-- the cell that an element of the type `c` is widened to
abbrev pub widen : ℕ → ℕ → ℕ
widen c v =
    if c == b'Z'
    then v
    else if c == b'B'
    then wrap32 (signed8 v)
    else if c == b'C'
    then v
    else if c == b'S'
    then wrap32 (signed16 v)
    else v

-- the cases of getArrayElement that read the array
abbrev pub is_narrow : ℕ → Bool
is_narrow c =
    c == b'Z'
    || c == b'B'
    || c == b'C'
    || c == b'S'
    || c == b'I'
    || c == b'F'
    || c == b'L'
    || c == b'['

abbrev pub is_double : ℕ → Bool
is_double c = c == b'J' || c == b'D'

-- The callers in the interpreter pass NULL for the type.
unfoldable pub get_array_element : Object → ℕ → Option ℕ
get_array_element obj i =
    let c = element_char obj in
    if is_narrow c then Option.map (widen c) (get_elem? obj.elements i) else some 0

unfoldable pub get_array_element2 : Object → ℕ → Option ℕ
get_array_element2 obj i = if is_double (element_char obj) then get_elem? obj.elements i else some 0

-- the bits of a cell that are stored
abbrev pub narrow : ℕ → ℕ → ℕ
narrow c v =
    if c == b'Z'
    then v % 2 ^ 8
    else if c == b'B'
    then v % 2 ^ 8
    else if c == b'C'
    then v % 2 ^ 16
    else if c == b'S'
    then v % 2 ^ 16
    else v

abbrev pub store : Object → ℕ → ℕ → Option Object
store obj i v =
    if ltb i (length obj.elements)
    then some (record obj { elements = set obj.elements i v })
    else none

unfoldable pub set_array_element : Object → ℕ → ℕ → Option Object
set_array_element obj i v =
    let c = element_char obj in if is_narrow c then store obj i (narrow c v) else some obj

unfoldable pub set_array_element2 : Object → ℕ → ℕ → Option Object
set_array_element2 obj i v = if is_double (element_char obj) then store obj i v else some obj
