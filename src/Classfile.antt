-- ===== src/Classfile.antt =====
-- Class names (classfile.c). A name is the list of its bytes before the terminating 0; reading the
-- byte behind the last one gives that 0.
use cs_562_jvm.Base.{ℕ, suc, Bool, List, [], ◌∷◌, ◌==◌, if◌then◌else◌, length, get_or}

abbrev pub Name : Type 0
Name = List ℕ

-- `name[i]`
abbrev pub char_at : Name → ℕ → ℕ
char_at name i = get_or name i 0

unfoldable pub is_array_class : Name → Bool
is_array_class name = char_at name 0 == b'['

unfoldable pub is_primitive_class : Name → Bool
is_primitive_class name = length name == 1

-- `while(name[n++] == '[')`; the count less one
unfoldable pub num_array_dimensions : Name → ℕ
num_array_dimensions [] = 0
num_array_dimensions (c ∷ name) =
    let rest = num_array_dimensions name in if c == b'[' then suc rest else 0

-- the switch on the element type; `sizeof(slot_t)` is 4
abbrev pub element_size : ℕ → ℕ
element_size c =
    if c == b'Z'
    then 1
    else if c == b'B'
    then 1
    else if c == b'C'
    then 2
    else if c == b'S'
    then 2
    else if c == b'I'
    then 4
    else if c == b'F'
    then 4
    else if c == b'L'
    then 4
    else if c == b'['
    then 4
    else if c == b'J'
    then 8
    else if c == b'D'
    then 8
    else 0

unfoldable pub array_element_size : Name → ℕ
unfolding is_array_class
array_element_size name = if is_array_class name then element_size (char_at name 1) else 0
