-- ===== src/Object/Elements.antt =====
-- Reading back what was stored in an array.
use cs_562_jvm.Object.{
  set_array_element, set_array_element2, get_array_element, get_array_element2, is_narrow,
  is_double, element_char, widen, narrow,
}
use cs_562_jvm.Machine.{Object}
use cs_562_jvm.Base.{
  ℕ, ◌≡◌, ◌<◌, List, true, length, some, ◌≢◌, ltb, refl, lt→ltb, set, length-set,
  get_elem?-set_self, get_elem?-set_ne, ℤ, ◌^◌, pos, signed32, arith, ◌%◌, signed8, signed16,
}

-- `obj` with its elements replaced
abbrev pub with_elements : Object → List ℕ → Object
with_elements obj es = record obj { elements = es }

-- the types of elements that take one cell, and the character of each in the name of the array's class
pub data CellType : Type 0 where
  boolean byte char short int float reference array : CellType

abbrev pub char_of : CellType → ℕ
char_of boolean = b'Z'
char_of byte = b'B'
char_of char = b'C'
char_of short = b'S'
char_of int = b'I'
char_of float = b'F'
char_of reference = b'L'
char_of array = b'['

-- the int that an element holds after the cell `v` was stored in it: one or two bytes, with the sign of a
-- byte or a short, or all four
abbrev pub held : CellType → ℕ → ℤ
held boolean v = pos (v % 2 ^ 8)
held byte v = signed8 (v % 2 ^ 8)
held char v = pos (v % 2 ^ 16)
held short v = signed16 (v % 2 ^ 16)
held int v = signed32 v
held float v = signed32 v
held reference v = signed32 v
held array v = signed32 v

char_of-is_narrow : (e : CellType) → is_narrow (char_of e) ≡ true
char_of-is_narrow boolean = refl
char_of-is_narrow byte = refl
char_of-is_narrow char = refl
char_of-is_narrow short = refl
char_of-is_narrow int = refl
char_of-is_narrow float = refl
char_of-is_narrow reference = refl
char_of-is_narrow array = refl

held_lem :
    (e : CellType) (v : ℕ)
    → v < 2 ^ 32
    → let w = widen (char_of e) (narrow (char_of e) v) in (w < 2 ^ 32) × (signed32 w ≡ held e v)
held_lem boolean v h = (omega arith, ground arith)
held_lem byte v h = (ground arith, ground arith)
held_lem char v h = (omega arith, ground arith)
held_lem short v h = (ground arith, ground arith)
held_lem int v h = (h, refl)
held_lem float v h = (h, refl)
held_lem reference v h = (h, refl)
held_lem array v h = (h, refl)

-- Storing a cell in an element that takes one cell, in range, succeeds and changes only the elements.
-- Reading the same index then gives the cell that stands for the int with the lowest byte of the cell
-- for a boolean or byte, the lowest two for a char or short, and all four for an int, float or reference,
-- where bytes and shorts have their sign; and reading any other index gives what it gave before.
pub get-set_array_element :
    (obj : Object) (e : CellType) (i v : ℕ)
    → element_char obj ≡ char_of e
    → i < length obj.elements
    → v < 2 ^ 32
    → (obj' : Object) × (set_array_element obj i v ≡ some obj')
      × (obj' ≡ with_elements obj obj'.elements)
      × (length obj'.elements ≡ length obj.elements)
      × ((w : ℕ) × (get_array_element obj' i ≡ some w) × (w < 2 ^ 32) × (signed32 w ≡ held e v))
      × ((j : ℕ) → i ≢ j → get_array_element obj' j ≡ get_array_element obj j)
unfolding set_array_element get_array_element
get-set_array_element obj e i v c lt word =
    let w = narrow (char_of e) v in
    let t : ltb i (length obj.elements) ≡ true = lt→ltb _ _ lt in
    let small = char_of-is_narrow e in
    (
      with_elements obj (set obj.elements i w),
      rw (c, small, t) refl,
      refl,
      length-set obj.elements i w,
      (
        widen (char_of e) w,
        rw (c, small, get_elem?-set_self obj.elements i w lt) refl,
        (held_lem e v word).0,
        (held_lem e v word).1,
      ),
      λ j ne. rw (get_elem?-set_ne obj.elements i j w ne) refl,
    )

-- The same for the elements of long and double arrays, which keep all their bits.
pub get-set_array_element2 :
    (obj : Object) (i v : ℕ)
    → is_double (element_char obj) ≡ true
    → i < length obj.elements
    → (obj' : Object) × (set_array_element2 obj i v ≡ some obj')
      × (obj' ≡ with_elements obj obj'.elements)
      × (length obj'.elements ≡ length obj.elements)
      × (get_array_element2 obj' i ≡ some v)
      × ((j : ℕ) → i ≢ j → get_array_element2 obj' j ≡ get_array_element2 obj j)
unfolding set_array_element2 get_array_element2
get-set_array_element2 obj i v wide lt =
    let t : ltb i (length obj.elements) ≡ true = lt→ltb _ _ lt in
    (
      with_elements obj (set obj.elements i v),
      rw (wide, t),
      refl,
      length-set obj.elements i v,
      rw (wide, get_elem?-set_self obj.elements i v lt),
      λ j ne. rw (get_elem?-set_ne obj.elements i j v ne),
    )
