-- ===== src/Descriptor/Parameters.antt =====
-- The parameters that the functions of dataTypes.c find in a descriptor.
use native.Mathlib.Numerals.{add-one}
use cs_562_jvm.Base.{
  List, All, ◌++◌, Bool, ◌≢◌, ◌≡◌, length, ◌∷◌, ap, some, true, ◌<◌, ne→==, [], ◌+◌, ◌^◌,
  if◌then◌else◌, refl, false, ◌%◌, ◌≤◌, arith, ◌==◌, length-append, suc, ◌∙◌, zero,
}
use cs_562_jvm.Descriptor.{
  at_last, ℕ, Name, get_type_from_field_descriptor, get_type_from_method_descriptor,
  count_num_parameters_from_method_descriptor, parameter_cells, skip_parameters, to_semicolon,
  count_loop, type_reference, char_at,
}
use cs_562_jvm.Descriptor.Grammar.{
  FieldType, BaseType, base, letter, IsSpelled, print, object, print_method, array, base_tag, tag,
  print_all, cells, is_wide_array, total_cells, wide_arrays, byte_type, char_type, double_type,
  float_type, int_type, long_type, short_type, boolean_type,
}

-- the last byte of a descriptor
abbrev last : FieldType → ℕ
last (base b) = letter b
last (object name) = b';'
last (array t) = last t

to_semicolon-name :
    (name rest : Name)
    → All (λ c. c ≢ b';') name
    → to_semicolon (name ++ (b';' ∷ rest)) ≡ some (b';' ∷ rest)
to_semicolon-name [] rest h = refl
to_semicolon-name (c ∷ name) rest h = rw (ne→== c b';' h.0) (to_semicolon-name name rest h.1)

++_assoc : (xs ys zs : Name) → (xs ++ ys) ++ zs ≡ xs ++ (ys ++ zs)
++_assoc [] ys zs = refl
++_assoc (x ∷ xs) ys zs = ap (x ∷◌) (++_assoc xs ys zs)

at_last-letter : (b : BaseType) (rest : Name) → at_last (letter b ∷ rest) ≡ some (letter b ∷ rest)
at_last-letter byte_type rest = refl
at_last-letter char_type rest = refl
at_last-letter double_type rest = refl
at_last-letter float_type rest = refl
at_last-letter int_type rest = refl
at_last-letter long_type rest = refl
at_last-letter short_type rest = refl
at_last-letter boolean_type rest = refl

at_last-print :
    (t : FieldType) (rest : Name) → IsSpelled t → at_last (print t ++ rest) ≡ some (last t ∷ rest)
at_last-print (base b) rest h = at_last-letter b rest
at_last-print (object name) rest h =
    rw (++_assoc name (b';' ∷ []) rest) (to_semicolon-name name rest h)
at_last-print (array t) rest h = at_last-print t rest h

field_type-letter :
    (b : BaseType) (rest : Name) → get_type_from_field_descriptor (letter b ∷ rest) ≡ base_tag b
unfolding get_type_from_field_descriptor
field_type-letter byte_type rest = refl
field_type-letter char_type rest = refl
field_type-letter double_type rest = refl
field_type-letter float_type rest = refl
field_type-letter int_type rest = refl
field_type-letter long_type rest = refl
field_type-letter short_type rest = refl
field_type-letter boolean_type rest = refl

field_type-print :
    (t : FieldType) (rest : Name) → get_type_from_field_descriptor (print t ++ rest) ≡ tag t
unfolding get_type_from_field_descriptor
field_type-print (base b) rest = field_type-letter b rest
field_type-print (object name) rest = refl
field_type-print (array t) rest = refl

skip_parameters-print :
    (ts us : List FieldType) (rest : Name)
    → All IsSpelled ts
    → skip_parameters (length ts) (print_all (ts ++ us) ++ rest) ≡ some (print_all us ++ rest)
skip_parameters-print [] us rest h = refl
skip_parameters-print (t ∷ ts) us rest h =
    rw
      (
        ++_assoc (print t) (print_all (ts ++ us)) rest,
        at_last-print t (print_all (ts ++ us) ++ rest) h.0,
      )
      (skip_parameters-print ts us rest h.1)

-- In the descriptor of a method that spells its parameters, getTypeFromMethodDescriptor gives each
-- parameter's type tag at the parameter's position: from 0 for a static method, from 1 for another,
-- where position 0 has the type of a reference.
pub method_type-print :
    (ts us : List FieldType) (t : FieldType) (result : Name)
    → All IsSpelled ts
    → let d = print_method (ts ++ (t ∷ us)) result in
      (get_type_from_method_descriptor d (length ts) true ≡ some (tag t))
      × (get_type_from_method_descriptor d (length ts + 1) false ≡ some (tag t))
      × (get_type_from_method_descriptor d 0 false ≡ some type_reference)
unfolding get_type_from_method_descriptor
method_type-print ts us t result h =
    let found = skip_parameters-print ts (t ∷ us) (b')' ∷ result) h in
    let type = field_type-print t (print_all us ++ (b')' ∷ result)) in
    (
      rw (found, ++_assoc (print t) (print_all us) (b')' ∷ result), type) refl,
      rw (add-one, found, ++_assoc (print t) (print_all us) (b')' ∷ result), type) refl,
      refl,
    )

parameter_cells-last :
    (t : FieldType) (rest : Name)
    → parameter_cells (last t ∷ rest) ≡ cells t + (if is_wide_array t then 1 else 0)
parameter_cells-last (base byte_type) rest = refl
parameter_cells-last (base char_type) rest = refl
parameter_cells-last (base double_type) rest = refl
parameter_cells-last (base float_type) rest = refl
parameter_cells-last (base int_type) rest = refl
parameter_cells-last (base long_type) rest = refl
parameter_cells-last (base short_type) rest = refl
parameter_cells-last (base boolean_type) rest = refl
parameter_cells-last (object name) rest = refl
parameter_cells-last (array (base byte_type)) rest = refl
parameter_cells-last (array (base char_type)) rest = refl
parameter_cells-last (array (base double_type)) rest = refl
parameter_cells-last (array (base float_type)) rest = refl
parameter_cells-last (array (base int_type)) rest = refl
parameter_cells-last (array (base long_type)) rest = refl
parameter_cells-last (array (base short_type)) rest = refl
parameter_cells-last (array (base boolean_type)) rest = refl
parameter_cells-last (array (object name)) rest = refl
parameter_cells-last (array (array t)) rest = parameter_cells-last (array t) rest

not_end-letter : (b : BaseType) → (letter b == b')') ≡ false
not_end-letter byte_type = refl
not_end-letter char_type = refl
not_end-letter double_type = refl
not_end-letter float_type = refl
not_end-letter int_type = refl
not_end-letter long_type = refl
not_end-letter short_type = refl
not_end-letter boolean_type = refl

not_end-print : (t : FieldType) (rest : Name) → (char_at (print t ++ rest) 0 == b')') ≡ false
not_end-print (base b) rest = not_end-letter b
not_end-print (object name) rest = refl
not_end-print (array t) rest = refl

-- each parameter takes a byte at least
length-print : (t : FieldType) → 1 ≤ length (print t)
length-print (base b) = omega arith
length-print (object name) = omega arith
length-print (array t) = omega arith

length-print_all :
    (ts : List FieldType) (rest : Name) → length ts + length rest ≤ length (print_all ts ++ rest)
length-print_all [] rest = omega arith
length-print_all (t ∷ ts) rest = rw (++_assoc (print t) (print_all ts) rest) (
    omega (
      arith,
      length-append (print t) (print_all ts ++ rest),
      length-print t,
      length-print_all ts rest,
    ))

count_loop-print :
    (ts : List FieldType) (fuel n : ℕ) (result : Name)
    → All IsSpelled ts
    → length ts < fuel
    → n < 2 ^ 16
    → count_loop fuel n (print_all ts ++ (b')' ∷ result))
      ≡ some ((n + (total_cells ts + wide_arrays ts)) % 2 ^ 16)
count_loop-print ts zero n result h enough small = absurd (omega arith)
count_loop-print [] (suc fuel) n result h enough small =
    let e : n ≡ (n + 0) % 2 ^ 16 = omega arith in ap some e
count_loop-print (t ∷ ts) (suc fuel) n result h enough small =
    let behind = print_all ts ++ (b')' ∷ result) in
    let w : ℕ = if is_wide_array t then 1 else 0 in
    let k = cells t + w in
    let small' : (n + k) % 2 ^ 16 < 2 ^ 16 = omega arith in
    let sum : ((n + k) % 2 ^ 16 + (total_cells ts + wide_arrays ts)) % 2 ^ 16
        ≡ (n + (cells t + total_cells ts + (w + wide_arrays ts))) % 2 ^ 16 =
      omega arith in
    rw
      (
        ++_assoc (print t) (print_all ts) (b')' ∷ result),
        not_end-print t behind,
        at_last-print t behind h.0,
        parameter_cells-last t behind,
      )
      (count_loop-print ts fuel ((n + k) % 2 ^ 16) result h.1 (omega arith) small' ∙ ap some sum)

start_small : (is_static : Bool) → (if is_static then 0 else 1) < 2 ^ 16
start_small true = omega arith
start_small false = omega arith

-- For the descriptor of a method that spells its parameters, countNumParametersFromMethodDescriptor
-- gives the number of cells that the arguments take, with one more for a receiver and, as arrays of
-- longs and doubles are counted twice, one more for each such array, wrapped to 16 bits.
pub count_parameters-print :
    (ts : List FieldType) (result : Name) (is_static : Bool)
    → All IsSpelled ts
    → count_num_parameters_from_method_descriptor (print_method ts result) is_static
      ≡ some (((if is_static then 0 else 1) + (total_cells ts + wide_arrays ts)) % 2 ^ 16)
unfolding count_num_parameters_from_method_descriptor
count_parameters-print ts result is_static h =
    count_loop-print ts (length (print_method ts result)) (if is_static then 0 else 1) result h
      (omega (arith, length-print_all ts (b')' ∷ result))) (start_small is_static)
