-- ===== src/Parser/Pool/Printed.antt =====
-- The bytes of a constant pool in a class file, and that parseConstantPool reads them.
use cs_562_jvm.Parser.Pool.{
  ConstantInfo, parse_entry, class_info, parse_constant, kind_of,
  field_method_interface_method_ref_info, class, string_info, ref, integer_float_info, string,
  long_double_info, integer_float, name_and_type_info, long_double, utf8_info, name_and_type,
  method_handle_info, utf8, method_type_info, method_handle, invoke_dynamic_info, method_type,
  invoke_dynamic, parse_entries, parse_constant_pool, unknown,
}
use cs_562_jvm.Base.{
  ℕ, suc, zero, Bool, true, List, [], ◌∷◌, ◌++◌, ◌≡◌, refl, length, ◌<◌, none, some, map, All,
  arith,
}
use cs_562_jvm.Parser.{done, failed}
use cs_562_jvm.Parser.Reads.{
  put2, put4, put8, readu2-put2, readu4-put4, readu8-put8, read_bytes-append,
}

-- the tag of an entry is one that the switch reads into its struct
abbrev pub TagFits : ConstantInfo → Type 0
TagFits (class_info tag name_index) = kind_of tag ≡ class
TagFits (field_method_interface_method_ref_info tag c n) = kind_of tag ≡ ref
TagFits (string_info tag s) = kind_of tag ≡ string
TagFits (integer_float_info tag bytes) = kind_of tag ≡ integer_float
TagFits (long_double_info tag bytes) = kind_of tag ≡ long_double
TagFits (name_and_type_info tag n d) = kind_of tag ≡ name_and_type
TagFits (utf8_info tag n chars) = (kind_of tag ≡ utf8) × (length chars ≡ n)
TagFits (method_handle_info tag k r) = kind_of tag ≡ method_handle
TagFits (method_type_info tag d) = kind_of tag ≡ method_type
TagFits (invoke_dynamic_info tag b n) = kind_of tag ≡ invoke_dynamic

-- the bytes of an entry, before `bytes`
abbrev pub print_constant : ConstantInfo → List ℕ → List ℕ
print_constant (class_info tag name_index) bytes = tag ∷ put2 name_index bytes
print_constant (field_method_interface_method_ref_info tag c n) bytes = tag ∷ put2 c (put2 n bytes)
print_constant (string_info tag s) bytes = tag ∷ put2 s bytes
print_constant (integer_float_info tag v) bytes = tag ∷ put4 v bytes
print_constant (long_double_info tag v) bytes = tag ∷ put8 v bytes
print_constant (name_and_type_info tag n d) bytes = tag ∷ put2 n (put2 d bytes)
print_constant (utf8_info tag n chars) bytes = tag ∷ put2 n (chars ++ bytes)
print_constant (method_handle_info tag k r) bytes = tag ∷ k ∷ put2 r bytes
print_constant (method_type_info tag d) bytes = tag ∷ put2 d bytes
print_constant (invoke_dynamic_info tag b n) bytes = tag ∷ put2 b (put2 n bytes)

abbrev pub print_constants : List ConstantInfo → List ℕ → List ℕ
print_constants [] bytes = bytes
print_constants (c ∷ cs) bytes = print_constant c (print_constants cs bytes)

-- the number of entries and the entries, one index each, whatever their tags
abbrev pub print_pool : List ConstantInfo → List ℕ → List ℕ
print_pool cs bytes = put2 (suc (length cs)) (print_constants cs bytes)

module _ (mallocs : ℕ → Bool) (room : (n : ℕ) → mallocs n ≡ true) where
  pub parse_entry-print_constant :
      (c : ConstantInfo) (bytes : List ℕ)
      → TagFits c
      → parse_entry mallocs (print_constant c bytes) ≡ done c bytes
  unfolding parse_entry parse_constant
  parse_entry-print_constant (class_info tag n) bytes h = rw (room, h, readu2-put2) refl
  parse_entry-print_constant (field_method_interface_method_ref_info tag c n) bytes h =
      rw (room, h, readu2-put2 c, readu2-put2 n) refl
  parse_entry-print_constant (string_info tag n) bytes h = rw (room, h, readu2-put2) refl
  parse_entry-print_constant (integer_float_info tag n) bytes h = rw (room, h, readu4-put4) refl
  parse_entry-print_constant (long_double_info tag n) bytes h = rw (room, h, readu8-put8) refl
  parse_entry-print_constant (name_and_type_info tag c n) bytes h =
      rw (room, h, readu2-put2 c, readu2-put2 n) refl
  parse_entry-print_constant (utf8_info tag n chars) bytes h =
      rw (room, h.0, readu2-put2 n, room, read_bytes-append chars bytes n h.1) refl
  parse_entry-print_constant (method_handle_info tag c n) bytes h = rw (room, h, readu2-put2 n) refl
  parse_entry-print_constant (method_type_info tag n) bytes h = rw (room, h, readu2-put2) refl
  parse_entry-print_constant (invoke_dynamic_info tag c n) bytes h =
      rw (room, h, readu2-put2 c, readu2-put2 n) refl

  pub parse_entries-print_constants :
      (cs : List ConstantInfo) (bytes : List ℕ)
      → All TagFits cs
      → parse_entries mallocs (length cs) (print_constants cs bytes) ≡ done cs bytes
  unfolding parse_entries
  parse_entries-print_constants [] bytes h = refl
  parse_entries-print_constants (c ∷ cs) bytes h =
      rw
        (
          parse_entry-print_constant c (print_constants cs bytes) h.0,
          parse_entries-print_constants cs bytes h.1,
        )
        refl

  -- When malloc finds room, parseConstantPool reads the printed form of any list of entries whose tags
  -- fit their structs: it gives NULL and the entries in order, and goes on behind the last of them. A
  -- long or double takes one index like the others.
  pub parse_constant_pool-print_pool :
      (cs : List ConstantInfo) (bytes : List ℕ)
      → All TagFits cs
      → parse_constant_pool mallocs (print_pool cs bytes) ≡ done (none ∷ map some cs) bytes
  unfolding parse_constant_pool
  parse_constant_pool-print_pool cs bytes h =
      rw (readu2-put2 (suc (length cs)), room, parse_entries-print_constants cs bytes h) refl

  parse_entries-unknown :
      (cs : List ConstantInfo) (n tag : ℕ) (bytes : List ℕ)
      → All TagFits cs
      → length cs < n
      → kind_of tag ≡ unknown
      → parse_entries mallocs n (print_constants cs (tag ∷ bytes)) ≡ failed
  unfolding parse_entries parse_entry parse_constant
  parse_entries-unknown [] (suc n) tag bytes h l u = rw (room, u) refl
  parse_entries-unknown (c ∷ cs) (suc n) tag bytes h l u =
      rw
        (
          parse_entry-print_constant c (print_constants cs (tag ∷ bytes)) h.0,
          parse_entries-unknown cs n tag bytes h.1 (omega (arith, l)) u,
        )
        refl
  parse_entries-unknown cs zero tag bytes h l u = absurd (omega (arith, l))

  -- When malloc finds room, parseConstantPool returns NULL at the first unknown tag, however many
  -- entries stand before it and whatever follows.
  pub parse_constant_pool-unknown :
      (cs : List ConstantInfo) (n tag : ℕ) (bytes : List ℕ)
      → All TagFits cs
      → length cs < n
      → kind_of tag ≡ unknown
      → parse_constant_pool mallocs (put2 (suc n) (print_constants cs (tag ∷ bytes))) ≡ failed
  unfolding parse_constant_pool
  parse_constant_pool-unknown cs n tag bytes h l u =
      rw (readu2-put2 (suc n), room, parse_entries-unknown cs n tag bytes h l u) refl
