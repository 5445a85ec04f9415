-- ===== src/Tests/Loading.antt =====
-- Loading of classes, and the class path.
use cs_562_jvm.HashMap.{ht_create_hashmap, new_hashmap}
use cs_562_jvm.Base.{
  ℕ, List, [], ◌∷◌, ◌++◌, ◌≡◌, ◌≢◌, refl, some, true, Bool, leb, length, arith, ap, get_or,
  length-append,
}
use cs_562_jvm.Classfile.{Name}
use cs_562_jvm.Parser.Pool.{ConstantPool, utf8_info, class_info}
use cs_562_jvm.Parser.Class.{Field}
use cs_562_jvm.Loader.{Loader, Load, init_class_loader, null, with_map, with_class}
use cs_562_jvm.Loader.File.{parse_class_file, begun}
use cs_562_jvm.Loader.Classes.{File, contents}
use cs_562_jvm.Loader.Classes.Failures.{parse_class_file-null, GaveUp}
use cs_562_jvm.Loader.Paths.{combine_path, slash, class_suffix}
use cs_562_jvm.Loader.Paths.Combined.{combine_path-slashes}

-- the loader that initClassLoader makes when the block for the map is large enough
abbrev new_loader : Loader
new_loader = with_map new_hashmap

init_example : init_class_loader (some 64) true ≡ some new_loader
unfolding init_class_loader ht_create_hashmap
init_example = refl

abbrev half_full : ℕ → ℕ → Bool
half_full entries len = leb len entries

abbrev always : ℕ → Bool
always n = true

abbrev unsorted : List Field → List Field
unsorted fields = fields

-- a class file with an unknown constant
abbrev broken : Name → File
broken name = contents (202 ∷ 254 ∷ 186 ∷ 190 ∷ 0 ∷ 0 ∷ 0 ∷ 52 ∷ 0 ∷ 2 ∷ 2 ∷ [])

abbrev broken_bytes : List ℕ
broken_bytes = 202 ∷ 254 ∷ 186 ∷ 190 ∷ 0 ∷ 0 ∷ 0 ∷ 52 ∷ 0 ∷ 2 ∷ 2 ∷ []

-- a loader with the class B, which is still being loaded
abbrev one_class : Loader
one_class = with_class half_full always (begun [] 33 (66 ∷ [])) new_loader

abbrev no_class : Name → Loader → Load ℕ
no_class name l = null l

broken_null :
    parse_class_file half_full always unsorted 112 no_class 192 broken_bytes new_loader
    ≡ null new_loader
unfolding parse_class_file cs_562_jvm.Loader.of_outcome cs_562_jvm.Parser.readu4
    cs_562_jvm.Parser.Pool.parse_constant_pool cs_562_jvm.Parser.readu2
    cs_562_jvm.Parser.Pool.parse_entries cs_562_jvm.Parser.Pool.parse_entry
    cs_562_jvm.Parser.Pool.parse_constant
broken_null = refl

parse_class_file_example : (new_loader ≡ new_loader) × GaveUp always 192 broken_bytes
parse_class_file_example =
    parse_class_file-null always half_full unsorted 112 no_class 192 broken_bytes new_loader
      new_loader broken_null

-- the class A in entry 2, its name in entry 1
abbrev entries : ConstantPool
entries = some (utf8_info 1 1 (65 ∷ [])) ∷ some (class_info 7 1) ∷ []

abbrev file_name : Name
file_name = b'A' ∷ class_suffix

runtime_ends : (rest : Name) → (b'r' ∷ b't' ∷ []) ≢ rest ++ slash
runtime_ends [] e = absurd (cc)
runtime_ends (a ∷ []) e = absurd (omega (arith, ap (λ xs. get_or xs 1 0) e))
runtime_ends (a ∷ b ∷ rest) e = absurd (omega (arith, ap length e, length-append rest slash))

file_begins : (rest : Name) → file_name ≢ b'/' ∷ rest
file_begins rest e = absurd (omega (arith, ap (λ xs. get_or xs 0 0) e))

combine_path_example :
    (combine_path (b'r' ∷ b't' ∷ []) file_name ≡ (b'r' ∷ b't' ∷ []) ++ b'/' ∷ file_name)
    × (combine_path ((b'r' ∷ b't' ∷ []) ++ slash) file_name
        ≡ (b'r' ∷ b't' ∷ []) ++ b'/' ∷ file_name)
    × (combine_path (b'r' ∷ b't' ∷ []) (b'/' ∷ file_name) ≡ (b'r' ∷ b't' ∷ []) ++ b'/' ∷ file_name)
    × (combine_path ((b'r' ∷ b't' ∷ []) ++ slash) (b'/' ∷ file_name)
        ≡ (b'r' ∷ b't' ∷ []) ++ b'/' ∷ file_name)
combine_path_example = combine_path-slashes (b'r' ∷ b't' ∷ []) file_name runtime_ends file_begins
