-- ===== src/Loader/Classes.antt =====
-- loadClass0 and the functions that it calls beside parseClassFile (classloader.c). The lock jlock of a
-- class is not modelled.
pub mod Extends
pub mod Deeper
pub mod Failures
pub mod Cyclic
use cs_562_jvm.Base.{
  ℕ, suc, zero, ◌+◌, ◌*◌, ◌^◌, ◌==◌, Bool, List, [], ◌∷◌, Option, none, some, if◌then◌else◌,
  get_elem?, length, true, false,
}
use cs_562_jvm.Classfile.{Name, char_at}
use cs_562_jvm.Parser.Attributes.{nil}
use cs_562_jvm.Parser.Class.{Field}
use cs_562_jvm.Loader.{
  ok, null, crash, deep, Load, Loader, Class, Status, loading, initialized, then_load, put_class,
  get_class, loaded, initializing,
}
use cs_562_jvm.Loader.File.{parse_class_file}

-- What there is for the name of a class: no file on the class path, a file that fstat or mmap fails
-- for, or the bytes of a file.
pub data File : Type 0 where
  missing unreadable : File
  contents : List ℕ → File

-- CLASS_ACC_FINAL | CLASS_ACC_PUBLIC | CLASS_ACC_SYNTHETIC
abbrev pub array_flags : ℕ
array_flags = 0x1011

abbrev pub object_name : Name
object_name =
    b'j' ∷ b'a' ∷ b'v' ∷ b'a' ∷ b'/' ∷ b'l' ∷ b'a' ∷ b'n' ∷ b'g' ∷ b'/' ∷ b'O' ∷ b'b' ∷ b'j' ∷ b'e'
    ∷ b'c' ∷ b't' ∷ []

-- a class without a file
abbrev pub made : Name → Option ℕ → ℕ → Class
made name super size = record {
  name = name;
  constant_pool = [];
  super_class = super;
  interfaces = [];
  methods = [];
  fields = [];
  attributes = nil;
  static_field_data = [];
  object_size = size;
  static_data_size = 0;
  flags = array_flags;
  status = initialized;
}

abbrev pub is_loading : Status → Bool
is_loading loading = true
is_loading loaded = false
is_loading initializing = false
is_loading initialized = false

-- `if(class->status != CLASS_STATUS_LOADING) return class; … return NULL`
abbrev pub when_found : ℕ → Loader → Option Class → Load ℕ
when_found id l none = crash
when_found id l (some c) = if is_loading c.status then null l else ok id l

-- a class found in the map
abbrev pub found : ℕ → Loader → Load ℕ
found id l = when_found id l (get_elem? l.classes id)

-- what parseClassFile returns, without the bytes behind the class
abbrev pub class_of : ℕ × List ℕ → Loader → Load ℕ
class_of p = ok p.0

module _ (full : ℕ → ℕ → Bool) (mallocs : ℕ → Bool) (sizeof_class sizeof_object : ℕ) where
  abbrev pub make_primitive_class : Name → Loader → Option ℕ → Load ℕ
  make_primitive_class name l (some id) = ok id l
  make_primitive_class name l none =
      if mallocs sizeof_class
      then if mallocs 2 then put_class full mallocs (made name none 0) l else null l
      else null l

  unfoldable pub load_primitive_class0 : ℕ → Loader → Load ℕ
  load_primitive_class0 primitive l =
      make_primitive_class (primitive ∷ []) l (get_class (primitive ∷ []) l)

  abbrev pub make_array_class : Name → ℕ → Loader → Load ℕ
  make_array_class name super l =
      if mallocs sizeof_class
      then if mallocs (length name + 1)
        then put_class full mallocs (made name (some super) sizeof_object) l
        else null l
      else null l

  unfoldable pub load_array_class : (Name → Loader → Load ℕ) → Name → Loader → Load ℕ
  load_array_class load name l = then_load (load object_name l) (make_array_class name)

  module _ (sort : List Field → List Field) (files : Name → File) where
    -- the rest of loadClass0, by what the file system has for the name
    unfoldable pub load_file : (Name → Loader → Load ℕ) → File → Loader → Load ℕ
    load_file load missing l = crash
    load_file load unreadable l = null l
    load_file load (contents bytes) l =
        then_load (parse_class_file full mallocs sort sizeof_object load sizeof_class bytes l)
          class_of

    abbrev pub load_absent : (Name → Loader → Load ℕ) → Name → Loader → Option ℕ → Load ℕ
    load_absent load name l (some id) = found id l
    load_absent load name l none =
        if char_at name 0 == b'['
        then load_array_class load name l
        else load_file load (files name) l

    -- the body of loadClass0
    unfoldable pub load_step : (Name → Loader → Load ℕ) → Name → Loader → Load ℕ
    load_step load name l = load_absent load name l (get_class name l)

    -- for at most `depth` calls within each other
    unfoldable pub load_class0 : ℕ → Name → Loader → Load ℕ
    load_class0 zero name l = deep
    load_class0 (suc depth) name l = load_step (load_class0 depth) name l
