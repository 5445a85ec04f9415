-- ===== src/Loader/File.antt =====
-- parseClassFile (classloader.c), which loads the superclass and the interfaces on its way.
use cs_562_jvm.Base.{
  ℕ, suc, zero, ◌*◌, ◌==◌, Bool, List, [], ◌∷◌, Option, none, some, if◌then◌else◌, get_elem?,
  replicate, set,
}
use cs_562_jvm.Classfile.{Name}
use cs_562_jvm.Parser.{readu2, readu4, read_bytes, need}
use cs_562_jvm.Parser.Pool.{ConstantPool, parse_constant_pool, sizeof_pointer}
use cs_562_jvm.Parser.Attributes.{Attributes, nil, lift, parse_attributes}
use cs_562_jvm.Parser.Class.{
  Field, Method, class_name_at, parse_field_list, parse_method_list, place_fields,
}
use cs_562_jvm.Loader.{
  ok, null, crash, deep, pure, read, call, K, Load, Loader, Class, loaded, loading, ◌>>=◌, ◌>>◌,
  put_class,
}

-- `readu4(classData) == 0xCAFEBABE`
abbrev pub magic : ℕ
magic = 0xCAFEBABE

abbrev pub quit {ℓ} : {A : Type ℓ} → K A
quit bytes l = null l

-- fail2 and what follows it: the loop over the constants begins with constantPool[0], which is read
-- through, and crashes where it is NULL
abbrev pub free_constants {ℓ} : {A : Type ℓ} → ConstantPool → Loader → Load A
free_constants [] l = null l
free_constants (none ∷ pool) l = crash
free_constants (some entry ∷ pool) l = free_constants pool l

abbrev pub on_null {ℓ} : {A : Type ℓ} → (Loader → Load A) → Load A → Load A
on_null cleanup (ok a l) = ok a l
on_null cleanup (null l) = cleanup l
on_null cleanup crash = crash
on_null cleanup deep = deep

-- calloc for n fields, whose result is not checked: NULL matters only when there is a field
abbrev pub unchecked : Bool → ℕ → K (Unit {0})
unchecked b zero = pure tt
unchecked b (suc n) = if b then pure tt else λ bytes l. crash

-- `load` is loadClass0.
module _ (load : Name → Loader → Load ℕ) (pool : ConstantPool) where
  unfoldable pub load_named : ℕ → K ℕ
  load_named index = do name ← read (lift (class_name_at pool index)); call (load name)

  unfoldable pub load_super : ℕ → K (Option ℕ)
  load_super index =
      if index == 0 then pure none else (do super ← load_named index; pure (some super))

  -- the loop over the interfaces, with `n` rounds left
  unfoldable pub load_interfaces : ℕ → K (List ℕ)
  load_interfaces zero = pure []
  load_interfaces (suc n) = do
    index ← read readu2
    interface ← load_named index
    interfaces ← load_interfaces n
    pure (interface ∷ interfaces)

-- objectSize of the superclass, or the size of an object
unfoldable pub start_size : ℕ → Option ℕ → Loader → ℕ
start_size sizeof_object none l = sizeof_object
start_size sizeof_object (some super) l = elim (get_elem? l.classes super) [
  | none ↦ sizeof_object
  | some c ↦ c.object_size
]

-- the class as it is put in the map
abbrev pub begun : ConstantPool → ℕ → Name → Class
begun pool flags name = record {
  name = name;
  constant_pool = pool;
  super_class = none;
  interfaces = [];
  methods = [];
  fields = [];
  attributes = nil;
  static_field_data = [];
  object_size = 0;
  static_data_size = 0;
  flags = flags;
  status = loading;
}

-- `sort` is qsort with fieldCompare; `sizeof_class` and `sizeof_object` are the
-- sizes of class_t and object_t, which depend on the machine's mutexes.
module _ (full : ℕ → ℕ → Bool) (mallocs : ℕ → Bool) where
  module _ (sort : List Field → List Field) (sizeof_object : ℕ) where
    -- the end of parseClassFile, with everything read
    unfoldable pub finish :
        ℕ → Class → Option ℕ → List ℕ → List Field → List Method → Attributes → K ℕ
    finish id c super interfaces fields methods attributes bytes l =
        let placed = place_fields (sort fields) (start_size sizeof_object super l) 0 in
        if mallocs placed.2
        then ok (id, bytes)
            (record l {
              classes = set l.classes id (record c {
                super_class = super;
                interfaces = interfaces;
                methods = methods;
                fields = placed.0;
                attributes = attributes;
                static_field_data = replicate placed.2 0;
                object_size = placed.1;
                static_data_size = placed.2;
                status = loaded;
              });
            })
        else null l

    -- from the superclass on, with the class `c` in the map as `id`
    unfoldable pub parse_members : (Name → Loader → Load ℕ) → ConstantPool → ℕ → Class → K ℕ
    parse_members load pool id c = do
      super_index ← read readu2
      super ← load_super load pool super_index
      num_interfaces ← read readu2
      read (need (mallocs (sizeof_pointer * num_interfaces)))
      interfaces ← load_interfaces load pool num_interfaces
      num_fields ← read readu2
      unchecked (mallocs (48 * num_fields)) num_fields
      fields ← read (parse_field_list mallocs pool num_fields)
      num_methods ← read readu2
      read (need (mallocs (48 * num_methods)))
      methods ← read (parse_method_list mallocs pool num_methods)
      num_attributes ← read readu2
      read (need (mallocs (sizeof_pointer * num_attributes)))
      attributes ← read (parse_attributes mallocs pool num_attributes)
      finish id c super interfaces fields methods attributes

    -- from the flags on
    unfoldable pub parse_body : (Name → Loader → Load ℕ) → ConstantPool → K ℕ
    parse_body load pool = do
      flags ← read readu2
      this_index ← read readu2
      name ← read (lift (class_name_at pool this_index))
      id ← call (put_class full mallocs (begun pool flags name))
      (λ bytes l.
          on_null (free_constants pool)
            (parse_members load pool id (begun pool flags name) bytes l))

    unfoldable pub parse_class_file : (Name → Loader → Load ℕ) → ℕ → K ℕ
    parse_class_file load sizeof_class = do
      number ← read readu4
      (if number == magic
          then (do
            version ← read (read_bytes 4)
            read (need (mallocs sizeof_class))
            pool ← read (parse_constant_pool mallocs)
            parse_body load pool)
          else quit)
