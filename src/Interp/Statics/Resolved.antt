-- ===== src/Interp/Statics/Resolved.antt =====
-- References to static fields of classes that are loaded and initialised (bytecode_interpreter.c).
use cs_562_jvm.Classfile.{Name}
use cs_562_jvm.Base.{
  ℕ, Option, ◌≡◌, true, set, get_elem?-set_self, get_elem?-lt, List, Bool, suc, some, get_elem?,
}
use Prim.Native.String.{String}
use cs_562_jvm.Machine.{Machine, ok}
use cs_562_jvm.Interp.Statics.{
  Vm, FieldRef, field_ref_at, find_field, resolve_field, resolve_field0,
}
use cs_562_jvm.Parser.Class.{Field}
use cs_562_jvm.Parser.Pool.{ConstantPool}
use cs_562_jvm.Loader.{Class}
use cs_562_jvm.Base.{ℕ, Option, ◌≡◌, true, set, get_elem?-set_self, get_elem?-lt}

-- The reference `index` of `pool` is resolved to the static field `f` of the class `id`, which has been
-- loaded and initialised and is `c` in `cs`.
pub record Resolves (load : Name → Vm (Option ℕ)) (initialize : ℕ → Vm Bool) (pool : ConstantPool)
    (index : ℕ) (id : ℕ) (f : Field) (c : Class) (cs : List Class) : Type 0 where
  pub ref : FieldRef
  pub reference : field_ref_at pool index ≡ some ref
  pub found_class :
      (all : List Class) (m : Machine) → load ref.class_name all m ≡ ok (some id, all) m
  pub ready : (all : List Class) (m : Machine) → initialize id all m ≡ ok (true, all) m
  pub class_there : get_elem? cs id ≡ some c
  pub field_there : find_field true ref.name ref.descriptor c.fields ≡ some f

module _ (throw : String → String → Vm (Unit {0})) (load : Name → Vm (Option ℕ))
    (initialize : ℕ → Vm Bool) (depth : ℕ) (pool : ConstantPool) where
  module _ {index id : ℕ} {f : Field} {c : Class} {cs : List Class}
      (r : Resolves load initialize pool index id f c cs) where
    pub resolve_field_lem :
        (m : Machine)
        → resolve_field throw load initialize (suc depth) pool index true cs m
          ≡ ok (some (id, f), cs) m
    unfolding resolve_field resolve_field0
    resolve_field_lem m =
        rw (r.reference, r.found_class cs m, r.ready cs m, r.class_there, r.field_there)

-- `c` with other contents of its static fields
abbrev pub with_data : Class → List ℕ → Class
with_data c bytes = record c { static_field_data = bytes }

-- The contents of the static fields do not matter to the resolution.
pub stored-Resolves :
    {load : Name → Vm (Option ℕ)} {initialize : ℕ → Vm Bool} {pool : ConstantPool} {index id : ℕ}
    {f : Field} {c : Class} {cs : List Class}
    → Resolves load initialize pool index id f c cs
    → (bytes : List ℕ)
    → Resolves load initialize pool index id f (with_data c bytes) (set cs id (with_data c bytes))
stored-Resolves {id} {c} {cs} r bytes = record {
  ref = r.ref;
  reference = r.reference;
  found_class = r.found_class;
  ready = r.ready;
  class_there = get_elem?-set_self cs id (with_data c bytes) (get_elem?-lt cs id c r.class_there);
  field_there = r.field_there;
}
