-- ===== src/Tests/Fields.antt =====
-- Static fields.
use cs_562_jvm.Interp.Statics.Resolved.{with_data, Resolves}
use cs_562_jvm.Parser.Attributes.{nil}
use cs_562_jvm.Machine.Effects.{on}
use cs_562_jvm.Tests.Machines.{frame, machine, with_height}
use cs_562_jvm.Machine.{Machine, fault, ok}
use cs_562_jvm.Frame.{Frame}
use cs_562_jvm.Base.{[], ℕ, none, Option, Bool, ◌∷◌, some, true}
use cs_562_jvm.Classfile.{Name}
use cs_562_jvm.Interp.Statics.{Vm}
use cs_562_jvm.Loader.{Class, initialized}
use cs_562_jvm.Parser.Class.{Field}
use cs_562_jvm.Parser.Pool.{
  ConstantPool, field_method_interface_method_ref_info, class_info, name_and_type_info, utf8_info,
}
use Prim.Native.String.{String}
use cs_562_jvm.Interp.Statics.Resolved.{with_data, Resolves}

-- a pool whose entry 1 refers to the field x of class A, of type byte
abbrev pool : ConstantPool
pool =
    none
    ∷ some (field_method_interface_method_ref_info 9 2 3)
    ∷ some (class_info 7 4)
    ∷ some (name_and_type_info 12 5 6)
    ∷ some (utf8_info 1 1 (65 ∷ []))
    ∷ some (utf8_info 1 1 (120 ∷ []))
    ∷ some (utf8_info 1 1 (66 ∷ []))
    ∷ []

abbrev byte_field : Field
byte_field = record {
  name = 120 ∷ [];
  descriptor = 66 ∷ [];
  attributes = nil;
  object_offset = 1;
  data_size = 1;
  num_attributes = 0;
  flags = 8;
}

abbrev class_a : Class
class_a = record {
  name = 65 ∷ [];
  constant_pool = [];
  super_class = none;
  interfaces = [];
  methods = [];
  fields = byte_field ∷ [];
  attributes = nil;
  static_field_data = 10 ∷ 20 ∷ 30 ∷ [];
  object_size = 112;
  static_data_size = 3;
  flags = 0;
  status = initialized;
}

abbrev no_throws : String → String → Vm (Unit {0})
no_throws class_name message cs m = fault

abbrev load_a : Name → Vm (Option ℕ)
load_a name cs m = ok (some 0, cs) m

abbrev always_ready : ℕ → Vm Bool
always_ready id cs m = ok (true, cs) m

-- putstatic 1
abbrev code_frame : Frame
code_frame = frame (179 ∷ 0 ∷ 1 ∷ [])

abbrev with_one : Machine
with_one = on (machine 0) [] (with_height code_frame 1)
