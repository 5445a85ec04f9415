-- ===== src/Interp/Statics/RoundTrip.antt =====
-- putstatic followed by getstatic of the same field (bytecode_interpreter.c).
use cs_562_jvm.Frame.View.{Entry}
use cs_562_jvm.Interp.Statics.Stored.{Disjoint}
use cs_562_jvm.Interp.Statics.{read_data}
use cs_562_jvm.Frame.{Frame}
use cs_562_jvm.Base.{ℕ, ◌≡◌, length, List, some}
use Prim.Native.String.{String}
use cs_562_jvm.Machine.{Machine}
use cs_562_jvm.Loader.{Class}
use cs_562_jvm.Frame.View.{Entry}

-- `bytes` has `w` in `n` bytes from `offset` on, and is `old` elsewhere.
pub record Stores (old bytes : List ℕ) (offset n w : ℕ) : Type 0 where
  pub same_size : length bytes ≡ length old
  pub inside : read_data bytes offset n ≡ some w
  pub outside : (j k : ℕ) → Disjoint offset n j k → read_data bytes j k ≡ read_data old j k
