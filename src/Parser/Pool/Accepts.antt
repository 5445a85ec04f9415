-- ===== src/Parser/Pool/Accepts.antt =====
-- The class file bytes that parseConstantPool accepts.
use cs_562_jvm.Parser.Pool.{ConstantInfo}
use cs_562_jvm.Base.{ℕ, List, ◌∷◌, ◌≡◌}
use cs_562_jvm.Parser.Gives.{Gives, Bytes}
use cs_562_jvm.Parser.{◌>>=◌}
use cs_562_jvm.Parser.Pool.Printed.{TagFits, print_constant}

-- `bytes` with the tag before them are the printed form of the entry read
abbrev pub IsPrinted : ℕ → List ℕ → ConstantInfo → List ℕ → Type 0
IsPrinted tag bytes c rest = (tag ∷ bytes ≡ print_constant c rest) × TagFits c × Bytes rest
