-- ===== src/Interp/Floats.antt =====
-- Floating-point handlers (bytecode_interpreter.c). The arithmetic of `float` and `double` is that of
-- the C implementation: a parameter, on bit patterns.
use cs_562_jvm.Base.{ℕ, ◌-◌, ◌^◌, Bool, ◌||◌, if◌then◌else◌}
use cs_562_jvm.Frame.{type_int, type_long, type_float, type_double}
use cs_562_jvm.Machine.{◌>>=◌, ◌>>◌, pop, pop2, push, push2}
use cs_562_jvm.Interp.Defs.{Handler, advance, binary, binary2, unary, unary2}

-- `mod` is fmodf or fmod. Conversions are C's implicit ones; `of_int` and `of_long` take the pattern
-- of the integer, `to_int` and `to_long` give it.
pub record Real : Type 0 where
  pub add : ℕ → ℕ → ℕ
  pub sub : ℕ → ℕ → ℕ
  pub mul : ℕ → ℕ → ℕ
  pub div : ℕ → ℕ → ℕ
  pub fmod : ℕ → ℕ → ℕ
  pub neg : ℕ → ℕ
  pub of_int : ℕ → ℕ
  pub of_long : ℕ → ℕ
  pub to_int : ℕ → ℕ
  pub to_long : ℕ → ℕ
  pub is_nan : ℕ → Bool
  pub less : ℕ → ℕ → Bool

pub record Floats : Type 0 where
  pub float : Real
  pub double : Real
  pub to_double : ℕ → ℕ
  pub to_float : ℕ → ℕ

unfoldable pub handle_instr_fadd : Floats → Handler
handle_instr_fadd fl = binary (λ next top. fl.float.add top next) type_float

unfoldable pub handle_instr_dadd : Floats → Handler
handle_instr_dadd fl = binary2 (λ next top. fl.double.add top next) type_double

unfoldable pub handle_instr_fsub : Floats → Handler
handle_instr_fsub fl = binary fl.float.sub type_float

unfoldable pub handle_instr_dsub : Floats → Handler
handle_instr_dsub fl = binary2 fl.double.sub type_double

unfoldable pub handle_instr_fmul : Floats → Handler
handle_instr_fmul fl = binary (λ next top. fl.float.mul top next) type_float

unfoldable pub handle_instr_dmul : Floats → Handler
handle_instr_dmul fl = binary2 (λ next top. fl.double.mul top next) type_double

unfoldable pub handle_instr_fdiv : Floats → Handler
handle_instr_fdiv fl = binary fl.float.div type_float

unfoldable pub handle_instr_ddiv : Floats → Handler
handle_instr_ddiv fl = binary2 fl.double.div type_double

unfoldable pub handle_instr_frem : Floats → Handler
handle_instr_frem fl = binary fl.float.fmod type_float

unfoldable pub handle_instr_drem : Floats → Handler
handle_instr_drem fl = binary2 fl.double.fmod type_double

unfoldable pub handle_instr_fneg : Floats → Handler
handle_instr_fneg fl = unary fl.float.neg type_float

unfoldable pub handle_instr_dneg : Floats → Handler
handle_instr_dneg fl = unary2 fl.double.neg type_double

unfoldable pub handle_instr_i2f : Floats → Handler
handle_instr_i2f fl wide = do v ← pop; push (fl.float.of_int v) type_float; advance 1

unfoldable pub handle_instr_i2d : Floats → Handler
handle_instr_i2d fl wide = do v ← pop; push2 (fl.double.of_int v) type_double; advance 1

unfoldable pub handle_instr_l2f : Floats → Handler
handle_instr_l2f fl wide = do v ← pop2; push (fl.float.of_long v) type_float; advance 1

-- The source tags the two cells of the double with TYPE_INT.
unfoldable pub handle_instr_l2d : Floats → Handler
handle_instr_l2d fl wide = do v ← pop2; push2 (fl.double.of_long v) type_int; advance 1

unfoldable pub handle_instr_f2i : Floats → Handler
handle_instr_f2i fl wide = do v ← pop; push (fl.float.to_int v) type_int; advance 1

unfoldable pub handle_instr_f2l : Floats → Handler
handle_instr_f2l fl wide = do v ← pop; push2 (fl.float.to_long v) type_long; advance 1

unfoldable pub handle_instr_f2d : Floats → Handler
handle_instr_f2d fl wide = do v ← pop; push2 (fl.to_double v) type_double; advance 1

unfoldable pub handle_instr_d2i : Floats → Handler
handle_instr_d2i fl wide = do v ← pop2; push (fl.double.to_int v) type_int; advance 1

unfoldable pub handle_instr_d2l : Floats → Handler
handle_instr_d2l fl wide = do v ← pop2; push2 (fl.double.to_long v) type_long; advance 1

unfoldable pub handle_instr_d2f : Floats → Handler
handle_instr_d2f fl wide = do v ← pop2; push (fl.to_float v) type_float; advance 1

-- the result of a comparison, given what a NaN gives
abbrev pub compare_real : Real → ℕ → ℕ → ℕ → ℕ
compare_real r nan next top =
    if r.is_nan top || r.is_nan next
    then nan
    else if r.less top next
    then 1
    else if r.less next top
    then 2 ^ 32 - 1
    else 0

unfoldable pub handle_instr_fcmpl : Floats → Handler
handle_instr_fcmpl fl wide = do
  top ← pop
  next ← pop
  push (compare_real fl.float (2 ^ 32 - 1) next top) type_int
  advance 1

unfoldable pub handle_instr_fcmpg : Floats → Handler
handle_instr_fcmpg fl wide = do
  top ← pop
  next ← pop
  push (compare_real fl.float 1 next top) type_int
  advance 1

unfoldable pub handle_instr_dcmpl : Floats → Handler
handle_instr_dcmpl fl wide = do
  top ← pop2
  next ← pop2
  push (compare_real fl.double (2 ^ 32 - 1) next top) type_int
  advance 1

unfoldable pub handle_instr_dcmpg : Floats → Handler
handle_instr_dcmpg fl wide = do
  top ← pop2
  next ← pop2
  push (compare_real fl.double 1 next top) type_int
  advance 1
