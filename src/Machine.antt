-- ===== src/Machine.antt =====
-- The state that the bytecode interpreter works on (bytecode_interpreter.h, jthread.h, object.h) and
-- the reads of instruction operands (bytecode_interpreter.c). A run is `fault` where the source has
-- undefined behaviour, such as an access outside an array or through NULL.
pub mod Effects
pub mod Control
pub mod Locals
use cs_562_jvm.Base.{
  ℕ, ◌+◌, ◌-◌, ◌*◌, ◌^◌, Bool, Option, none, some, List, [], ◌∷◌, ltb, leb, if◌then◌else◌,
  get_elem?, ℤ, pos_part, neg_part, signed8, signed16, signed32,
}
use cs_562_jvm.Frame
use cs_562_jvm.Frame.{Frame}
use Prim.Native.String.{String}

-- object_t: class->name as bytes, the elements of an array and its int32_t length.
pub record Object : Type 0 where
  pub class_name : List ℕ
  pub elements : List ℕ
  pub len : ℕ

-- `frames` is the chain from currentStackFrame along previousStackFrame, and `pc` the index of
-- jthread->pc in the code of the current frame. `objects` maps a slot to its object; `exception` is
-- the slot of interpreter->exception.
pub record Machine : Type 0 where
  pub frames : List Frame
  pub pc : ℕ
  pub objects : ℕ → Option Object
  pub exception : Option ℕ

pub data Run {ℓ} (A : Type ℓ) : Type ℓ where
  ok : A → Machine → Run A
  fault : Run A

abbrev pub M {ℓ} : Type ℓ → Type ℓ
M A = Machine → Run A

abbrev pub pure {ℓ} : {A : Type ℓ} → A → M A
pure = ok

abbrev pub and_then {ℓ κ} : {A : Type ℓ} {B : Type κ} → Run A → (A → M B) → Run B
and_then (ok a m) k = k a m
and_then fault k = fault

infixl 5 ◌>>=◌ ◌>>◌
abbrev pub ◌>>=◌ {ℓ κ} : {A : Type ℓ} {B : Type κ} → M A → (A → M B) → M B
c >>= k = λ m. and_then (c m) k

abbrev pub ◌>>◌ {ℓ κ} : {A : Type ℓ} {B : Type κ} → M A → M B → M B
c >> k = c >>= λ _. k

abbrev pub crash {ℓ} : {A : Type ℓ} → M A
crash m = fault

abbrev pub lift {ℓ} : {A : Type ℓ} → Option A → M A
lift none m = fault
lift (some a) m = ok a m

-- `m` with its current frame replaced, if there is one
abbrev pub put_frame : List Frame → Frame → List Frame
put_frame [] g = []
put_frame (f ∷ fs) g = g ∷ fs

-- a read of *jthread->currentStackFrame
abbrev pub on_frame {ℓ} : {A : Type ℓ} → (Frame → Option A) → List Frame → Option A
on_frame r [] = none
on_frame r (f ∷ fs) = r f

unfoldable pub from_frame {ℓ} : {A : Type ℓ} → (Frame → Option A) → M A
from_frame r m = elim (on_frame r m.frames) [ none ↦ fault | some a ↦ ok a m ]

-- an access that also changes the frame
unfoldable pub update_frame {ℓ} : {A : Type ℓ} → (Frame → Option (A × Frame)) → M A
update_frame r m = elim (on_frame r m.frames) [
  | none ↦ fault
  | some (a, g) ↦ ok a (record m { frames = put_frame m.frames g })
]

unfoldable pub write_frame : (Frame → Option Frame) → M (Unit {0})
write_frame r m = elim (on_frame r m.frames) [
  | none ↦ fault
  | some g ↦ ok tt (record m { frames = put_frame m.frames g })
]

abbrev pub pop : M ℕ
pop = update_frame Frame.pop_operand

abbrev pub pop_typed : M (ℕ × ℕ)
pop_typed = update_frame Frame.pop_operand_typed

abbrev pub pop2 : M ℕ
pop2 = update_frame Frame.pop_operand2

abbrev pub push : ℕ → ℕ → M (Unit {0})
push v t = write_frame (Frame.push_operand v t)

abbrev pub push2 : ℕ → ℕ → M (Unit {0})
push2 v t = write_frame (Frame.push_operand2 v t)

-- `*((uint8_t *) jthread->pc + offset)`
unfoldable pub code_byte : ℕ → M ℕ
code_byte i m = from_frame (λ f. get_elem? f.code (m.pc + i)) m

unfoldable pub read_byte_operand : ℕ → M ℤ
unfolding code_byte
read_byte_operand i = do b ← code_byte i; pure (signed8 b)

unfoldable pub read_short_operand : ℕ → M ℤ
unfolding code_byte
read_short_operand i = do
  b0 ← code_byte i
  b1 ← code_byte (i + 1)
  pure (signed16 (b0 * 2 ^ 8 + b1))

unfoldable pub read_int_operand : ℕ → M ℤ
unfolding code_byte
read_int_operand i = do
  b0 ← code_byte i
  b1 ← code_byte (i + 1)
  b2 ← code_byte (i + 2)
  b3 ← code_byte (i + 3)
  pure (signed32 (((b0 * 2 ^ 8 + b1) * 2 ^ 8 + b2) * 2 ^ 8 + b3))

-- `jthread->pc += offset`
unfoldable pub jump : ℤ → M (Unit {0})
jump d m =
    if leb (neg_part d) (m.pc + pos_part d)
    then ok tt (record m { pc = m.pc + pos_part d - neg_part d })
    else fault
