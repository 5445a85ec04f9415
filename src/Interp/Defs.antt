-- ===== src/Interp/Defs.antt =====
-- The type of instruction handlers, and the shapes that many handlers share.
use cs_562_jvm.Base.{ℕ, Bool, ℤ, pos}
use cs_562_jvm.Machine.{M, pure, ◌>>=◌, ◌>>◌, pop, pop2, push, push2}
use Prim.Native.String.{String}

-- an entry of instr_table
abbrev pub Handler : Type 0
Handler = Bool → M ℤ

-- throwException(interpreter, exceptionClassName, exceptionMessage). It loads and initialises the
-- exception's class and allocates the object; here it is whatever the caller of the model supplies.
abbrev pub Throw : Type 0
Throw = String → String → M (Unit {0})

-- `return n`
abbrev pub advance : ℕ → M ℤ
advance n = pure (pos n)

-- pop `top` and `next`, push `op next top`
abbrev pub binary : (ℕ → ℕ → ℕ) → ℕ → Handler
binary op t wide = do top ← pop; next ← pop; push (op next top) t; advance 1

abbrev pub binary2 : (ℕ → ℕ → ℕ) → ℕ → Handler
binary2 op t wide = do top ← pop2; next ← pop2; push2 (op next top) t; advance 1

abbrev pub unary : (ℕ → ℕ) → ℕ → Handler
unary op t wide = do top ← pop; push (op top) t; advance 1

abbrev pub unary2 : (ℕ → ℕ) → ℕ → Handler
unary2 op t wide = do top ← pop2; push2 (op top) t; advance 1
