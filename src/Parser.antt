-- ===== src/Parser.antt =====
-- The reads of the class file parser (constantpool.c): big-endian numbers at the front of the bytes
-- that are left. A parser is `failed` where the source returns NULL, and `undefined` where it has
-- undefined behaviour, such as a read behind the end of the file.
pub mod Reads
pub mod Gives
pub mod Shrinks
pub mod Pool
pub mod Attributes
pub mod Class
use cs_562_jvm.Base.{ℕ, ◌+◌, ◌*◌, ◌^◌, suc, zero, Bool, List, [], ◌∷◌, if◌then◌else◌}

pub data Outcome {ℓ} (A : Type ℓ) : Type ℓ where
  done : A → List ℕ → Outcome A
  failed : Outcome A
  undefined : Outcome A

-- The argument is the list of the bytes from classData on.
abbrev pub Parser {ℓ} : Type ℓ → Type ℓ
Parser A = List ℕ → Outcome A

abbrev pub pure {ℓ} : {A : Type ℓ} → A → Parser A
pure = done

abbrev pub and_then {ℓ κ} : {A : Type ℓ} {B : Type κ} → Outcome A → (A → Parser B) → Outcome B
and_then (done a bytes) k = k a bytes
and_then failed k = failed
and_then undefined k = undefined

infixl 5 ◌>>=◌ ◌>>◌
abbrev pub ◌>>=◌ {ℓ κ} : {A : Type ℓ} {B : Type κ} → Parser A → (A → Parser B) → Parser B
p >>= k = λ bytes. and_then (p bytes) k

abbrev pub ◌>>◌ {ℓ κ} : {A : Type ℓ} {B : Type κ} → Parser A → Parser B → Parser B
p >> k = p >>= λ _. k

abbrev pub fail {ℓ} : {A : Type ℓ} → Parser A
fail bytes = failed

abbrev pub stray {ℓ} : {A : Type ℓ} → Parser A
stray bytes = undefined

-- `if(!malloc(…)) return NULL`, where the call succeeds if `b`
abbrev pub need : Bool → Parser (Unit {0})
need b = if b then pure tt else fail

abbrev pub readu1 : Parser ℕ
readu1 [] = undefined
readu1 (b ∷ bytes) = done b bytes

unfoldable pub readu2 : Parser ℕ
readu2 = do b0 ← readu1; b1 ← readu1; pure (b0 * 2 ^ 8 + b1)

unfoldable pub readu4 : Parser ℕ
readu4 = do
  b0 ← readu1
  b1 ← readu1
  b2 ← readu1
  b3 ← readu1
  pure (((b0 * 2 ^ 8 + b1) * 2 ^ 8 + b2) * 2 ^ 8 + b3)

unfoldable pub readu8 : Parser ℕ
readu8 = do
  b0 ← readu1
  b1 ← readu1
  b2 ← readu1
  b3 ← readu1
  b4 ← readu1
  b5 ← readu1
  b6 ← readu1
  b7 ← readu1
  pure (
      ((((((b0 * 2 ^ 8 + b1) * 2 ^ 8 + b2) * 2 ^ 8 + b3) * 2 ^ 8 + b4) * 2 ^ 8 + b5) * 2 ^ 8 + b6)
        * 2 ^ 8
      + b7)

-- memcpy of `n` bytes, and the advance over them
abbrev pub read_bytes : ℕ → Parser (List ℕ)
read_bytes zero = pure []
read_bytes (suc n) = do b ← readu1; bs ← read_bytes n; pure (b ∷ bs)
