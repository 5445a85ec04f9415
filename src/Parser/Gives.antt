-- ===== src/Parser/Gives.antt =====
-- What a successful run of a parser says of the bytes it was given: rules for the reads.
use mathlib.Core.Path.{subst}
use cs_562_jvm.Base.{
  ℕ, ◌<◌, ◌^◌, List, [], ◌∷◌, ◌≡◌, refl, All, suc, zero, length, ◌++◌, ap, Bool, true, false, arith,
  ◌*◌, sym, ◌+◌, ◌/◌, ◌∙◌, ◌%◌,
}
use cs_562_jvm.Parser.{
  pure, ◌>>=◌, Outcome, Parser, done, failed, undefined, and_then, readu1, readu2, readu4,
  read_bytes, need, readu8, ◌>>◌,
}
use cs_562_jvm.Parser.Reads.{put2, put4, put8}

abbrev pub Bytes : List ℕ → Type 0
Bytes = All (λ b. b < 2 ^ 8)

-- the value and the bytes left satisfy `P`, if there are any
pub data Gives {ℓ κ} {A : Type ℓ} (P : A → List ℕ → Type κ) : Outcome A → Type (ℓ ⊔ κ) where
  at_done : {a : A} {bytes : List ℕ} → P a bytes → Gives P (done a bytes)
  at_failed : Gives P failed
  at_undefined : Gives P undefined

pub given {ℓ κ} :
    {A : Type ℓ} {P : A → List ℕ → Type κ} {a : A} {bytes : List ℕ}
    → Gives P (done a bytes)
    → P a bytes
given (at_done p) = p

pub and_then-Gives {ℓ κ μ ν} :
    {A : Type ℓ} {B : Type κ} {P : A → List ℕ → Type μ} {Q : B → List ℕ → Type ν} {o : Outcome A}
    {k : A → Parser B}
    → Gives P o
    → ((a : A) (bytes : List ℕ) → P a bytes → Gives Q (k a bytes))
    → Gives Q (and_then o k)
and_then-Gives (at_done p) f = f _ _ p
and_then-Gives at_failed f = at_failed
and_then-Gives at_undefined f = at_undefined

pub weaken-Gives {ℓ κ μ} :
    {A : Type ℓ} {P : A → List ℕ → Type κ} {Q : A → List ℕ → Type μ} {o : Outcome A}
    → Gives P o
    → ((a : A) (bytes : List ℕ) → P a bytes → Q a bytes)
    → Gives Q o
weaken-Gives (at_done p) f = at_done (f _ _ p)
weaken-Gives at_failed f = at_failed
weaken-Gives at_undefined f = at_undefined

cons_cong : {a b : ℕ} {xs ys : List ℕ} → a ≡ b → xs ≡ ys → (a ∷ xs) ≡ (b ∷ ys)
cons_cong h e = cc

-- The bytes read are the big-endian form of the number read.
pub readu1-Gives :
    (bytes : List ℕ)
    → Bytes bytes
    → Gives (λ n rest. (bytes ≡ n ∷ rest) × (n < 2 ^ 8) × Bytes rest) (readu1 bytes)
readu1-Gives [] h = at_undefined
readu1-Gives (b ∷ bytes) h = at_done (refl, h.0, h.1)

pub readu2-Gives :
    (bytes : List ℕ)
    → Bytes bytes
    → Gives (λ n rest. (bytes ≡ put2 n rest) × (n < 2 ^ 16) × Bytes rest) (readu2 bytes)
unfolding readu2
readu2-Gives [] h = at_undefined
readu2-Gives (b ∷ []) h = at_undefined
readu2-Gives (b0 ∷ b1 ∷ bytes) h = at_done (
  cons_cong (omega (arith, h.0, h.1.0)) (cons_cong (omega (arith, h.1.0)) refl),
  omega (arith, h.0, h.1.0),
  h.1.1,
)

pub readu4-Gives :
    (bytes : List ℕ)
    → Bytes bytes
    → Gives (λ n rest. (bytes ≡ put4 n rest) × (n < 2 ^ 32) × Bytes rest) (readu4 bytes)
unfolding readu4
readu4-Gives [] h = at_undefined
readu4-Gives (b ∷ []) h = at_undefined
readu4-Gives (b ∷ b1 ∷ []) h = at_undefined
readu4-Gives (b ∷ b1 ∷ b2 ∷ []) h = at_undefined
readu4-Gives (b0 ∷ b1 ∷ b2 ∷ b3 ∷ bytes) h = at_done (
  cons_cong (omega (arith, h.0, h.1.0, h.1.1.0, h.1.1.1.0)) (
      cons_cong (omega (arith, h.1.0, h.1.1.0, h.1.1.1.0)) (
        cons_cong (omega (arith, h.1.1.0, h.1.1.1.0)) (cons_cong (omega (arith, h.1.1.1.0)) refl))),
  omega (arith, h.0, h.1.0, h.1.1.0, h.1.1.1.0),
  h.1.1.1.1,
)

readu8_halves :
    (bytes : List ℕ) → readu8 bytes ≡ (do hi ← readu4; lo ← readu4; pure (hi * 2 ^ 32 + lo)) bytes
unfolding readu8 readu4
readu8_halves ([]) = refl
readu8_halves (b0 ∷ []) = refl
readu8_halves (b0 ∷ b1 ∷ []) = refl
readu8_halves (b0 ∷ b1 ∷ b2 ∷ []) = refl
readu8_halves (b0 ∷ b1 ∷ b2 ∷ b3 ∷ []) = refl
readu8_halves (b0 ∷ b1 ∷ b2 ∷ b3 ∷ b4 ∷ []) = refl
readu8_halves (b0 ∷ b1 ∷ b2 ∷ b3 ∷ b4 ∷ b5 ∷ []) = refl
readu8_halves (b0 ∷ b1 ∷ b2 ∷ b3 ∷ b4 ∷ b5 ∷ b6 ∷ []) = refl
readu8_halves (b0 ∷ b1 ∷ b2 ∷ b3 ∷ b4 ∷ b5 ∷ b6 ∷ b7 ∷ bytes) = ap (λ v. done v bytes) (omega arith)

put8_halves :
    (hi lo : ℕ) (bytes : List ℕ)
    → lo < 2 ^ 32
    → put8 (hi * 2 ^ 32 + lo) bytes ≡ put4 hi (put4 lo bytes)
put8_halves hi lo bytes h =
    let e : (hi * 2 ^ 32 + lo) / 2 ^ 32 ≡ hi = omega (arith, h) in
    let f : (hi * 2 ^ 32 + lo) % 2 ^ 32 ≡ lo = omega (arith, h) in
    ap (λ v. put4 v (put4 ((hi * 2 ^ 32 + lo) % 2 ^ 32) bytes)) e
    ∙ ap (λ v. put4 hi (put4 v bytes)) f

pub readu8-Gives :
    (bytes : List ℕ)
    → Bytes bytes
    → Gives (λ n rest. (bytes ≡ put8 n rest) × (n < 2 ^ 64) × Bytes rest) (readu8 bytes)
readu8-Gives bytes h = subst (Gives _) (sym (readu8_halves bytes)) (
    and_then-Gives (readu4-Gives bytes h) (λ hi bytes1 p.
      and_then-Gives (readu4-Gives bytes1 p.2) (λ lo rest q.
        at_done (
          p.0 ∙ ap (put4 hi) q.0 ∙ sym (put8_halves hi lo rest q.1),
          omega (arith, p.1, q.1),
          q.2,
        ))))

pub read_bytes-Gives :
    (n : ℕ) (bytes : List ℕ)
    → Bytes bytes
    → Gives (λ bs rest. (bytes ≡ bs ++ rest) × (length bs ≡ n) × Bytes rest) (read_bytes n bytes)
read_bytes-Gives zero bytes h = at_done (refl, refl, h)
read_bytes-Gives (suc n) [] h = at_undefined
read_bytes-Gives (suc n) (b ∷ bytes) h =
    and_then-Gives (read_bytes-Gives n bytes h.1)
      (λ bs rest p. at_done (cons_cong refl p.0, ap suc p.1, p.2))

-- past a call of malloc
pub need-Gives {ℓ κ} :
    {A : Type ℓ} {P : A → List ℕ → Type κ} (b : Bool) (k : Parser A) (bytes : List ℕ)
    → Gives P (k bytes)
    → Gives P ((need b >> k) bytes)
need-Gives true k bytes h = h
need-Gives false k bytes h = at_failed
