-- ===== src/Parser/Shrinks.antt =====
-- The reads of constantpool.c and attributes.c leave fewer bytes, and programs that agree on fewer
-- bytes agree behind them.
use cs_562_jvm.Base.{
  ℕ, suc, zero, Bool, true, false, length, ◌<◌, ◌≤◌, ◌≡◌, refl, List, [], ◌∷◌, arith,
}
use cs_562_jvm.Parser.{Outcome, Parser, and_then, readu2, readu4, read_bytes, need, ◌>>◌}
use cs_562_jvm.Parser.Gives.{Gives, at_done, at_failed, at_undefined, and_then-Gives}

-- no more than `n` bytes are left
abbrev pub AtMost {ℓ} : {A : Type ℓ} → ℕ → A → List ℕ → Type 0
AtMost n a rest = length rest ≤ n

-- fewer than `n` bytes are left
abbrev pub Below {ℓ} : {A : Type ℓ} → ℕ → A → List ℕ → Type 0
Below n a rest = length rest < n

pub readu2-Below : (bytes : List ℕ) → Gives (Below (length bytes)) (readu2 bytes)
unfolding readu2
readu2-Below [] = at_undefined
readu2-Below (b ∷ []) = at_undefined
readu2-Below (b ∷ b1 ∷ bytes) = at_done (omega arith)

pub readu4-Below : (bytes : List ℕ) → Gives (Below (length bytes)) (readu4 bytes)
unfolding readu4
readu4-Below [] = at_undefined
readu4-Below (b ∷ []) = at_undefined
readu4-Below (b ∷ b1 ∷ []) = at_undefined
readu4-Below (b ∷ b1 ∷ b2 ∷ []) = at_undefined
readu4-Below (b ∷ b1 ∷ b2 ∷ b3 ∷ bytes) = at_done (omega arith)

pub read_bytes-AtMost :
    (n : ℕ) (bytes : List ℕ) → Gives (AtMost (length bytes)) (read_bytes n bytes)
read_bytes-AtMost zero bytes = at_done (omega arith)
read_bytes-AtMost (suc n) [] = at_undefined
read_bytes-AtMost (suc n) (b ∷ bytes) =
    and_then-Gives (read_bytes-AtMost n bytes) (λ bs rest h. at_done (omega (arith, h)))

pub and_then_same {ℓ κ μ} :
    {A : Type ℓ} {B : Type κ} {P : A → List ℕ → Type μ} {o : Outcome A} {k l : A → Parser B}
    → Gives P o
    → ((a : A) (bytes : List ℕ) → P a bytes → k a bytes ≡ l a bytes)
    → and_then o k ≡ and_then o l
and_then_same (at_done p) f = f _ _ p
and_then_same at_failed f = refl
and_then_same at_undefined f = refl

pub need_same {ℓ} :
    {A : Type ℓ} (b : Bool) (k l : Parser A) (bytes : List ℕ)
    → k bytes ≡ l bytes
    → (need b >> k) bytes ≡ (need b >> l) bytes
need_same true k l bytes e = e
need_same false k l bytes e = refl
