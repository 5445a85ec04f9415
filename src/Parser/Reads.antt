-- ===== src/Parser/Reads.antt =====
-- Big-endian writers, and that the reads of constantpool.c undo them.
use cs_562_jvm.Base.{ℕ, ◌/◌, ◌%◌, ◌^◌, List, [], ◌∷◌, ◌++◌, ◌≡◌, refl, length, ap, arith, suc, zero}
use cs_562_jvm.Parser.{readu2, readu4, readu8, read_bytes, done}

abbrev pub put2 : ℕ → List ℕ → List ℕ
put2 n bytes = n / 2 ^ 8 ∷ n % 2 ^ 8 ∷ bytes

abbrev pub put4 : ℕ → List ℕ → List ℕ
put4 n bytes = put2 (n / 2 ^ 16) (put2 (n % 2 ^ 16) bytes)

abbrev pub put8 : ℕ → List ℕ → List ℕ
put8 n bytes = put4 (n / 2 ^ 32) (put4 (n % 2 ^ 32) bytes)

pub readu2-put2 : (n : ℕ) (bytes : List ℕ) → readu2 (put2 n bytes) ≡ done n bytes
unfolding readu2
readu2-put2 n bytes = ap (λ v. done v bytes) (omega arith)

pub readu4-put4 : (n : ℕ) (bytes : List ℕ) → readu4 (put4 n bytes) ≡ done n bytes
unfolding readu4
readu4-put4 n bytes = ap (λ v. done v bytes) (omega arith)

pub readu8-put8 : (n : ℕ) (bytes : List ℕ) → readu8 (put8 n bytes) ≡ done n bytes
unfolding readu8
readu8-put8 n bytes = ap (λ v. done v bytes) (omega arith)

pub read_bytes-append :
    (bs bytes : List ℕ) (n : ℕ) → length bs ≡ n → read_bytes n (bs ++ bytes) ≡ done bs bytes
read_bytes-append [] bytes zero h = refl
read_bytes-append (b ∷ bs) bytes (suc n) h =
    rw (read_bytes-append bs bytes n (omega (arith, h))) refl
read_bytes-append [] bytes (suc n) h = absurd (omega (arith, h))
read_bytes-append (b ∷ bs) bytes zero h = absurd (omega (arith, h))
