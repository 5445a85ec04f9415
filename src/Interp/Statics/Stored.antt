-- ===== src/Interp/Statics/Stored.antt =====
-- What putstatic leaves for getstatic (bytecode_interpreter.c).
use cs_562_jvm.Base.{
  ℕ, suc, zero, ◌+◌, ◌*◌, ◌/◌, ◌%◌, ◌^◌, ◌≤◌, ◌<◌, ◌≡◌, ◌⊎◌, inl, refl, ◌∙◌, List, length,
  get_elem?, set, some, length-set, get_elem?-set_self, get_elem?-set_ne, arith,
}
use cs_562_jvm.Interp.Statics.{read_data, put_data}
use cs_562_jvm.Interp.Statics.{read_data, put_data}

-- the numbers from `i` on, `n` of them, and from `j` on, `k` of them, have none in common
abbrev pub Disjoint : ℕ → ℕ → ℕ → ℕ → Type 0
Disjoint i n j k = (i + n ≤ j) ⊎ (j + k ≤ i)

get_elem?-put_data :
    (bytes : List ℕ) (i n v j : ℕ)
    → (j < i) ⊎ (i + n ≤ j)
    → get_elem? (put_data bytes i n v) j ≡ get_elem? bytes j
unfolding put_data
get_elem?-put_data bytes i zero v j h = refl
get_elem?-put_data bytes i (suc n) v j h =
    get_elem?-put_data (set bytes i (v % 2 ^ 8)) (i + 1) n (v / 2 ^ 8) j (ground arith)
    ∙ get_elem?-set_ne bytes i j (v % 2 ^ 8) (ground arith)

-- A read depends on the bytes that it covers.
read_data-same :
    (bytes other : List ℕ) (i n : ℕ)
    → ((j : ℕ) → i ≤ j → j < i + n → get_elem? bytes j ≡ get_elem? other j)
    → read_data bytes i n ≡ read_data other i n
unfolding read_data
read_data-same bytes other i zero h = refl
read_data-same bytes other i (suc n) h = rw (
  h i (omega arith) (omega arith),
  read_data-same bytes other (i + 1) n λ j a b. h j (omega arith) (omega arith),
)

pub read_data-apart :
    (bytes : List ℕ) (i n v j k : ℕ)
    → Disjoint i n j k
    → read_data (put_data bytes i n v) j k ≡ read_data bytes j k
read_data-apart bytes i n v j k h =
    read_data-same (put_data bytes i n v) bytes j k
      λ l a b. get_elem?-put_data bytes i n v l (ground arith)

-- the `n` lowest bytes of `v`
abbrev pub low_bytes : ℕ → ℕ → ℕ
low_bytes zero v = 0
low_bytes (suc n) v = v % 2 ^ 8 + 2 ^ 8 * low_bytes n (v / 2 ^ 8)

pub length-put_data : (bytes : List ℕ) (i n v : ℕ) → length (put_data bytes i n v) ≡ length bytes
unfolding put_data
length-put_data bytes i zero v = refl
length-put_data bytes i (suc n) v =
    length-put_data (set bytes i (v % 2 ^ 8)) (i + 1) n (v / 2 ^ 8) ∙ length-set bytes i (v % 2 ^ 8)

pub read_data-put_data :
    (bytes : List ℕ) (i n v : ℕ)
    → i + n ≤ length bytes
    → read_data (put_data bytes i n v) i n ≡ some (low_bytes n v)
unfolding read_data put_data
read_data-put_data bytes i zero v h = refl
read_data-put_data bytes i (suc n) v h =
    let first : get_elem? (put_data bytes i (suc n) v) i ≡ some (v % 2 ^ 8) =
      get_elem?-put_data (set bytes i (v % 2 ^ 8)) (i + 1) n (v / 2 ^ 8) i (inl (omega arith))
      ∙ get_elem?-set_self bytes i (v % 2 ^ 8) (omega arith) in
    let rest : read_data (put_data bytes i (suc n) v) (i + 1) n ≡ some (low_bytes n (v / 2 ^ 8)) =
      read_data-put_data (set bytes i (v % 2 ^ 8)) (i + 1) n (v / 2 ^ 8)
        (omega (arith, length-set bytes i (v % 2 ^ 8))) in
    rw (first, rest)

pub low2 : (v : ℕ) → low_bytes 2 v ≡ v % 2 ^ 16
low2 v = omega arith

pub low4 : (v : ℕ) → low_bytes 4 v ≡ v % 2 ^ 32
low4 v = omega arith
