-- ===== src/Heap/Objects/Headers.antt =====
-- The bytes of the header of a new object (mm.c: newObject).
use cs_562_jvm.Heap.Objects.{write_bytes, put_header}
use cs_562_jvm.Base.{
  ℕ, suc, zero, ◌+◌, ◌*◌, ◌/◌, ◌%◌, ◌^◌, ◌≤◌, ◌<◌, ◌≡◌, ◌⊎◌, inl, refl, ◌∙◌, ◌==◌, true, false,
  arith,
}

-- the number in the `n` bytes from `a` on, the lowest first
abbrev pub number_at : (ℕ → ℕ) → ℕ → ℕ → ℕ
number_at memory a zero = 0
number_at memory a (suc n) = memory a + 2 ^ 8 * number_at memory (a + 1) n

-- the `n` lowest bytes of `v`
abbrev low_bytes : ℕ → ℕ → ℕ
low_bytes zero v = 0
low_bytes (suc n) v = v % 2 ^ 8 + 2 ^ 8 * low_bytes n (v / 2 ^ 8)

pub write_bytes_other :
    (a n v : ℕ) (memory : ℕ → ℕ) (b : ℕ)
    → (b < a) ⊎ (a + n ≤ b)
    → write_bytes a n v memory b ≡ memory b
write_bytes_other a zero v memory b h = refl
write_bytes_other a (suc n) v memory b h =
    let ne : (b == a) ≡ false = ground arith in
    rw ne (write_bytes_other (a + 1) n (v / 2 ^ 8) memory b (ground arith))

-- A number depends on its bytes.
number_at_same :
    (f g : ℕ → ℕ) (a n : ℕ)
    → ((b : ℕ) → a ≤ b → b < a + n → f b ≡ g b)
    → number_at f a n ≡ number_at g a n
number_at_same f g a zero h = refl
number_at_same f g a (suc n) h =
    rw
      (
        h a (omega arith) (omega arith),
        number_at_same f g (a + 1) n λ b p q. h b (omega arith) (omega arith),
      )
      refl

number_at-write_bytes :
    (a n v : ℕ) (memory : ℕ → ℕ) → number_at (write_bytes a n v memory) a n ≡ low_bytes n v
number_at-write_bytes a zero v memory = refl
number_at-write_bytes a (suc n) v memory =
    let first : (a == a) ≡ true = ground arith in
    let rest : number_at (write_bytes a (suc n) v memory) (a + 1) n
        ≡ number_at (write_bytes (a + 1) n (v / 2 ^ 8) memory) (a + 1) n =
      number_at_same _ _ (a + 1) n
        λ b p q. let ne : (b == a) ≡ false = ground arith in rw ne refl in
    rw (first, rest, number_at-write_bytes (a + 1) n (v / 2 ^ 8) memory) refl

low4 : (v : ℕ) → low_bytes 4 v ≡ v % 2 ^ 32
low4 v = omega arith

low8 : (v : ℕ) → low_bytes 8 v ≡ v % 2 ^ 64
low8 v = omega arith

module _ (lock_size lock_bits class slot a : ℕ) (memory : ℕ → ℕ) where
  pub put_header-slot :
      number_at (put_header lock_size lock_bits class slot a memory) (a + 8 + lock_size) 4
      ≡ slot % 2 ^ 32
  put_header-slot =
      number_at-write_bytes (a + 8 + lock_size) 4 slot
        (write_bytes (a + 8) lock_size lock_bits (write_bytes a 8 class memory))
      ∙ low4 slot

  pub put_header-class :
      number_at (put_header lock_size lock_bits class slot a memory) a 8 ≡ class % 2 ^ 64
  put_header-class =
      number_at_same (put_header lock_size lock_bits class slot a memory)
        (write_bytes a 8 class memory) a 8
        (λ b p q.
          write_bytes_other (a + 8 + lock_size) 4 slot
            (write_bytes (a + 8) lock_size lock_bits (write_bytes a 8 class memory)) b
            (inl (omega arith))
          ∙ write_bytes_other (a + 8) lock_size lock_bits (write_bytes a 8 class memory) b
              (inl (omega arith)))
      ∙ number_at-write_bytes a 8 class memory
      ∙ low8 class

  -- the bytes that are not in the header
  pub put_header_other :
      (b : ℕ)
      → (b < a) ⊎ (a + 12 + lock_size ≤ b)
      → put_header lock_size lock_bits class slot a memory b ≡ memory b
  put_header_other b h =
      write_bytes_other (a + 8 + lock_size) 4 slot
        (write_bytes (a + 8) lock_size lock_bits (write_bytes a 8 class memory)) b (ground arith)
      ∙ write_bytes_other (a + 8) lock_size lock_bits (write_bytes a 8 class memory) b
          (ground arith)
      ∙ write_bytes_other a 8 class memory b (ground arith)
