-- ===== src/Parser/Attributes/Depth.antt =====
-- How deep parseAttributes recurs: the bytes bound it.
use cs_562_jvm.Parser.Attributes.{
  read_handlers, lift, Attributes, read_handler, parse_code, parse_named, same, constant_value_name,
  code_name, sizeof_pointer, Attribute, parse_skipped, constant_value_attribute, parse_attribute,
  attributes_loop, attributes_within, parse_attributes, signature_name, name_at,
  signature_attribute,
}
use cs_562_jvm.Base.{
  ℕ, suc, zero, Bool, length, ◌<◌, ◌≤◌, ◌≡◌, refl, List, Option, none, some, Bool-cases, arith, inl,
  inr, ◌*◌,
}
use cs_562_jvm.Classfile.{Name}
use cs_562_jvm.Parser.{Parser, readu2, ◌>>◌, need, ◌>>=◌, pure, stray}
use cs_562_jvm.Parser.Gives.{Gives, at_done, at_undefined, and_then-Gives, need-Gives, weaken-Gives}
use cs_562_jvm.Parser.Shrinks.{
  AtMost, Below, readu2-Below, readu4-Below, read_bytes-AtMost, and_then_same, need_same,
}
use cs_562_jvm.Parser.Pool.{ConstantPool}

pub read_handlers-AtMost :
    (n : ℕ) (bytes : List ℕ) → Gives (AtMost (length bytes)) (read_handlers n bytes)
unfolding read_handlers read_handler
read_handlers-AtMost zero bytes = at_done (omega arith)
read_handlers-AtMost (suc n) bytes =
    and_then-Gives
      (and_then-Gives (readu2-Below bytes) (λ a bytes1 h1.
        and_then-Gives (readu2-Below bytes1) (λ b bytes2 h2.
          and_then-Gives (readu2-Below bytes2) (λ c bytes3 h3.
            and_then-Gives {Q = Below (length bytes)} (readu2-Below bytes3)
              (λ d bytes4 h4. at_done (omega (arith, h1, h2, h3, h4)))))))
      (λ h rest p.
        and_then-Gives (read_handlers-AtMost n rest) (λ hs rest' q. at_done (omega (arith, p, q))))

lift-AtMost {ℓ} :
    {A : Type ℓ} (o : Option A) (bytes : List ℕ) → Gives (AtMost (length bytes)) (lift o bytes)
lift-AtMost none bytes = at_undefined
lift-AtMost (some a) bytes = at_done (omega arith)

-- two parsers that agree on fewer than `n` bytes
abbrev pub Agree {ℓ} : {A : Type ℓ} → ℕ → (ℕ → Parser A) → (ℕ → Parser A) → Type ℓ
Agree n p q = (k : ℕ) (bytes : List ℕ) → length bytes < n → p k bytes ≡ q k bytes

-- a parser that leaves no more bytes than it is given
abbrev pub Shrinks {ℓ} : {A : Type ℓ} → (ℕ → Parser A) → Type ℓ
Shrinks p = (k : ℕ) (bytes : List ℕ) → Gives (AtMost (length bytes)) (p k bytes)

module _ (mallocs : ℕ → Bool) (p : ℕ → Parser Attributes) where
  code-AtMost :
      (name : Name) (bytes : List ℕ)
      → Shrinks p
      → Gives (AtMost (length bytes)) (parse_code mallocs p name bytes)
  unfolding parse_code
  code-AtMost name bytes s = need-Gives (mallocs 56) _ bytes (
      and_then-Gives (readu2-Below bytes) (λ a bytes1 h1.
        and_then-Gives (readu2-Below bytes1) (λ b bytes2 h2.
          and_then-Gives (readu4-Below bytes2) (λ c bytes3 h3. need-Gives (mallocs c) _ bytes3 (
            and_then-Gives (read_bytes-AtMost c bytes3) (λ d bytes4 h4.
              and_then-Gives (readu2-Below bytes4) (λ e bytes5 h5.
                need-Gives (mallocs (8 * e)) _ bytes5 (
                  and_then-Gives (read_handlers-AtMost e bytes5) (λ f bytes6 h6.
                    and_then-Gives (readu2-Below bytes6) (λ g bytes7 h7.
                      need-Gives (mallocs (sizeof_pointer * g)) _ bytes7 (
                        and_then-Gives (s g bytes7) (λ h bytes8 h8.
                          at_done (omega (arith, h1, h2, h3, h4, h5, h6, h7, h8))))))))))))))

  code_same :
      (q : ℕ → Parser Attributes) (n : ℕ) (name : Name) (bytes : List ℕ)
      → Agree n p q
      → length bytes ≤ n
      → parse_code mallocs p name bytes ≡ parse_code mallocs q name bytes
  unfolding parse_code
  code_same q n name bytes s l = need_same (mallocs 56) _ _ bytes (
      and_then_same (readu2-Below bytes) (λ a bytes1 h1.
        and_then_same (readu2-Below bytes1) (λ b bytes2 h2.
          and_then_same (readu4-Below bytes2) (λ c bytes3 h3. need_same (mallocs c) _ _ bytes3 (
            and_then_same (read_bytes-AtMost c bytes3) (λ d bytes4 h4.
              and_then_same (readu2-Below bytes4) (λ e bytes5 h5.
                need_same (mallocs (8 * e)) _ _ bytes5 (
                  and_then_same (read_handlers-AtMost e bytes5) (λ f bytes6 h6.
                    and_then_same (readu2-Below bytes6) (λ g bytes7 h7.
                      need_same (mallocs (sizeof_pointer * g)) _ _ bytes7 (
                        rw (s g bytes7 (omega (arith, l, h1, h2, h3, h4, h5, h6, h7)))
                          refl)))))))))))

  constant_index-AtMost :
      (attribute : ℕ → Attribute) (bytes : List ℕ)
      → Gives
          (AtMost (length bytes))
          ((do need (mallocs 16); index ← readu2; pure (attribute index)) bytes)
  constant_index-AtMost attribute bytes =
      need-Gives (mallocs 16) _ bytes
        (and_then-Gives (readu2-Below bytes) (λ a rest h. at_done (omega (arith, h))))

  skipped-AtMost :
      (n : ℕ) (name : Name) (bytes : List ℕ)
      → Gives (AtMost (length bytes)) (parse_skipped mallocs n name bytes)
  skipped-AtMost n name bytes =
      need-Gives (mallocs 8) _ bytes
        (and_then-Gives (read_bytes-AtMost n bytes) (λ a rest h. at_done h))

  named-AtMost :
      (n : ℕ) (name : Name) (bytes : List ℕ)
      → Shrinks p
      → Gives (AtMost (length bytes)) (parse_named mallocs p n name bytes)
  named-AtMost n name bytes s = elim (Bool-cases (same name constant_value_name)) [
    | inl t ↦ rw (t) (constant_index-AtMost (constant_value_attribute name) bytes)
    | inr f ↦ elim (Bool-cases (same name code_name)) [
      | inl t ↦ rw (f, t) (code-AtMost name bytes s)
      | inr g ↦ elim (Bool-cases (same name signature_name)) [
        | inl t ↦ rw (f, g, t) (constant_index-AtMost (signature_attribute name) bytes)
        | inr h ↦ rw (f, g, h) (skipped-AtMost n name bytes)
      ]
    ]
  ]

  named_same :
      (q : ℕ → Parser Attributes) (n k : ℕ) (name : Name) (bytes : List ℕ)
      → Agree n p q
      → length bytes ≤ n
      → parse_named mallocs p k name bytes ≡ parse_named mallocs q k name bytes
  named_same q n k name bytes s l = elim (Bool-cases (same name constant_value_name)) [
    | inl t ↦ rw (t) refl
    | inr f ↦ elim (Bool-cases (same name code_name)) [
      | inl t ↦ rw (f, t) (code_same q n name bytes s l)
      | inr g ↦ rw (f, g) refl
    ]
  ]

module _ (mallocs : ℕ → Bool) (pool : ConstantPool) where
  attribute-Below :
      (p : ℕ → Parser Attributes) (bytes : List ℕ)
      → Shrinks p
      → Gives (Below (length bytes)) (parse_attribute mallocs pool p bytes)
  unfolding parse_attribute
  attribute-Below p bytes s = and_then-Gives (readu2-Below bytes) (λ index bytes1 h1.
      and_then-Gives (lift-AtMost (name_at pool index) bytes1) (λ name bytes2 h2.
        and_then-Gives (readu4-Below bytes2) (λ n bytes3 h3.
          weaken-Gives (named-AtMost mallocs p n name bytes3 s)
            (λ a rest h. omega (arith, h, h1, h2, h3)))))

  attribute_same :
      (p q : ℕ → Parser Attributes) (n : ℕ) (bytes : List ℕ)
      → Agree n p q
      → length bytes ≤ n
      → parse_attribute mallocs pool p bytes ≡ parse_attribute mallocs pool q bytes
  unfolding parse_attribute
  attribute_same p q n bytes s l = and_then_same (readu2-Below bytes) (λ index bytes1 h1.
      and_then_same (lift-AtMost (name_at pool index) bytes1) (λ name bytes2 h2.
        and_then_same (readu4-Below bytes2)
          (λ k bytes3 h3. named_same mallocs p q n k name bytes3 s (omega (arith, l, h1, h2, h3)))))

  loop-AtMost :
      (p : ℕ → Parser Attributes) (n : ℕ) (bytes : List ℕ)
      → Shrinks p
      → Gives (AtMost (length bytes)) (attributes_loop mallocs pool p n bytes)
  unfolding attributes_loop
  loop-AtMost p zero bytes s = at_done (omega arith)
  loop-AtMost p (suc n) bytes s = and_then-Gives (attribute-Below p bytes s) (λ a bytes1 h1.
      and_then-Gives (loop-AtMost p n bytes1 s) (λ rest' rest h. at_done (omega (arith, h, h1))))

  loop_same :
      (p q : ℕ → Parser Attributes) (n k : ℕ) (bytes : List ℕ)
      → Agree n p q
      → Shrinks q
      → length bytes ≤ n
      → attributes_loop mallocs pool p k bytes ≡ attributes_loop mallocs pool q k bytes
  unfolding attributes_loop
  loop_same p q n zero bytes s t l = refl
  loop_same p q n (suc k) bytes s t l = rw (attribute_same p q n bytes s l) (
      and_then_same (attribute-Below q bytes t)
        (λ a bytes1 h1. rw (loop_same p q n k bytes1 s t (omega (arith, l, h1))) refl))

  within-Shrinks :
      (cut : ℕ → Parser Attributes) (depth : ℕ)
      → Shrinks cut
      → Shrinks (attributes_within mallocs pool cut depth)
  unfolding attributes_within
  within-Shrinks cut zero s n bytes = s n bytes
  within-Shrinks cut (suc depth) s n bytes =
      loop-AtMost (attributes_within mallocs pool cut depth) n bytes (within-Shrinks cut depth s)

  within_same :
      (cut other : ℕ → Parser Attributes) (d e n : ℕ) (bytes : List ℕ)
      → Shrinks other
      → length bytes < d
      → length bytes < e
      → attributes_within mallocs pool cut d n bytes
        ≡ attributes_within mallocs pool other e n bytes
  unfolding attributes_within
  within_same cut other (suc d) (suc e) n bytes s h l =
      loop_same (attributes_within mallocs pool cut d) (attributes_within mallocs pool other e)
        (length bytes) n bytes
        (λ k rest r. within_same cut other d e k rest s (omega (arith, h, r)) (omega (arith, l, r)))
        (within-Shrinks other e s) (omega arith)
  within_same cut other zero e n bytes s h l = absurd (omega (arith, h))
  within_same cut other (suc d) zero n bytes s h l = absurd (omega (arith, l))

  -- With a bound on the recursion of parseAttributes above the number of bytes, it does not matter what
  -- a call at the bound would do, be it an error, a success or a loss of all bytes: the result is that of
  -- parseAttributes. So no call is nested that deep, and the recursion ends on every class file.
  pub parse_attributes-deeper :
      (cut : ℕ → Parser Attributes) (n depth : ℕ) (bytes : List ℕ)
      → length bytes < depth
      → attributes_within mallocs pool cut depth n bytes ≡ parse_attributes mallocs pool n bytes
  unfolding parse_attributes
  parse_attributes-deeper cut n depth bytes h =
      within_same cut (λ k. stray) depth (suc (length bytes)) n bytes (λ k rest. at_undefined) h
        (omega arith)
