-- ===== src/Indirection/Rebuild/Trimmed.antt =====
-- Where rebuildFreeList ends the table.
use mathlib.Core.Bool.{true≢false}
use mathlib.Core.Path.{subst}
use cs_562_jvm.Base.{
  ◌≤◌, ◌≡◌, ◌+◌, suc, zero, Bool-cases, arith, inl, inr, ◌==◌, ==_iff, ◌∙◌, ◌<◌, ≡_dec, ◌≢◌, sym,
}
use cs_562_jvm.Indirection.{ℕ, List, trim, get_or}

-- `n` is where the table `addresses` ends, when the empty entries at the end of its first `old` ones are
-- left out: the entry before it is not empty, unless it is that of slot 0
pub record IsTrimmed (addresses : List ℕ) (old n : ℕ) : Type 0 where
  pub within : n ≤ old
  pub some_left : 0 < old → 0 < n
  pub rest_empty : (j : ℕ) → n ≤ j → j < old → get_or addresses j 0 ≡ 0
  pub last_used : (j : ℕ) → 0 < j → j + 1 ≡ n → get_or addresses j 0 ≢ 0

pub trim-IsTrimmed : (addresses : List ℕ) (old : ℕ) → IsTrimmed addresses old (trim addresses old)
unfolding trim
trim-IsTrimmed addresses zero = record {
  within = omega arith;
  some_left = λ h. h;
  rest_empty = λ j h l. absurd (omega (arith, h, l));
  last_used = λ j h e. absurd (omega (arith, h, e));
}
trim-IsTrimmed addresses (suc zero) = record {
  within = omega arith;
  some_left = λ h. h;
  rest_empty = λ j h l. absurd (omega (arith, h, l));
  last_used = λ j h e. absurd (omega (arith, h, e));
}
trim-IsTrimmed addresses (suc (suc n)) = elim (Bool-cases (get_or addresses (suc n) 0 == 0)) [
  | inl b ↦
      let r = trim-IsTrimmed addresses (suc n) in
      rw b (record {
        within = omega (arith, r.within);
        some_left = λ h. r.some_left (omega arith);
        rest_empty = λ j h l. elim (≡_dec j (suc n)) [
          | inl e ↦
              subst (λ i. get_or addresses i 0 ≡ 0) (sym e)
                ((==_iff (get_or addresses (suc n) 0) 0).0 b)
          | inr ne ↦ r.rest_empty j h (omega (arith, l, ne))
        ];
        last_used = r.last_used;
      })
  | inr b ↦ rw b (record {
    within = omega arith;
    some_left = λ h. omega arith;
    rest_empty = λ j h l. absurd (omega (arith, h, l));
    last_used = λ j h e z.
        let q : j ≡ suc n = omega (arith, e) in
        absurd (
          true≢false (
            sym (
              (==_iff (get_or addresses (suc n) 0) 0).1 (subst (λ i. get_or addresses i 0 ≡ 0) q z))
            ∙ b));
  })
]
