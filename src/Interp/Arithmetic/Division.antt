-- ===== src/Interp/Arithmetic/Division.antt =====
-- idiv and irem: truncated division, division by zero and the overflow.
use cs_562_jvm.Machine.Effects.{At, pop-At, Room, Leaves, pop-then, push-then, ends}
use cs_562_jvm.Interp.Arithmetic.{handle_instr_idiv, handle_instr_irem, overflows, throw_division}
use cs_562_jvm.Interp.Defs.{Throw}
use cs_562_jvm.Frame.View.{Entry}
use cs_562_jvm.Frame.{Frame, type_int}
use cs_562_jvm.Machine.{Machine}
use native.Mathlib.Nat.{div-add-mod}
use cs_562_jvm.Base.{
  zero, suc, ◌<◌, ◌≡◌, refl, ◌≢◌, arith, ℤ, pos, negsuc, ◌+ℤ◌, ◌*ℤ◌, abs_ℕ, quot_ℤ, rem_ℤ,
  is_negative, ℕ, ◌^◌, signed32, List, Bool, ◌∷◌, false, wrap32, ◌==◌,
}

quot_rem_lem : (a b : ℤ) → b ≢ pos 0 → quot_ℤ a b *ℤ b +ℤ rem_ℤ a b ≡ a
unfolding quot_ℤ rem_ℤ ◌*ℤ◌ ◌+ℤ◌
quot_rem_lem (pos n) (pos m) h = ground (arith, div-add-mod n m)
quot_rem_lem (pos n) (negsuc m) h = ground (arith, div-add-mod n (suc m))
quot_rem_lem (negsuc n) (pos m) h = ground (arith, div-add-mod (suc n) m)
quot_rem_lem (negsuc n) (negsuc m) h = ground (arith, div-add-mod (suc n) (suc m))

rem-lt : (a b : ℤ) → b ≢ pos 0 → abs_ℕ (rem_ℤ a b) < abs_ℕ b
unfolding rem_ℤ
rem-lt (pos n) (pos zero) h = absurd (h refl)
rem-lt (pos n) (pos (suc m)) h = ground arith
rem-lt (pos n) (negsuc m) h = ground arith
rem-lt (negsuc n) (pos zero) h = absurd (h refl)
rem-lt (negsuc n) (pos (suc m)) h = ground arith
rem-lt (negsuc n) (negsuc m) h = ground arith

-- `q` and `r` are the quotient and the remainder of `a` by `b`, rounded towards zero
abbrev pub Divides : ℤ → ℤ → ℤ → ℤ → Type 0
Divides a b q r =
    (q *ℤ b +ℤ r ≡ a) × (abs_ℕ r < abs_ℕ b) × (r ≢ pos 0 → is_negative r ≡ is_negative a)

rem-sign : (a b : ℤ) → rem_ℤ a b ≢ pos 0 → is_negative (rem_ℤ a b) ≡ is_negative a
unfolding rem_ℤ
rem-sign (pos n) b h = refl
rem-sign (negsuc n) b h = ground arith

quot_rem-Divides : (a b : ℤ) → b ≢ pos 0 → Divides a b (quot_ℤ a b) (rem_ℤ a b)
quot_rem-Divides a b h = (quot_rem_lem a b h, rem-lt a b h, rem-sign a b)

signed32-ne-zero : (w : ℕ) → w < 2 ^ 32 → w ≢ 0 → signed32 w ≢ pos 0
signed32-ne-zero w h ne e = ground arith

module _ {b : Machine} {f : Frame} {fs : List Frame} {s : List Entry} {m : Machine} (wide : Bool)
    (throw : Throw) (top next t u : ℕ) where
  -- With a divisor other than 0, and unless the smallest int is divided by -1, idiv leaves a quotient
  -- and irem a remainder, such that quotient times divisor plus remainder is the dividend, the
  -- remainder is smaller than the divisor, and its sign is that of the dividend.
  pub idiv_irem-Divides :
      At b f fs ((top, t) ∷ (next, u) ∷ s) m
      → top < 2 ^ 32
      → next < 2 ^ 32
      → top ≢ 0
      → overflows 32 next top ≡ false
      → Room f s 1
      → (q r : ℤ) × Divides (signed32 next) (signed32 top) q r
        × Leaves b f fs ((wrap32 q, type_int) ∷ s) (handle_instr_idiv throw wide) (pos 1) m
        × Leaves b f fs ((wrap32 r, type_int) ∷ s) (handle_instr_irem throw wide) (pos 1) m
  unfolding handle_instr_idiv handle_instr_irem
  idiv_irem-Divides h ht hn ne fits room =
      let z : (top == 0) ≡ false = ground arith in
      (
        quot_ℤ (signed32 next) (signed32 top),
        rem_ℤ (signed32 next) (signed32 top),
        quot_rem-Divides (signed32 next) (signed32 top) (signed32-ne-zero top ht ne),
        pop-then _ h λ m1 h1.
            pop-then _ h1 λ m2 h2. rw (z, fits) (push-then _ _ _ h2 (omega arith) λ m3 h3. ends h3),
        pop-then _ h λ m1 h1.
            pop-then _ h1 λ m2 h2. rw (z, fits) (push-then _ _ _ h2 (omega arith) λ m3 h3. ends h3),
      )

  -- A division or remainder by 0 pops both operands, throws an ArithmeticException and returns 0.
  pub idiv_irem-zero :
      At b f fs ((0, t) ∷ (next, u) ∷ s) m
      → (m' : Machine) × At b f fs s m'
        × (handle_instr_idiv throw wide m ≡ throw_division throw m')
        × (handle_instr_irem throw wide m ≡ throw_division throw m')
  unfolding handle_instr_idiv handle_instr_irem
  idiv_irem-zero h =
      let (m1, p, _, h1) = pop-At h in
      let (m2, q, _, h2) = pop-At h1 in (m2, h2, rw (p, q), rw (p, q))
