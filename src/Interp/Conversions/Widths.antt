-- ===== src/Interp/Conversions/Widths.antt =====
-- Integer conversions and lcmp against the signed numbers.
use cs_562_jvm.Machine.Effects.{
  At, long, Room, Leaves, pop2-then, pop-then, low-high, push2-then, push-then, ends,
}
use cs_562_jvm.Frame.View.{Entry}
use cs_562_jvm.Frame.{Frame, type_long, type_int}
use cs_562_jvm.Machine.{Machine, and_then}
use cs_562_jvm.Interp.Conversions.{
  compare_long, handle_instr_i2l, handle_instr_lcmp, handle_instr_l2i,
}
use cs_562_jvm.Base.{
  ℕ, ◌≡◌, arith, ◌<◌, ℤ, negsuc, ◌-ℤ◌, ◌^◌, signed64, wrap64, List, ◌-◌, signed32, ◌≤ℤ◌, pos, Bool,
  ◌%◌, ◌∷◌, wrap32, if◌then◌else◌, ltb_ℤ,
}

i2l_value : (v : ℕ) → v < 2 ^ 32 → signed64 (wrap64 (signed32 v)) ≡ signed32 v
i2l_value v h = ground arith

i2l_low : (v : ℕ) → v < 2 ^ 32 → wrap64 (signed32 v) % 2 ^ 32 ≡ v
i2l_low v h = ground arith

-- the sign of a - b
abbrev pub sign_of_difference : ℤ → ℤ → ℤ
sign_of_difference a b = if ltb_ℤ a b then negsuc 0 else if ltb_ℤ b a then pos 1 else pos 0

-- `z` is in the range of int64_t
abbrev pub FitsLong : ℤ → Type 0
FitsLong z = (negsuc (2 ^ 63 - 1) ≤ℤ z) × (z ≤ℤ pos (2 ^ 63 - 1))

compare_long_fits :
    (next top : ℕ)
    → next < 2 ^ 64
    → top < 2 ^ 64
    → FitsLong (signed64 next -ℤ signed64 top)
    → compare_long next top ≡ sign_of_difference (signed64 next) (signed64 top)
unfolding compare_long ◌-ℤ◌
compare_long_fits next top hn ht fits = ground arith

compare_long_wraps :
    (next top : ℕ)
    → next < 2 ^ 64
    → top < 2 ^ 64
    → ¬ FitsLong (signed64 next -ℤ signed64 top)
    → compare_long next top ≡ sign_of_difference (signed64 top) (signed64 next)
unfolding compare_long ◌-ℤ◌
compare_long_wraps next top hn ht wraps = ground arith

module _ {b : Machine} {f : Frame} {fs : List Frame} {s : List Entry} {m : Machine}
    (wide : Bool) where
  -- i2l followed by l2i gives the int back, and the long in between has the value of the int.
  pub l2i-i2l :
      (v t : ℕ)
      → At b f fs ((v, t) ∷ s) m
      → v < 2 ^ 32
      → Room f s 2
      → (w : ℕ) × (signed64 w ≡ signed32 v)
        × Leaves b f fs (long w type_long s) (handle_instr_i2l wide) (pos 1) m
        × Leaves b f fs
            ((v, type_int) ∷ s)
            (λ m'. and_then (handle_instr_i2l wide m') λ _. handle_instr_l2i wide)
            (pos 1)
            m
  unfolding handle_instr_i2l handle_instr_l2i
  l2i-i2l v t h hv room =
      let w = wrap64 (signed32 v) in
      let wide_first : Leaves b f fs (long w type_long s) (handle_instr_i2l wide) (pos 1) m =
        pop-then _ h λ m1 h1. push2-then _ _ _ h1 (omega arith) λ m2 h2. ends h2 in
      let (m2, e, h2) = wide_first in
      (
        w,
        i2l_value v hv,
        wide_first,
        rw e (
            pop2-then _ h2 λ m3 h3.
              rw (low-high w, i2l_low v hv) (push-then _ _ _ h3 (omega arith) λ m4 h4. ends h4)),
      )

  lcmp-Leaves :
      (top next t u : ℕ)
      → At b f fs (long top t (long next u s)) m
      → top < 2 ^ 64
      → next < 2 ^ 64
      → Room f s 1
      → Leaves b f fs
          ((wrap32 (compare_long next top), type_int) ∷ s)
          (handle_instr_lcmp wide)
          (pos 1)
          m
  unfolding handle_instr_lcmp
  lcmp-Leaves top next t u h ht hn room = pop2-then _ h λ m1 h1.
      pop2-then _ h1 λ m2 h2.
        rw (low-high top, low-high next) (push-then _ _ _ h2 (omega arith) λ m3 h3. ends h3)

  -- If the difference of the two longs fits a long, lcmp leaves -1, 0 or 1 as the lower operand is less
  -- than, equal to or greater than the upper one.
  pub lcmp_fits :
      (top next t u : ℕ)
      → At b f fs (long top t (long next u s)) m
      → top < 2 ^ 64
      → next < 2 ^ 64
      → Room f s 1
      → FitsLong (signed64 next -ℤ signed64 top)
      → Leaves b f fs
          ((wrap32 (sign_of_difference (signed64 next) (signed64 top)), type_int) ∷ s)
          (handle_instr_lcmp wide)
          (pos 1)
          m
  lcmp_fits top next t u h ht hn room fits =
      rw (← compare_long_fits next top hn ht fits) (lcmp-Leaves top next t u h ht hn room)

  -- If the difference of the two longs does not fit a long, lcmp leaves the sign of the opposite
  -- comparison.
  pub lcmp_wraps :
      (top next t u : ℕ)
      → At b f fs (long top t (long next u s)) m
      → top < 2 ^ 64
      → next < 2 ^ 64
      → Room f s 1
      → ¬ FitsLong (signed64 next -ℤ signed64 top)
      → Leaves b f fs
          ((wrap32 (sign_of_difference (signed64 top) (signed64 next)), type_int) ∷ s)
          (handle_instr_lcmp wide)
          (pos 1)
          m
  lcmp_wraps top next t u h ht hn room wraps =
      rw (← compare_long_wraps next top hn ht wraps) (lcmp-Leaves top next t u h ht hn room)
