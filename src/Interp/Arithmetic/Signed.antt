-- ===== src/Interp/Arithmetic/Signed.antt =====
-- Wrapping arithmetic on patterns is arithmetic of the signed numbers that they stand for.
use cs_562_jvm.Base.{
  ℕ, ◌^◌, ◌≡◌, ◌<◌, Bool, List, ◌∷◌, arith, pos, neg_ℤ, ◌+ℤ◌, ◌-ℤ◌, signed32, signed64, wrap32,
  wrap64,
}
use cs_562_jvm.Frame.{Frame, type_int, type_long}
use cs_562_jvm.Frame.View.{Entry}
use cs_562_jvm.Machine.{Machine}
use cs_562_jvm.Machine.Effects.{
  Leaves, Room, long, At, pop-then, pop2-then, push-then, push2-then, ends, low-high,
}
use cs_562_jvm.Interp.Defs.{binary, binary2}
use cs_562_jvm.Interp.Arithmetic.{
  add_word, sub_word, neg_word, handle_instr_iadd, handle_instr_isub, handle_instr_ladd,
  handle_instr_lsub,
}

add_word-signed32 :
    (a b : ℕ) → a < 2 ^ 32 → b < 2 ^ 32 → add_word 32 a b ≡ wrap32 (signed32 a +ℤ signed32 b)
unfolding ◌+ℤ◌
add_word-signed32 a b ha hb = ground arith

sub_word-signed32 :
    (a b : ℕ) → a < 2 ^ 32 → b < 2 ^ 32 → sub_word 32 a b ≡ wrap32 (signed32 a -ℤ signed32 b)
unfolding ◌-ℤ◌
sub_word-signed32 a b ha hb = ground arith

neg_word-signed32 : (a : ℕ) → a < 2 ^ 32 → neg_word 32 a ≡ wrap32 (neg_ℤ (signed32 a))
neg_word-signed32 a ha = ground arith

add_word-signed64 :
    (a b : ℕ) → a < 2 ^ 64 → b < 2 ^ 64 → add_word 64 a b ≡ wrap64 (signed64 a +ℤ signed64 b)
unfolding ◌+ℤ◌
add_word-signed64 a b ha hb = ground arith

sub_word-signed64 :
    (a b : ℕ) → a < 2 ^ 64 → b < 2 ^ 64 → sub_word 64 a b ≡ wrap64 (signed64 a -ℤ signed64 b)
unfolding ◌-ℤ◌
sub_word-signed64 a b ha hb = ground arith

module _ {b : Machine} {f : Frame} {fs : List Frame} {s : List Entry} {m : Machine}
    (wide : Bool) where
  binary-Leaves :
      (op : ℕ → ℕ → ℕ) (ty : ℕ) (top next : Entry)
      → At b f fs (top ∷ next ∷ s) m
      → Room f s 1
      → Leaves b f fs ((op next.0 top.0, ty) ∷ s) (binary op ty wide) (pos 1) m
  binary-Leaves op ty top next h room =
      pop-then _ h λ m1 h1. pop-then _ h1 λ m2 h2. push-then _ _ _ h2 (omega arith) λ m3 h3. ends h3

  binary2-Leaves :
      (op : ℕ → ℕ → ℕ) (ty t u : ℕ) (top next : ℕ)
      → At b f fs (long top t (long next u s)) m
      → top < 2 ^ 64
      → next < 2 ^ 64
      → Room f s 2
      → Leaves b f fs (long (op next top) ty s) (binary2 op ty wide) (pos 1) m
  binary2-Leaves op ty t u top next h ht hn room = pop2-then _ h λ m1 h1.
      pop2-then _ h1 λ m2 h2.
        rw (low-high top, low-high next) (push2-then _ _ _ h2 (omega arith) λ m3 h3. ends h3)

  -- On two int operands iadd leaves the sum of the signed numbers that they stand for, and isub the
  -- difference, the lower operand less the upper, wrapped to 32 bits.
  pub iadd_isub-signed32 :
      (top next t u : ℕ)
      → At b f fs ((top, t) ∷ (next, u) ∷ s) m
      → top < 2 ^ 32
      → next < 2 ^ 32
      → Room f s 1
      → Leaves b f fs
          ((wrap32 (signed32 next +ℤ signed32 top), type_int) ∷ s)
          (handle_instr_iadd wide)
          (pos 1)
          m
        × Leaves b f fs
            ((wrap32 (signed32 next -ℤ signed32 top), type_int) ∷ s)
            (handle_instr_isub wide)
            (pos 1)
            m
  unfolding handle_instr_iadd handle_instr_isub
  iadd_isub-signed32 top next t u h ht hn room = (
    rw (← add_word-signed32 next top hn ht)
        (binary-Leaves (add_word 32) type_int (top, t) (next, u) h room),
    rw (← sub_word-signed32 next top hn ht)
        (binary-Leaves (sub_word 32) type_int (top, t) (next, u) h room),
  )

  -- On two long operands ladd leaves the sum of the signed numbers that they stand for, and lsub the
  -- difference, the lower operand less the upper, wrapped to 64 bits.
  pub ladd_lsub-signed64 :
      (top next t u : ℕ)
      → At b f fs (long top t (long next u s)) m
      → top < 2 ^ 64
      → next < 2 ^ 64
      → Room f s 2
      → Leaves b f fs
          (long (wrap64 (signed64 next +ℤ signed64 top)) type_long s)
          (handle_instr_ladd wide)
          (pos 1)
          m
        × Leaves b f fs
            (long (wrap64 (signed64 next -ℤ signed64 top)) type_long s)
            (handle_instr_lsub wide)
            (pos 1)
            m
  unfolding handle_instr_ladd handle_instr_lsub
  ladd_lsub-signed64 top next t u h ht hn room = (
    rw (← add_word-signed64 next top hn ht)
        (binary2-Leaves (add_word 64) type_long t u top next h ht hn room),
    rw (← sub_word-signed64 next top hn ht)
        (binary2-Leaves (sub_word 64) type_long t u top next h ht hn room),
  )
