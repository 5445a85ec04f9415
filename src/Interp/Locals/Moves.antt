-- ===== src/Interp/Locals/Moves.antt =====
-- Moves between the operand stack and the local variables, and iinc.
use cs_562_jvm.Machine.Locals.{with_local, write_local-At, read_local-At}
use cs_562_jvm.Machine.Control.{CodeByte, read_byte-At}
use cs_562_jvm.Interp.Locals.{
  add_amount, handle_instr_iinc, handle_instr_xstore, handle_instr_xstore_n, handle_instr_xload,
}
use cs_562_jvm.Frame.View.{Entry, length-entries}
use cs_562_jvm.Frame.{Frame, is_wide, peek_operand_type}
use cs_562_jvm.Base.{
  ℕ, ◌+ℤ◌, ◌<◌, List, ◌^◌, wrap, half8, signed8, Bool, ◌≡◌, get_elem?, ◌∷◌, length, arith, wrap32,
  some, ◌≤◌, signed32, false, pos, ltb, get_elem?-lt, sym, set, get_elem?-set_self, ◌∙◌, ap, none,
  refl,
}
use cs_562_jvm.Machine.Effects.{
  At, Ends, Room, pop-At, ends, peek_type-At, push-then, from_frame-none,
}
use cs_562_jvm.Machine.{Machine, fault, and_then}

byte_index : (i : ℕ) → i < 2 ^ 8 → wrap half8 (signed8 i) ≡ i
byte_index i h = ground arith

add_amount-byte :
    (v a : ℕ) → v < 2 ^ 32 → a < 2 ^ 8 → add_amount v (signed8 a) ≡ wrap32 (signed32 v +ℤ signed8 a)
unfolding ◌+ℤ◌
add_amount-byte v a hv ha = ground arith

not-ltb : (a c : ℕ) → c ≤ a → ltb a c ≡ false
not-ltb a c h = ground arith

peek_operand_type_deep : (n : ℕ) (g : Frame) → ltb n g.top ≡ false → peek_operand_type n g ≡ none
unfolding peek_operand_type
peek_operand_type_deep n g e = rw e refl

module _ {b : Machine} {f : Frame} {fs : List Frame} {s : List Entry} {m : Machine} where
  -- iinc with a byte index and a byte amount adds the amount, a signed number, to the local variable
  -- at the index, an unsigned number, wrapped to 32 bits. Nothing else changes, and it returns 3.
  pub iinc-Adds :
      (i a v : ℕ)
      → At b f fs s m
      → CodeByte b f 1 i
      → CodeByte b f 2 a
      → i < 2 ^ 8
      → a < 2 ^ 8
      → get_elem? f.locals i ≡ some v
      → v < 2 ^ 32
      → Ends b
          (with_local f i (wrap32 (signed32 v +ℤ signed8 a)))
          fs
          s
          (pos 3)
          (handle_instr_iinc false m)
  unfolding handle_instr_iinc
  iinc-Adds i a v h ei ea hi ha e hv =
      let (m', p, h') =
        write_local-At h i (add_amount v (signed8 a)) (get_elem?-lt f.locals i v e) in
      rw
        (
          ← add_amount-byte v a hv ha,
          read_byte-At h 1 i ei,
          read_byte-At h 2 a ea,
          byte_index i hi,
          read_local-At h i v e,
          p,
        )
        (ends h')

  -- A store of a one-cell value into a local variable, and a load of the same type from it, leave the
  -- operand stack as it was, and the value in the variable. Both take the index from the byte behind
  -- the opcode.
  pub xload-xstore :
      (i v ty : ℕ)
      → At b f fs ((v, ty) ∷ s) m
      → is_wide ty ≡ false
      → CodeByte b f 1 i
      → i < 2 ^ 8
      → i < length f.locals
      → Room f s 1
      → Ends b
          (with_local f i v)
          fs
          ((v, ty) ∷ s)
          (pos 2)
          (and_then (handle_instr_xstore false m) λ _. handle_instr_xload ty false)
  unfolding handle_instr_xstore handle_instr_xload
  xload-xstore i v ty h narrow ei hi lt room =
      let (m1, p, _, h1) = pop-At h in
      let (m2, q, h2) = write_local-At h1 i v lt in
      let kept : get_elem? (set f.locals i v) i ≡ some v = get_elem?-set_self f.locals i v lt in
      rw
        (
          read_byte-At h 1 i ei,
          byte_index i hi,
          peek_type-At h,
          narrow,
          p,
          q,
          read_byte-At h2 1 i ei,
          byte_index i hi,
          read_local-At h2 i v kept,
        )
        (push-then _ _ _ h2 (omega arith) λ m3 h3. ends h3)

  -- xstore_n with n at least the height of the operand stack reads the type of its operand outside
  -- the array of types.
  pub xstore_n_shallow :
      (wide : Bool) (n : ℕ) → At b f fs s m → length s ≤ n → handle_instr_xstore_n n wide m ≡ fault
  unfolding handle_instr_xstore_n
  xstore_n_shallow wide n h low =
      let e : h.frame.top ≡ length s =
        sym (length-entries h.frame.operands h.frame.types h.frame.top) ∙ ap length h.holds.view in
      let deep : ltb n h.frame.top ≡ false = not-ltb n h.frame.top (omega arith) in
      rw (from_frame-none _ h (peek_operand_type_deep n h.frame deep)) refl
