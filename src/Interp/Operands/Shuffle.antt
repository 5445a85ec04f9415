-- ===== src/Interp/Operands/Shuffle.antt =====
-- The stack instructions against the operand stack as a list of entries.
use cs_562_jvm.Base.{Bool, List, ◌∷◌, arith, pos}
use cs_562_jvm.Frame.{Frame}
use cs_562_jvm.Frame.View.{Entry}
use cs_562_jvm.Machine.{Machine}
use cs_562_jvm.Machine.Effects.{Leaves, Room, At, pop_typed-then, push-then, ends}
use cs_562_jvm.Interp.Operands.{
  handle_instr_dup_x1, handle_instr_dup_x2, handle_instr_dup2_x1, handle_instr_dup2_x2,
  handle_instr_swap,
}

module _ {b : Machine} {f : Frame} {fs : List Frame} {s : List Entry} {m : Machine} (wide : Bool)
    (a c : Entry) where
  -- swap exchanges the two topmost entries, with their types.
  pub swap-Leaves :
      At b f fs (a ∷ c ∷ s) m
      → Room f s 2
      → Leaves b f fs (c ∷ a ∷ s) (handle_instr_swap wide) (pos 1) m
  unfolding handle_instr_swap
  swap-Leaves h room = pop_typed-then _ h λ m1 h1. pop_typed-then _ h1 λ m2 h2.
      push-then _ _ _ h2 (omega arith) λ m3 h3. push-then _ _ _ h3 (omega arith) λ m4 h4. ends h4

  dup_x1-Leaves :
      At b f fs (a ∷ c ∷ s) m
      → Room f s 3
      → Leaves b f fs (a ∷ c ∷ a ∷ s) (handle_instr_dup_x1 wide) (pos 1) m
  unfolding handle_instr_dup_x1
  dup_x1-Leaves h room = pop_typed-then _ h λ m1 h1. pop_typed-then _ h1 λ m2 h2.
      push-then _ _ _ h2 (omega arith) λ m3 h3.
        push-then _ _ _ h3 (omega arith) λ m4 h4. push-then _ _ _ h4 (omega arith) λ m5 h5. ends h5

  module _ (d : Entry) where
    dup_x2-Leaves :
        At b f fs (a ∷ c ∷ d ∷ s) m
        → Room f s 4
        → Leaves b f fs (a ∷ c ∷ d ∷ a ∷ s) (handle_instr_dup_x2 wide) (pos 1) m
    unfolding handle_instr_dup_x2
    dup_x2-Leaves h room = pop_typed-then _ h λ m1 h1. pop_typed-then _ h1 λ m2 h2.
        pop_typed-then _ h2 λ m3 h3. push-then _ _ _ h3 (omega arith) λ m4 h4.
          push-then _ _ _ h4 (omega arith) λ m5 h5.
            push-then _ _ _ h5 (omega arith)
              λ m6 h6. push-then _ _ _ h6 (omega arith) λ m7 h7. ends h7

    dup2_x1-Leaves :
        At b f fs (a ∷ c ∷ d ∷ s) m
        → Room f s 5
        → Leaves b f fs (a ∷ c ∷ d ∷ a ∷ c ∷ s) (handle_instr_dup2_x1 wide) (pos 1) m
    unfolding handle_instr_dup2_x1
    dup2_x1-Leaves h room = pop_typed-then _ h λ m1 h1. pop_typed-then _ h1 λ m2 h2.
        pop_typed-then _ h2 λ m3 h3. push-then _ _ _ h3 (omega arith) λ m4 h4.
          push-then _ _ _ h4 (omega arith) λ m5 h5. push-then _ _ _ h5 (omega arith) λ m6 h6.
            push-then _ _ _ h6 (omega arith)
              λ m7 h7. push-then _ _ _ h7 (omega arith) λ m8 h8. ends h8

    dup2_x2-Leaves :
        (e : Entry)
        → At b f fs (a ∷ c ∷ d ∷ e ∷ s) m
        → Room f s 6
        → Leaves b f fs (a ∷ c ∷ d ∷ e ∷ a ∷ c ∷ s) (handle_instr_dup2_x2 wide) (pos 1) m
    unfolding handle_instr_dup2_x2
    dup2_x2-Leaves e h room = pop_typed-then _ h λ m1 h1. pop_typed-then _ h1 λ m2 h2.
        pop_typed-then _ h2 λ m3 h3. pop_typed-then _ h3 λ m4 h4.
          push-then _ _ _ h4 (omega arith) λ m5 h5. push-then _ _ _ h5 (omega arith) λ m6 h6.
            push-then _ _ _ h6 (omega arith) λ m7 h7. push-then _ _ _ h7 (omega arith) λ m8 h8.
              push-then _ _ _ h8 (omega arith)
                λ m9 h9. push-then _ _ _ h9 (omega arith) λ m10 h10. ends h10

module _ {b : Machine} {f : Frame} {fs : List Frame} {s : List Entry} {m : Machine} (wide : Bool)
    (a c d e : Entry) where
  -- dup_x1 and dup_x2 put a copy of the topmost entry below the second and the third one; dup2_x1 and
  -- dup2_x2 put copies of the two topmost entries below the third and the fourth one. The types go with
  -- the entries.
  pub dups-Leaves :
      At b f fs (a ∷ c ∷ d ∷ e ∷ s) m
      → Room f s 6
      → Leaves b f fs (a ∷ c ∷ a ∷ d ∷ e ∷ s) (handle_instr_dup_x1 wide) (pos 1) m
        × Leaves b f fs (a ∷ c ∷ d ∷ a ∷ e ∷ s) (handle_instr_dup_x2 wide) (pos 1) m
        × Leaves b f fs (a ∷ c ∷ d ∷ a ∷ c ∷ e ∷ s) (handle_instr_dup2_x1 wide) (pos 1) m
        × Leaves b f fs (a ∷ c ∷ d ∷ e ∷ a ∷ c ∷ s) (handle_instr_dup2_x2 wide) (pos 1) m
  dups-Leaves h room = (
    dup_x1-Leaves wide a c h (omega arith, omega arith),
    dup_x2-Leaves wide a c d h (omega arith, omega arith),
    dup2_x1-Leaves wide a c d h (omega arith, omega arith),
    dup2_x2-Leaves wide a c d e h (omega arith, omega arith),
  )
