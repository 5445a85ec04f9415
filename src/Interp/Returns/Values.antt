-- ===== src/Interp/Returns/Values.antt =====
-- What the return instructions hand to the calling frame.
use cs_562_jvm.Interp.Returns.{
  leave_frame, ok, return_cell, handle_instr_ireturn, handle_instr_lreturn, return_cell2,
  handle_instr_freturn, handle_instr_dreturn, handle_instr_areturn,
}
use cs_562_jvm.Frame.View.{Entry, Holds}
use cs_562_jvm.Base.{List, Bool, ℕ, ◌∷◌, ◌≡◌, pos, ap, refl, arith}
use cs_562_jvm.Frame.{Frame, type_long, type_int, type_double, type_float, type_reference}
use cs_562_jvm.Machine.Effects.{
  At, Ends, Room, pop-then, long, push-then, pop2-then, ends, low-high, push2-then,
}
use cs_562_jvm.Machine.{Machine}

-- `b` with the program counter of the caller
abbrev pub back_in_caller : Machine → Frame → Machine
back_in_caller b f = record b { pc = f.prev_pc }

module _ {b : Machine} {f g g' : Frame} {gs : List Frame} {s r : List Entry} {m : Machine} where
  leave_frame-At :
      At b f (g' ∷ gs) s m
      → Holds g r g'
      → (m' : Machine) × (leave_frame m ≡ ok tt m') × At (back_in_caller b f) g gs r m'
  unfolding leave_frame
  leave_frame-At h held =
      let pc : h.frame.prev_pc ≡ f.prev_pc = ap (λ (x : Frame). x.prev_pc) h.holds.same in
      (
        record b { frames = g' ∷ gs; pc = f.prev_pc },
        rw h.whole (rw pc refl),
        record { frame = g'; whole = refl; holds = held },
      )

module _ {b : Machine} {f g g' : Frame} {gs : List Frame} {s r : List Entry} {m : Machine} where
  return_cell-Ends :
      (wide : Bool) (v t ty : ℕ)
      → At b f (g' ∷ gs) ((v, t) ∷ s) m
      → Holds g r g'
      → Room g r 1
      → Ends (back_in_caller b f) g gs ((v, ty) ∷ r) (pos 0) (return_cell ty wide m)
  return_cell-Ends wide v t ty h held room = pop-then _ h λ m1 h1.
      let (m2, p, h2) = leave_frame-At h1 held in
      rw p (push-then _ _ _ h2 (omega arith) λ m3 h3. ends h3)

  return_cell2-Ends :
      (wide : Bool) (v t ty : ℕ)
      → At b f (g' ∷ gs) (long v t s) m
      → Holds g r g'
      → Room g r 2
      → Ends (back_in_caller b f) g gs (long v ty r) (pos 0) (return_cell2 ty wide m)
  return_cell2-Ends wide v t ty h held room = pop2-then _ h λ m1 h1.
      let (m2, p, h2) = leave_frame-At h1 held in
      rw (low-high v, p) (push2-then _ _ _ h2 (omega arith) λ m3 h3. ends h3)

  -- ireturn, freturn and areturn drop the current frame with whatever else its operand stack holds,
  -- put the program counter where the caller's call left it, and push the returned cell on the
  -- caller's operand stack with their type. They return 0.
  pub cell_returns-Ends :
      (wide : Bool) (v t : ℕ)
      → At b f (g' ∷ gs) ((v, t) ∷ s) m
      → Holds g r g'
      → Room g r 1
      → Ends (back_in_caller b f) g gs ((v, type_int) ∷ r) (pos 0) (handle_instr_ireturn wide m)
        × Ends (back_in_caller b f) g gs ((v, type_float) ∷ r) (pos 0) (handle_instr_freturn wide m)
        × Ends
            (back_in_caller b f)
            g
            gs
            ((v, type_reference) ∷ r)
            (pos 0)
            (handle_instr_areturn wide m)
  unfolding handle_instr_ireturn handle_instr_freturn handle_instr_areturn
  cell_returns-Ends wide v t h held room = (
    return_cell-Ends wide v t type_int h held room,
    return_cell-Ends wide v t type_float h held room,
    return_cell-Ends wide v t type_reference h held room,
  )

  -- lreturn and dreturn do the same with the two cells of a long or a double.
  pub double_cell_returns-Ends :
      (wide : Bool) (v t : ℕ)
      → At b f (g' ∷ gs) (long v t s) m
      → Holds g r g'
      → Room g r 2
      → Ends (back_in_caller b f) g gs (long v type_long r) (pos 0) (handle_instr_lreturn wide m)
        × Ends
            (back_in_caller b f)
            g
            gs
            (long v type_double r)
            (pos 0)
            (handle_instr_dreturn wide m)
  unfolding handle_instr_lreturn handle_instr_dreturn
  double_cell_returns-Ends wide v t h held room = (
    return_cell2-Ends wide v t type_long h held room,
    return_cell2-Ends wide v t type_double h held room,
  )
