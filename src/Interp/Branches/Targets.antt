-- ===== src/Interp/Branches/Targets.antt =====
-- Where the branches go: the conditions against the order of the signed numbers.
use cs_562_jvm.Machine.Effects.{Ends, At, ends, pop-then, Room, push-then}
use cs_562_jvm.Machine.Control.{CodeByte, Reachable, moved, short, jump-At, read_short-At}
use cs_562_jvm.Frame.View.{Entry}
use cs_562_jvm.Interp.Branches.{
  lt_int, read_short_operand, branch, if_two, if_one, handle_instr_if_icmpeq, handle_instr_ifeq,
  handle_instr_if_icmpne, handle_instr_ifne, handle_instr_if_icmplt, handle_instr_iflt,
  handle_instr_if_icmpge, handle_instr_ifge, handle_instr_if_icmpgt, handle_instr_ifgt,
  handle_instr_if_icmple, handle_instr_ifle, handle_instr_jsr,
}
use cs_562_jvm.Frame.{Frame, type_return_address}
use cs_562_jvm.Machine.{Machine, Run, and_then}
use cs_562_jvm.Base.{
  ℕ, ◌≡◌, arith, ℤ, Bool, ◌+ℤ◌, pos, true, signed32, ◌<◌, ◌≤ℤ◌, false, List, ◌^◌, ◌==◌, ◌∷◌, not,
  ap, ◌+◌, ◌%◌,
}

-- how two integers compare
pub data Order : Type 0 where
  less equal greater : Order

abbrev pub Compares : Order → ℤ → ℤ → Type 0
Compares less a b = a +ℤ pos 1 ≤ℤ b
Compares equal a b = a ≡ b
Compares greater a b = b +ℤ pos 1 ≤ℤ a

abbrev pub is_less : Order → Bool
is_less less = true
is_less _ = false

abbrev pub is_equal : Order → Bool
is_equal equal = true
is_equal _ = false

abbrev pub is_greater : Order → Bool
is_greater greater = true
is_greater _ = false

-- The run moves the program counter by `d` and returns 0 if the condition holds, and returns 3 if
-- not; either way it leaves the entries `s`.
abbrev pub Goes : Machine → Frame → List Frame → List Entry → ℤ → Bool → Run ℤ → Type 0
Goes b f fs s d true x = Ends (moved b d) f fs s (pos 0) x
Goes b f fs s d false x = Ends b f fs s (pos 3) x

lt_int-less : (o : Order) (a b : ℕ) → Compares o (signed32 a) (signed32 b) → lt_int a b ≡ is_less o
unfolding ◌+ℤ◌
lt_int-less less a b h = ground arith
lt_int-less equal a b h = rw h (ground arith)
lt_int-less greater a b h = ground arith

lt_int-greater :
    (o : Order) (a b : ℕ) → Compares o (signed32 a) (signed32 b) → lt_int b a ≡ is_greater o
unfolding ◌+ℤ◌
lt_int-greater less a b h = ground arith
lt_int-greater equal a b h = rw h (ground arith)
lt_int-greater greater a b h = ground arith

eq_int-equal :
    (o : Order) (a b : ℕ)
    → a < 2 ^ 32
    → b < 2 ^ 32
    → Compares o (signed32 a) (signed32 b)
    → (a == b) ≡ is_equal o
unfolding ◌+ℤ◌
eq_int-equal less a b ha hb h = ground arith
eq_int-equal equal a b ha hb h = ground arith
eq_int-equal greater a b ha hb h = ground arith

module _ {b : Machine} {f : Frame} {fs : List Frame} {s : List Entry} {m : Machine} (b0 b1 : ℕ)
    (e0 : CodeByte b f 1 b0) (e1 : CodeByte b f 2 b1) (inside : Reachable b (short b0 b1)) where
  branch-Goes :
      (test : Bool)
      → At b f fs s m
      → Goes b f fs s
          (short b0 b1)
          test
          (and_then (read_short_operand 1 m) λ offset. branch test offset)
  branch-Goes true h =
      let (m', p, h') = jump-At h (short b0 b1) inside in
      rw (read_short-At h 1 b0 b1 e0 e1, p) (ends h')
  branch-Goes false h = rw (read_short-At h 1 b0 b1 e0 e1) (ends h)

module _ {b : Machine} {f : Frame} {fs : List Frame} {s : List Entry} {m : Machine} (b0 b1 : ℕ)
    (e0 : CodeByte b f 1 b0) (e1 : CodeByte b f 2 b1) (inside : Reachable b (short b0 b1))
    (wide : Bool) where
  if_one-Goes :
      (test : ℕ → Bool) (top t : ℕ) (taken : Bool)
      → At b f fs ((top, t) ∷ s) m
      → test top ≡ taken
      → Goes b f fs s (short b0 b1) taken (if_one test wide m)
  if_one-Goes test top t true h e =
      pop-then _ h λ m1 h1. rw e (branch-Goes b0 b1 e0 e1 inside true h1)
  if_one-Goes test top t false h e =
      pop-then _ h λ m1 h1. rw e (branch-Goes b0 b1 e0 e1 inside false h1)

  if_two-Goes :
      (test : ℕ → ℕ → Bool) (top next t u : ℕ) (taken : Bool)
      → At b f fs ((top, t) ∷ (next, u) ∷ s) m
      → test next top ≡ taken
      → Goes b f fs s (short b0 b1) taken (if_two test wide m)
  if_two-Goes test top next t u true h e =
      pop-then _ h λ m1 h1. pop-then _ h1 λ m2 h2. rw e (branch-Goes b0 b1 e0 e1 inside true h2)
  if_two-Goes test top next t u false h e =
      pop-then _ h λ m1 h1. pop-then _ h1 λ m2 h2. rw e (branch-Goes b0 b1 e0 e1 inside false h2)

  -- The six comparisons of two ints jump by the 16-bit offset behind the opcode exactly when the
  -- lower operand stands in the named order to the upper one as signed numbers; otherwise they
  -- return 3. Both operands are popped.
  pub if_icmp-Goes :
      (o : Order) (top next t u : ℕ)
      → At b f fs ((top, t) ∷ (next, u) ∷ s) m
      → top < 2 ^ 32
      → next < 2 ^ 32
      → Compares o (signed32 next) (signed32 top)
      → let d = short b0 b1 in
        Goes b f fs s d (is_equal o) (handle_instr_if_icmpeq wide m)
        × Goes b f fs s d (not (is_equal o)) (handle_instr_if_icmpne wide m)
        × Goes b f fs s d (is_less o) (handle_instr_if_icmplt wide m)
        × Goes b f fs s d (not (is_less o)) (handle_instr_if_icmpge wide m)
        × Goes b f fs s d (is_greater o) (handle_instr_if_icmpgt wide m)
        × Goes b f fs s d (not (is_greater o)) (handle_instr_if_icmple wide m)
  unfolding handle_instr_if_icmpeq handle_instr_if_icmpne handle_instr_if_icmplt
      handle_instr_if_icmpge handle_instr_if_icmpgt handle_instr_if_icmple
  if_icmp-Goes o top next t u h ht hn c =
      let eq = eq_int-equal o next top hn ht c in
      let lt = lt_int-less o next top c in
      let gt = lt_int-greater o next top c in
      (
        if_two-Goes (λ next top. next == top) top next t u _ h eq,
        if_two-Goes (λ next top. not (next == top)) top next t u _ h (ap not eq),
        if_two-Goes (λ next top. lt_int next top) top next t u _ h lt,
        if_two-Goes (λ next top. not (lt_int next top)) top next t u _ h (ap not lt),
        if_two-Goes (λ next top. lt_int top next) top next t u _ h gt,
        if_two-Goes (λ next top. not (lt_int top next)) top next t u _ h (ap not gt),
      )

  -- The six comparisons of an int with 0 jump by the offset behind the opcode exactly when the
  -- operand stands in the named order to 0 as a signed number; otherwise they return 3. The operand
  -- is popped.
  pub if_zero-Goes :
      (o : Order) (top t : ℕ)
      → At b f fs ((top, t) ∷ s) m
      → top < 2 ^ 32
      → Compares o (signed32 top) (pos 0)
      → let d = short b0 b1 in
        Goes b f fs s d (is_equal o) (handle_instr_ifeq wide m)
        × Goes b f fs s d (not (is_equal o)) (handle_instr_ifne wide m)
        × Goes b f fs s d (is_less o) (handle_instr_iflt wide m)
        × Goes b f fs s d (not (is_less o)) (handle_instr_ifge wide m)
        × Goes b f fs s d (is_greater o) (handle_instr_ifgt wide m)
        × Goes b f fs s d (not (is_greater o)) (handle_instr_ifle wide m)
  unfolding handle_instr_ifeq handle_instr_ifne handle_instr_iflt handle_instr_ifge
      handle_instr_ifgt handle_instr_ifle
  if_zero-Goes o top t h ht c =
      let eq = eq_int-equal o top 0 ht (omega arith) c in
      let lt = lt_int-less o top 0 c in
      let gt = lt_int-greater o top 0 c in
      (
        if_one-Goes (λ top. top == 0) top t _ h eq,
        if_one-Goes (λ top. not (top == 0)) top t _ h (ap not eq),
        if_one-Goes (λ top. lt_int top 0) top t _ h lt,
        if_one-Goes (λ top. not (lt_int top 0)) top t _ h (ap not lt),
        if_one-Goes (λ top. lt_int 0 top) top t _ h gt,
        if_one-Goes (λ top. not (lt_int 0 top)) top t _ h (ap not gt),
      )

  -- jsr jumps by the offset behind its opcode and pushes a return address. The address is that of the
  -- byte behind the opcode, two less than that of the next instruction.
  pub jsr_address :
      At b f fs s m
      → b.pc + 1 < 2 ^ 32
      → Room f s 1
      → (a : ℕ) × (a + 2 ≡ b.pc + 3)
        × Ends
            (moved b (short b0 b1))
            f
            fs
            ((a, type_return_address) ∷ s)
            (pos 0)
            (handle_instr_jsr wide m)
  unfolding handle_instr_jsr
  jsr_address h small room =
      let (m', p, h') = jump-At h (short b0 b1) inside in
      let here : m.pc ≡ b.pc = ap (λ (x : Machine). x.pc) h.whole in
      let e : (m.pc + 1) % 2 ^ 32 ≡ b.pc + 1 = omega arith in
      (
        b.pc + 1,
        omega arith,
        rw (read_short-At h 1 b0 b1 e0 e1, e, p)
            (push-then _ _ _ h' (omega arith) λ m2 h2. ends h2),
      )
