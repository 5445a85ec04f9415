-- ===== src/Machine/Control.antt =====
-- Reads of instruction operands and jumps, on a machine whose frame is known.
use cs_562_jvm.Machine.Effects.{At}
use cs_562_jvm.Frame.View.{Entry}
use cs_562_jvm.Machine.{
  Machine, Frame, code_byte, read_byte_operand, read_short_operand, jump, from_frame, ok,
  read_int_operand,
}
use cs_562_jvm.Base.{
  ℕ, ◌+◌, ◌≡◌, arith, ℤ, pos_part, neg_part, signed16, ◌≤◌, get_elem?, List, ◌-◌, ◌*◌, some, ◌^◌,
  ap, signed8, leb, true, ◌∷◌, ◌∙◌, refl, signed32,
}

-- `b` with the program counter moved by `d`
abbrev pub moved : Machine → ℤ → Machine
moved b d = record b { pc = b.pc + pos_part d - neg_part d }

-- the target of a jump by `d` from `b` does not lie before the code
abbrev pub Reachable : Machine → ℤ → Type 0
Reachable b d = neg_part d ≤ b.pc + pos_part d

-- the code of `f` has the byte `v` at offset `i` from the program counter of `b`
abbrev pub CodeByte : Machine → Frame → ℕ → ℕ → Type 0
CodeByte b f i v = get_elem? f.code (b.pc + i) ≡ some v

-- the big-endian short with the bytes `b0` and `b1`
abbrev pub short : ℕ → ℕ → ℤ
short b0 b1 = signed16 (b0 * 2 ^ 8 + b1)

module _ {b : Machine} {f : Frame} {fs : List Frame} {s : List Entry} {m : Machine}
    (h : At b f fs s m) where
  pub code_byte-At : (i v : ℕ) → CodeByte b f i v → code_byte i m ≡ ok v m
  unfolding code_byte from_frame
  code_byte-At i v e =
      let found : get_elem? h.frame.code (b.pc + i) ≡ some v =
        ap (λ (g : Frame). get_elem? g.code (b.pc + i)) h.holds.same ∙ e in
      rw h.whole (rw (found, from_frame))

  pub read_byte-At : (i v : ℕ) → CodeByte b f i v → read_byte_operand i m ≡ ok (signed8 v) m
  unfolding read_byte_operand
  read_byte-At i v e = rw (code_byte-At i v e)

  pub read_short-At :
      (i b0 b1 : ℕ)
      → CodeByte b f i b0
      → CodeByte b f (i + 1) b1
      → read_short_operand i m ≡ ok (short b0 b1) m
  unfolding read_short_operand
  read_short-At i b0 b1 e0 e1 = rw (code_byte-At i b0 e0, code_byte-At (i + 1) b1 e1)

  pub jump-At :
      (d : ℤ) → Reachable b d → (m' : Machine) × (jump d m ≡ ok tt m') × At (moved b d) f fs s m'
  unfolding jump
  jump-At d inside =
      let t : leb (neg_part d) (b.pc + pos_part d) ≡ true = ground arith in
      (
        record (moved b d) { frames = h.frame ∷ fs },
        rw (h.whole, t),
        record { frame = h.frame; whole = refl; holds = h.holds },
      )

-- the big-endian int with four given bytes
abbrev pub int : ℕ → ℕ → ℕ → ℕ → ℤ
int b0 b1 b2 b3 = signed32 (((b0 * 2 ^ 8 + b1) * 2 ^ 8 + b2) * 2 ^ 8 + b3)

-- the code of `f` has the int `z` at offset `i` from the program counter of `b`
pub record IntAt (b : Machine) (f : Frame) (i : ℕ) (z : ℤ) : Type 0 where
  pub b0 : ℕ
  pub b1 : ℕ
  pub b2 : ℕ
  pub b3 : ℕ
  pub at0 : CodeByte b f i b0
  pub at1 : CodeByte b f (i + 1) b1
  pub at2 : CodeByte b f (i + 2) b2
  pub at3 : CodeByte b f (i + 3) b3
  pub value : int b0 b1 b2 b3 ≡ z

pub read_int-At :
    {b : Machine} {f : Frame} {fs : List Frame} {s : List Entry} {m : Machine} {i : ℕ} {z : ℤ}
    → At b f fs s m
    → IntAt b f i z
    → read_int_operand i m ≡ ok z m
unfolding read_int_operand
read_int-At {i} h e = rw (
  code_byte-At h i e.b0 e.at0,
  code_byte-At h (i + 1) e.b1 e.at1,
  code_byte-At h (i + 2) e.b2 e.at2,
  code_byte-At h (i + 3) e.b3 e.at3,
  e.value,
)

pub pc-At :
    {b : Machine} {f : Frame} {fs : List Frame} {s : List Entry} {m : Machine}
    → At b f fs s m
    → m.pc ≡ b.pc
pc-At h = ap (λ (x : Machine). x.pc) h.whole
