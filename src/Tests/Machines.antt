-- ===== src/Tests/Machines.antt =====
-- Machines to run instructions on.
use cs_562_jvm.Base.{ℕ, List, [], ◌∷◌, none, ◌≤◌, length, refl}
use cs_562_jvm.Frame.{Frame}
use cs_562_jvm.Machine.{Machine}
use cs_562_jvm.Machine.Effects.{At, on}
use cs_562_jvm.Frame.View.{entries, Holds}

-- a frame with the operands 7, 9, 3 and 5 in its cells, all ints, and three local variables
abbrev pub frame : List ℕ → Frame
frame code = record {
  locals = 40 ∷ 41 ∷ 42 ∷ [];
  types = 4 ∷ 4 ∷ 4 ∷ 4 ∷ 4 ∷ 4 ∷ 4 ∷ 4 ∷ 4 ∷ 4 ∷ [];
  operands = 7 ∷ 9 ∷ 3 ∷ 5 ∷ 0 ∷ 0 ∷ 0 ∷ 0 ∷ 0 ∷ 0 ∷ [];
  top = 0;
  code = code;
  prev_pc = 17;
}

-- a machine with no objects, before an instruction at `pc`
abbrev pub machine : ℕ → Machine
machine pc = record { frames = []; pc = pc; objects = λ slot. none; exception = none }

abbrev pub with_height : Frame → ℕ → Frame
with_height f n = record f { top = n }

-- the first `n` cells of a frame, as entries
pub filled :
    (f : Frame) (n : ℕ)
    → n ≤ length f.operands
    → n ≤ length f.types
    → Holds f (entries f.operands f.types n) (with_height f n)
filled f n h k = record {
  same = refl;
  cells = refl;
  tags = refl;
  fits = h;
  fits_tags = k;
  view = refl;
}

-- the machine whose operand stack holds the first `n` cells of the current frame
pub standing :
    (b : Machine) (f : Frame) (fs : List Frame) (n : ℕ)
    → n ≤ length f.operands
    → n ≤ length f.types
    → At b f fs (entries f.operands f.types n) (on b fs (with_height f n))
standing b f fs n h k = record { frame = with_height f n; whole = refl; holds = filled f n h k }
