-- ===== src/Machine/Locals.antt =====
-- Reads and writes of the local variables, on a machine whose frame is known.
use cs_562_jvm.Frame.View.{Entry, Holds}
use cs_562_jvm.Base.{
  List, ℕ, set, ◌≡◌, Option, ap, get_elem?, some, ◌<◌, ◌+◌, length, ltb, ◌∙◌, true, lt→ltb, refl,
}
use cs_562_jvm.Frame.{
  Frame, read_local, read_local2, write_local, write_local2, read_pair, write_pair,
}
use cs_562_jvm.Machine.Effects.{At, from_frame-At, on, write_frame-ok}
use cs_562_jvm.Machine.{Machine, from_frame, write_frame, ok}

-- `f` with its local variables replaced
abbrev pub with_locals : Frame → List ℕ → Frame
with_locals f ls = record f { locals = ls }

abbrev pub with_local : Frame → ℕ → ℕ → Frame
with_local f i v = with_locals f (set f.locals i v)

module _ {b : Machine} {f : Frame} {fs : List Frame} {s : List Entry} {m : Machine}
    (h : At b f fs s m) where
  same_locals : h.frame.locals ≡ f.locals
  same_locals = ap (λ (g : Frame). g.locals) h.holds.same

  pub read_local-At :
      (i v : ℕ) → get_elem? f.locals i ≡ some v → from_frame (read_local i) m ≡ ok v m
  unfolding read_local
  read_local-At i v e = from_frame-At _ h (ap (λ ls. get_elem? ls i) same_locals ∙ e)

  pub read_local2-At :
      (i v : ℕ) → read_pair f.locals i ≡ some v → from_frame (read_local2 i) m ≡ ok v m
  unfolding read_local2
  read_local2-At i v e = from_frame-At _ h (ap (λ ls. read_pair ls i) same_locals ∙ e)

  -- a frame that is `f` with other local variables, but for the operand stack
  relocated : (ls : List ℕ) → Holds (with_locals f ls) s (with_locals h.frame ls)
  relocated ls = record {
    same = ap (λ g. with_locals g ls) h.holds.same;
    cells = h.holds.cells;
    tags = h.holds.tags;
    fits = h.holds.fits;
    fits_tags = h.holds.fits_tags;
    view = h.holds.view;
  }

  write_locals-At :
      (r : Frame → Option Frame) (ls : List ℕ)
      → r h.frame ≡ some (with_locals h.frame ls)
      → (m' : Machine) × (write_frame r m ≡ ok tt m') × At b (with_locals f ls) fs s m'
  write_locals-At r ls e = (
    on b fs (with_locals h.frame ls),
    rw h.whole (write_frame-ok b fs r e),
    record { frame = with_locals h.frame ls; whole = refl; holds = relocated ls },
  )

  pub write_local-At :
      (i v : ℕ)
      → i < length f.locals
      → (m' : Machine) × (write_frame (write_local i v) m ≡ ok tt m')
        × At b (with_local f i v) fs s m'
  unfolding write_local
  write_local-At i v lt =
      let t : ltb i (length f.locals) ≡ true = lt→ltb _ _ lt in
      write_locals-At (write_local i v) (set f.locals i v) (rw (same_locals, t) refl)

  pub write_local2-At :
      (i v : ℕ)
      → i + 1 < length f.locals
      → (m' : Machine) × (write_frame (write_local2 i v) m ≡ ok tt m')
        × At b (with_locals f (write_pair f.locals i v)) fs s m'
  unfolding write_local2
  write_local2-At i v lt =
      let t : ltb (i + 1) (length f.locals) ≡ true = lt→ltb _ _ lt in
      write_locals-At (write_local2 i v) (write_pair f.locals i v) (rw (same_locals, t) refl)
