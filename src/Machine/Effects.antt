-- ===== src/Machine/Effects.antt =====
-- What the lifted accessors do to the machine, in terms of the operand stack as a list of entries.
use cs_562_jvm.Base.{
  ℤ, ◌≤◌, ℕ, ◌+◌, ◌*◌, ◌^◌, ◌≡◌, refl, ◌<◌, Option, some, List, ◌∷◌, length, arith, none,
}
use cs_562_jvm.Frame.{
  Frame, low_half, high_half, pop_operand, pop_operand_typed, pop_operand2, push_operand,
  push_operand2, peek_operand_type,
}
use cs_562_jvm.Frame.View.{
  Entry, Holds, pop_operand-Holds, pop_operand2-Holds, push_operand-Holds, push_operand2-Holds,
  peek_operand_type-Holds,
}
use cs_562_jvm.Machine.{
  Machine, M, ok, update_frame, write_frame, pop, pop_typed, pop2, push, push2, Run, and_then,
  from_frame, fault,
}

-- `m` is `b` with a current frame that is `f` but for its operand stack, which holds `s`. The
-- calling frames are `fs`.
pub record At (b : Machine) (f : Frame) (fs : List Frame) (s : List Entry) (m : Machine)
    : Type 0 where
  pub frame : Frame
  pub whole : m ≡ record b { frames = frame ∷ fs }
  pub holds : Holds f s frame

-- the run `x` ends normally, with the result `r`, and leaves the entries `s`
abbrev pub Ends : Machine → Frame → List Frame → List Entry → ℤ → Run ℤ → Type 0
Ends b f fs s r x = (m' : Machine) × (x ≡ ok r m') × At b f fs s m'

-- the run of `c` returns `r` and leaves the entries `s`
abbrev pub Leaves : Machine → Frame → List Frame → List Entry → M ℤ → ℤ → Machine → Type 0
Leaves b f fs s c r m = Ends b f fs s r (c m)

-- `k` more entries than `s` fit into the operand stack of `f`
abbrev pub Room : Frame → List Entry → ℕ → Type 0
Room f s k = (length s + k ≤ length f.operands) × (length s + k ≤ length f.types)

-- the two cells of the double cell `v` above `s`
abbrev pub long : ℕ → ℕ → List Entry → List Entry
long v t s = (high_half v, t) ∷ (low_half v, t) ∷ s

-- `b` with the frame `g` above the frames `fs`
abbrev pub on : Machine → List Frame → Frame → Machine
on b fs g = record b { frames = g ∷ fs }

module _ (b : Machine) (fs : List Frame) where
  pub update_frame-ok {ℓ} :
      {A : Type ℓ} (r : Frame → Option (A × Frame)) {g g' : Frame} {a : A}
      → r g ≡ some (a, g')
      → update_frame r (on b fs g) ≡ ok a (on b fs g')
  unfolding update_frame
  update_frame-ok r e = rw e

  pub write_frame-ok :
      (r : Frame → Option Frame) {g g' : Frame}
      → r g ≡ some g'
      → write_frame r (on b fs g) ≡ ok tt (on b fs g')
  unfolding write_frame
  write_frame-ok r e = rw e

module _ {b : Machine} {f : Frame} {fs : List Frame} where
  module _ {s : List Entry} {m : Machine} where
    pub pop-At :
        {v t : ℕ}
        → At b f fs ((v, t) ∷ s) m
        → (m' : Machine) × (pop m ≡ ok v m') × (pop_typed m ≡ ok (v, t) m') × At b f fs s m'
    pop-At h =
        let (g', p, q, h') = pop_operand-Holds h.holds in
        (
          on b fs g',
          rw h.whole (update_frame-ok b fs pop_operand p),
          rw h.whole (update_frame-ok b fs pop_operand_typed q),
          record { frame = g'; whole = refl; holds = h' },
        )

    pub pop2-At :
        {hi lo t u : ℕ}
        → At b f fs ((hi, t) ∷ (lo, u) ∷ s) m
        → (m' : Machine) × (pop2 m ≡ ok (lo + hi * 2 ^ 32) m') × At b f fs s m'
    pop2-At h =
        let (g', p, h') = pop_operand2-Holds h.holds in
        (
          on b fs g',
          rw h.whole (update_frame-ok b fs pop_operand2 p),
          record { frame = g'; whole = refl; holds = h' },
        )

    module _ (v t : ℕ) (h : At b f fs s m) where
      pub push-At :
          length s < length f.operands
          → length s < length f.types
          → (m' : Machine) × (push v t m ≡ ok tt m') × At b f fs ((v, t) ∷ s) m'
      push-At room room_tags =
          let (g', p, h') = push_operand-Holds v t h.holds room room_tags in
          (
            on b fs g',
            rw h.whole (write_frame-ok b fs (push_operand v t) p),
            record { frame = g'; whole = refl; holds = h' },
          )

      pub push2-At :
          length s + 1 < length f.operands
          → length s + 1 < length f.types
          → (m' : Machine) × (push2 v t m ≡ ok tt m')
            × At b f fs ((high_half v, t) ∷ (low_half v, t) ∷ s) m'
      push2-At room room_tags =
          let (g', p, h') = push_operand2-Holds v t h.holds room room_tags in
          (
            on b fs g',
            rw h.whole (write_frame-ok b fs (push_operand2 v t) p),
            record { frame = g'; whole = refl; holds = h' },
          )

  -- a read of the current frame changes nothing
  pub from_frame-At {ℓ} :
      {s : List Entry} {m : Machine} {A : Type ℓ} (r : Frame → Option A) {a : A} (h : At b f fs s m)
      → r h.frame ≡ some a
      → from_frame r m ≡ ok a m
  unfolding from_frame
  from_frame-At r h e = rw h.whole (rw (e, from_frame))

  pub from_frame-none {ℓ} :
      {s : List Entry} {m : Machine} {A : Type ℓ} (r : Frame → Option A) (h : At b f fs s m)
      → r h.frame ≡ none
      → from_frame r m ≡ fault
  unfolding from_frame
  from_frame-none r h e = rw h.whole (rw (e, from_frame))

  pub peek_type-At :
      {s : List Entry} {m : Machine} {v t : ℕ}
      → At b f fs ((v, t) ∷ s) m
      → from_frame (peek_operand_type 0) m ≡ ok t m
  peek_type-At h = from_frame-At _ h (peek_operand_type-Holds h.holds)

-- Rules for the steps of a handler: the machine behind a step is a variable of the proof of the rest.
module _ {b b' : Machine} {f f' : Frame} {fs fs' : List Frame} {s s' : List Entry} {r : ℤ}
    {m : Machine} where
  pub pop-then :
      {v t : ℕ} (k : ℕ → M ℤ)
      → At b f fs ((v, t) ∷ s) m
      → ((m' : Machine) → At b f fs s m' → Ends b' f' fs' s' r (k v m'))
      → Ends b' f' fs' s' r (and_then (pop m) k)
  pop-then k h next = let (m', p, _, h') = pop-At h in rw p (next m' h')

  pub pop_typed-then :
      {v t : ℕ} (k : ℕ × ℕ → M ℤ)
      → At b f fs ((v, t) ∷ s) m
      → ((m' : Machine) → At b f fs s m' → Ends b' f' fs' s' r (k (v, t) m'))
      → Ends b' f' fs' s' r (and_then (pop_typed m) k)
  pop_typed-then k h next = let (m', _, p, h') = pop-At h in rw p (next m' h')

  pub pop2-then :
      {hi lo t u : ℕ} (k : ℕ → M ℤ)
      → At b f fs ((hi, t) ∷ (lo, u) ∷ s) m
      → ((m' : Machine) → At b f fs s m' → Ends b' f' fs' s' r (k (lo + hi * 2 ^ 32) m'))
      → Ends b' f' fs' s' r (and_then (pop2 m) k)
  pop2-then k h next = let (m', p, h') = pop2-At h in rw p (next m' h')

  pub push-then :
      (v t : ℕ) (k : Unit {0} → M ℤ)
      → At b f fs s m
      → (length s < length f.operands) × (length s < length f.types)
      → ((m' : Machine) → At b f fs ((v, t) ∷ s) m' → Ends b' f' fs' s' r (k tt m'))
      → Ends b' f' fs' s' r (and_then (push v t m) k)
  push-then v t k h room next = let (m', p, h') = push-At v t h room.0 room.1 in rw p (next m' h')

  pub push2-then :
      (v t : ℕ) (k : Unit {0} → M ℤ)
      → At b f fs s m
      → (length s + 1 < length f.operands) × (length s + 1 < length f.types)
      → ((m' : Machine) → At b f fs (long v t s) m' → Ends b' f' fs' s' r (k tt m'))
      → Ends b' f' fs' s' r (and_then (push2 v t m) k)
  push2-then v t k h room next = let (m', p, h') = push2-At v t h room.0 room.1 in rw p (next m' h')

pub ends :
    {b : Machine} {f : Frame} {fs : List Frame} {s : List Entry} {r : ℤ} {m : Machine}
    → At b f fs s m
    → Ends b f fs s r (ok r m)
ends {m} h = (m, refl, h)

-- The halves of a double cell make up its pattern.
pub low-high : (v : ℕ) → low_half v + high_half v * 2 ^ 32 ≡ v
low-high v = omega arith
