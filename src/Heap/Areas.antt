-- ===== src/Heap/Areas.antt =====
-- Runs of allocateObject with the collector as it is, which moves nothing (_youngHeapGC and _oldHeapGC in
-- gc.c are empty).
use mathlib.Core.Path.{subst}
use cs_562_jvm.Heap.{Heap, make_room, allocate_object, has_room}
use cs_562_jvm.Base.{
  ℕ, ◌+◌, ◌≤◌, ◌≡◌, inl, inr, refl, true, false, Option, none, some, List, [], ◌∷◌, All, Bool-cases,
  if◌then◌else◌, ◌==◌, arith, ◌≢◌, ne→==,
}
use cs_562_jvm.Heap.Blocks.{IsHeap, Serves, allocate_object-Serves}

abbrev pub no_collection : ℕ → Heap → Heap
no_collection mode h = h

-- the blocks, address and size, that calls of allocateObject with these sizes give, up to the first
-- call that does not return
abbrev pub add_block : ℕ → (Heap → List (ℕ × ℕ)) → Option (ℕ × Heap) → List (ℕ × ℕ)
add_block size rest none = []
add_block size rest (some (a, h)) = if a == 0 then rest h else (a, size) ∷ rest h

unfoldable pub blocks : List ℕ → Heap → List (ℕ × ℕ)
blocks [] h = []
blocks (size ∷ sizes) h = add_block size (blocks sizes) (allocate_object no_collection size h)

-- a block from the first address on and below the second
abbrev pub Within : ℕ → ℕ → ℕ × ℕ → Type 0
Within start end b = (start ≤ b.0) × (b.0 + b.1 ≤ end)

abbrev pub Follows : ℕ × ℕ → ℕ × ℕ → Type 0
Follows b c = b.0 + b.1 ≤ c.0

abbrev pub AreInOrder : List (ℕ × ℕ) → Type 0
AreInOrder [] = Unit
AreInOrder (b ∷ bs) = All (Follows b) bs × AreInOrder bs

all_later : (bs : List (ℕ × ℕ)) (s t e : ℕ) → t ≤ s → All (Within s e) bs → All (Within t e) bs
all_later [] s t e h a = tt
all_later (b ∷ bs) s t e h a = ((omega (arith, h, a.0.0), a.0.1), all_later bs s t e h a.1)

all_follow :
    (bs : List (ℕ × ℕ)) (b : ℕ × ℕ) (s e : ℕ)
    → b.0 + b.1 ≤ s
    → All (Within s e) bs
    → All (Follows b) bs
all_follow [] b s e h a = tt
all_follow (c ∷ bs) b s e h a = (omega (arith, h, a.0.0), all_follow bs b s e h a.1)

make_room_none : (size : ℕ) (h : Heap) → make_room no_collection size h ≡ h
unfolding make_room
make_room_none size h = elim (Bool-cases (has_room no_collection size h)) [
  | inl t ↦ rw (t) refl
  | inr f ↦ rw (f) refl
]

abbrev IsRun : Heap → List (ℕ × ℕ) → Type 0
IsRun h bs = All (Within (h.eden + h.eden_next_pos) h.young1) bs × AreInOrder bs

locked_run : (sizes : List ℕ) (h : Heap) → h.allocation_lock ≡ true → blocks sizes h ≡ []
unfolding blocks allocate_object
locked_run [] h e = refl
locked_run (size ∷ sizes) h e = rw (e) refl

-- For a well-formed heap whose mutex is free: the blocks that a sequence of calls of allocateObject
-- gives lie in the part of eden that was not in use, one behind the other, so that no two of them
-- overlap.
pub blocks-IsRun :
    (sizes : List ℕ) (h : Heap)
    → IsHeap h
    → h.allocation_lock ≡ false
    → All (Within (h.eden + h.eden_next_pos) h.young1) (blocks sizes h)
      × AreInOrder (blocks sizes h)
unfolding blocks
blocks-IsRun [] h v f = (tt, tt)
blocks-IsRun (size ∷ sizes) h v f =
    let s = allocate_object-Serves no_collection (λ mode h v. v) size h v f in
    let q =
      subst (λ h'. Serves size h' s.0) (make_room_none size (record h { allocation_lock = true }))
        s.2 in
    rw (s.1) (elim q [
      | inl b ↦
          let z : s.0.0 ≢ 0 = λ e. absurd (omega (arith, e, b.0.0, v.mapped)) in
          let i = blocks-IsRun sizes s.0.1 b.2 b.0.5 in
          rw (ne→== s.0.0 0 z) (
            (
              (omega (arith, b.0.0), omega (arith, b.0.0, b.1, v.young_behind, v.next_within)),
              all_later (blocks sizes s.0.1) (s.0.1.eden + s.0.1.eden_next_pos)
                  (h.eden + h.eden_next_pos) h.young1 (omega (arith, b.0.0, b.0.1))
                  (subst
                    (λ y. All (Within (s.0.1.eden + s.0.1.eden_next_pos) y) (blocks sizes s.0.1))
                    (omega (arith, v.young_behind, b.2.young_behind, b.0.2, b.0.3)) i.0),
            ),
            (
              all_follow (blocks sizes s.0.1) (s.0.0, size) (s.0.1.eden + s.0.1.eden_next_pos)
                  s.0.1.young1 b.0.1 i.0,
              i.1,
            ),
          )
      | inr n ↦ rw (n.0, locked_run sizes s.0.1 n.2) (tt, tt)
    ])
