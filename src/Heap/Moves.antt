-- ===== src/Heap/Moves.antt =====
-- Objects that the collector moves, and in which area they are found.
use cs_562_jvm.Heap.{
  Heap, copy, move_to_active_half, move_to_old_generation, Sized, is_in_old_heap, bytes_of,
}
use cs_562_jvm.Base.{
  ℕ, ◌+◌, ◌-◌, ◌≤◌, ◌<◌, ◌^◌, ◌≡◌, ◌⊎◌, inl, inr, refl, true, false, Bool-cases, if◌then◌else◌, ltb,
  leb, arith, ◌&&◌, not, ◌||◌, ◌==◌,
}
use cs_562_jvm.Heap.Blocks.{minus-lem}

-- the areas follow each other, and the old generation is in use up to a place in its bounds
pub record HasAreas (h : Heap) : Type 0 where
  pub young1_end : h.young2 ≡ h.young1 + h.young_size
  pub young2_end : h.old ≡ h.young2 + h.young_size
  pub old_end : h.end_heap ≡ h.old + h.old_size
  pub old_within : h.old_next_pos ≤ h.old_size
  pub old_small : h.old_size < 2 ^ 63

-- where the active half of the young generation begins
abbrev pub active_half : Heap → ℕ
active_half h = if h.using_first_young then h.young1 else h.young2

copied :
    (memory : ℕ → ℕ) (target source n i : ℕ)
    → i < n
    → copy memory target source n (target + i) ≡ memory (source + i)
unfolding copy
copied memory target source n i h =
    let e : target + i - target ≡ i = omega arith in
    let inside : (leb target (target + i) && ltb (target + i) (target + n)) ≡ true = ground arith in
    rw (inside, e) refl

not_copied :
    (memory : ℕ → ℕ) (target source n a : ℕ)
    → (a < target) ⊎ (target + n ≤ a)
    → copy memory target source n a ≡ memory a
unfolding copy
not_copied memory target source n a h =
    let outside : (leb target a && ltb a (target + n)) ≡ false = ground arith in rw (outside) refl

-- the object at `obj` is at `a` after the move: the same bytes, and the other bytes as they were
abbrev pub IsCopied : ℕ → Heap → ℕ → ℕ → Heap → Type 0
IsCopied size h obj a h' =
    ((i : ℕ) → i < size → h'.memory (a + i) ≡ h.memory (obj + i))
    × ((b : ℕ) → (b < a) ⊎ (a + size ≤ b) → h'.memory b ≡ h.memory b)

-- An object that ends before the first byte of the young generation is copied by moveToActiveHalf to the
-- place in the active half up to which it is in use, whichever half is active; the half is in use by
-- the object's size more, and no other byte of memory changes.
pub move_to_active_half-IsCopied :
    (h : Heap) (obj : ℕ) (o : Sized)
    → h.young1 ≤ h.young2
    → obj + bytes_of o < h.young1
    → let r = move_to_active_half h obj o in
      (r.0 ≡ active_half h + h.young_next_pos)
      × (r.1.young_next_pos ≡ h.young_next_pos + bytes_of o)
      × IsCopied (bytes_of o) h obj r.0 r.1
unfolding move_to_active_half
move_to_active_half-IsCopied h obj o v l =
    let first : (ltb (obj + bytes_of o) h.young1 || leb h.young2 obj) ≡ true = ground arith in
    let second : (ltb (obj + bytes_of o) h.young2 || leb h.old obj) ≡ true = ground arith in
    elim (Bool-cases h.using_first_young) [
      | inl t ↦
          rw (t, first)
            (
              refl,
              refl,
              (
                λ i k. copied h.memory (h.young1 + h.young_next_pos) obj (bytes_of o) i k,
                λ b k. not_copied h.memory (h.young1 + h.young_next_pos) obj (bytes_of o) b k,
              ),
            )
      | inr f ↦
          rw (f, second)
            (
              refl,
              refl,
              (
                λ i k. copied h.memory (h.young2 + h.young_next_pos) obj (bytes_of o) i k,
                λ b k. not_copied h.memory (h.young2 + h.young_next_pos) obj (bytes_of o) b k,
              ),
            )
    ]

at_end :
    (old next end_heap size : ℕ)
    → old + next + size ≤ end_heap
    → (leb old (old + next) && ltb (old + next + size) end_heap)
      ≡ not (old + next + size == end_heap)
at_end old next end_heap size h = ground arith

-- moveToOldGeneration of an object in front of the old generation. With room it copies the object to
-- the place up to which the old generation is in use. After that isInOldHeap finds the object there,
-- unless it ends with the last byte of the heap: such an object isInOldHeap takes for one of another
-- area. Without room nothing changes.
pub move_to_old_generation_lem :
    (h : Heap) (obj : ℕ) (o : Sized)
    → HasAreas h
    → obj < h.old
    → let r = move_to_old_generation h obj o in
      (bytes_of o ≤ h.old_size - h.old_next_pos
        → (r.0 ≡ h.old + h.old_next_pos)
          × (r.1.old_next_pos ≡ h.old_next_pos + bytes_of o)
          × IsCopied (bytes_of o) h obj r.0 r.1
          × (is_in_old_heap r.1 r.0 o ≡ not (r.0 + bytes_of o == h.end_heap)))
      × (h.old_size - h.old_next_pos < bytes_of o → r ≡ (obj, h))
unfolding move_to_old_generation is_in_old_heap
move_to_old_generation_lem h obj o v l =
    let outside : (leb h.old obj && ltb (obj + bytes_of o) h.end_heap) ≡ false = ground arith in
    let e = minus-lem h.old_size h.old_next_pos v.old_within v.old_small in
    (
      (λ k.
          let fits : leb (bytes_of o) (h.old_size - h.old_next_pos) ≡ true = ground arith in
          rw (outside, e, fits)
            (
              refl,
              refl,
              (
                λ i q. copied h.memory (h.old + h.old_next_pos) obj (bytes_of o) i q,
                λ b q. not_copied h.memory (h.old + h.old_next_pos) obj (bytes_of o) b q,
              ),
              at_end h.old h.old_next_pos h.end_heap (bytes_of o)
                  (omega (arith, k, v.old_end, v.old_within)),
            )),
      λ k.
          let full : leb (bytes_of o) (h.old_size - h.old_next_pos) ≡ false = ground arith in
          rw (outside, e, full) refl,
    )
