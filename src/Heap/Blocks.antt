-- ===== src/Heap/Blocks.antt =====
-- What allocateObject gives: blocks of eden that do not overlap.
use cs_562_jvm.Heap.{
  Heap, init_heap, align, minus, clear, areas, take_block, has_room, make_room, allocate_object,
}
use cs_562_jvm.Base.{
  ℕ, ◌+◌, ◌-◌, ◌%◌, ◌^◌, ◌≤◌, ◌<◌, ◌≡◌, ◌⊎◌, inl, inr, refl, true, false, some, Bool-cases, ltb,
  arith, not, ap, sym, ◌∙◌,
}

-- eden is in use up to a multiple of 8 bytes, which is in its bounds
pub record IsHeap (h : Heap) : Type 0 where
  pub eden_aligned : h.eden_size % 8 ≡ 0
  pub eden_small : h.eden_size < 2 ^ 63
  pub next_aligned : h.eden_next_pos % 8 ≡ 0
  pub next_within : h.eden_next_pos ≤ h.eden_size
  pub young_behind : h.young1 ≡ h.eden + h.eden_size
  pub mapped : 0 < h.eden

-- For a heap size that is a multiple of 4096, as the program wants it, and less than 2^63 bytes, the new
-- heap is well formed: its areas follow each other, end within the mapping, and eden holds a multiple of
-- 8 bytes.
pub init_heap-IsHeap :
    (max_heap eden : ℕ)
    → max_heap % 4096 ≡ 0
    → max_heap < 2 ^ 63
    → 0 < eden
    → (h : Heap) × (init_heap max_heap (some eden) true ≡ some h)
      × IsHeap h
      × (h.young2 ≡ h.young1 + h.young_size)
      × (h.old ≡ h.young2 + h.young_size)
      × (h.end_heap ≡ h.old + h.old_size)
      × (h.end_heap ≡ eden + max_heap)
unfolding init_heap
init_heap-IsHeap max_heap eden a l p = (
  areas max_heap eden,
  refl,
  record {
    eden_aligned = omega (arith, a);
    eden_small = omega (arith, l);
    next_aligned = refl;
    next_within = omega arith;
    young_behind = refl;
    mapped = p;
  },
  refl,
  refl,
  refl,
  omega (arith, a),
)

align-le : (n : ℕ) → n ≤ align n
unfolding align
align-le n = omega arith

align_fits : (n m : ℕ) → n ≤ m → m % 8 ≡ 0 → align n ≤ m
unfolding align
align_fits n m h a = omega (arith, h, a)

align_multiple : (n m : ℕ) → m % 8 ≡ 0 → (m + align n) % 8 ≡ 0
unfolding align
align_multiple n m a = omega (arith, a)

pub minus-lem : (a b : ℕ) → b ≤ a → a < 2 ^ 63 → minus a b ≡ a - b
minus-lem a b h l = omega (arith, h, l)

-- the block at `a` lies in eden behind what was used before, and is taken: `h'` is in use behind it
abbrev pub IsBlock : ℕ → Heap → ℕ → Heap → Type 0
IsBlock size h a h' =
    (a ≡ h.eden + h.eden_next_pos)
    × (a + size ≤ h'.eden + h'.eden_next_pos)
    × (h'.eden ≡ h.eden)
    × (h'.eden_size ≡ h.eden_size)
    × ((i : ℕ) → i < size → h'.memory (a + i) ≡ 0)
    × (h'.allocation_lock ≡ false)

cleared : (memory : ℕ → ℕ) (a n i : ℕ) → i < n → clear memory a n (a + i) ≡ 0
unfolding clear
cleared memory a n i h = ground arith

not-ltb_false : (a b : ℕ) → not (ltb a b) ≡ true → b ≤ a
not-ltb_false a b h = ground arith

-- an allocation of `size` bytes that found the heap `h` after its collections: it gives a block of eden,
-- and leaves the heap well formed; or NULL, and the mutex stays locked
abbrev pub Serves : ℕ → Heap → ℕ × Heap → Type 0
Serves size h r =
    (IsBlock size h r.0 r.1 × (size ≤ h.eden_size - h.eden_next_pos) × IsHeap r.1)
    ⊎ ((r.0 ≡ 0)
        × (h.eden_size - h.eden_next_pos < size)
        × (r.1.allocation_lock ≡ h.allocation_lock))

pub locked : (h : Heap) → IsHeap h → IsHeap (record h { allocation_lock = true })
locked h v = record {
  eden_aligned = v.eden_aligned;
  eden_small = v.eden_small;
  next_aligned = v.next_aligned;
  next_within = v.next_within;
  young_behind = v.young_behind;
  mapped = v.mapped;
}

ltb_of_not : (a b : ℕ) → not (ltb a b) ≡ false → a < b
ltb_of_not a b h = ground arith

module _ (collect : ℕ → Heap → Heap) where
  room_iff :
      (size : ℕ) (h : Heap)
      → IsHeap h
      → has_room collect size h ≡ not (ltb (h.eden_size - h.eden_next_pos) size)
  room_iff size h v =
      ap (λ n. not (ltb n size)) (minus-lem h.eden_size h.eden_next_pos v.next_within v.eden_small)

  IsBlock-taken :
      (size : ℕ) (h : Heap)
      → IsHeap h
      → size ≤ h.eden_size - h.eden_next_pos
      → has_room collect size h ≡ true
      → IsBlock size h (take_block collect true size h).0 (take_block collect true size h).1
        × IsHeap (take_block collect true size h).1
  IsBlock-taken size h v l r =
      let fits =
        align_fits size (h.eden_size - h.eden_next_pos) l
          (omega (arith, v.eden_aligned, v.next_aligned, v.next_within)) in
      let e : (h.eden_next_pos + align size) % 2 ^ 64 ≡ h.eden_next_pos + align size =
        omega (arith, fits, v.eden_small, v.next_within) in
      rw (r, e)
        (
          (
            refl,
            omega (arith, align-le size),
            refl,
            refl,
            λ i k. cleared h.memory (h.eden + h.eden_next_pos) size i k,
            refl,
          ),
          record {
            eden_aligned = v.eden_aligned;
            eden_small = v.eden_small;
            next_aligned = align_multiple size h.eden_next_pos v.next_aligned;
            next_within = omega (arith, fits, v.next_within);
            young_behind = v.young_behind;
            mapped = v.mapped;
          },
        )

  take_block-Serves :
      (size : ℕ) (h : Heap) → IsHeap h → Serves size h (take_block collect true size h)
  take_block-Serves size h v = elim (Bool-cases (has_room collect size h)) [
    | inl t ↦
        let l = not-ltb_false (h.eden_size - h.eden_next_pos) size (sym (room_iff size h v) ∙ t) in
        let b = IsBlock-taken size h v l t in inl (b.0, l, b.1)
    | inr f ↦ inr (
      rw (f) refl,
      ltb_of_not (h.eden_size - h.eden_next_pos) size (sym (room_iff size h v) ∙ f),
      rw (f) refl,
    )
  ]

  module _ (keeps : (mode : ℕ) (h : Heap) → IsHeap h → IsHeap (collect mode h)) where
    pub make_room-IsHeap : (size : ℕ) (h : Heap) → IsHeap h → IsHeap (make_room collect size h)
    unfolding make_room
    make_room-IsHeap size h v = elim (Bool-cases (has_room collect size h)) [
      | inl t ↦ rw (t) v
      | inr f ↦ elim (Bool-cases (has_room collect size (collect 1 h))) [
        | inl t ↦ rw (f, t) (keeps 1 h v)
        | inr g ↦ rw (f, g) (keeps 2 (collect 1 h) (keeps 1 h v))
      ]
    ]

    -- If the collector keeps heaps well formed: on a well-formed heap whose mutex is free, allocateObject
    -- either gives a block behind what eden has in use after the collections, of zeros, within eden, and
    -- the heap is well formed with the mutex free; or there is still no room after them, and it
    -- gives NULL and leaves the mutex as the collections left it.
    pub allocate_object-Serves :
        (size : ℕ) (h : Heap)
        → IsHeap h
        → h.allocation_lock ≡ false
        → (r : ℕ × Heap) × (allocate_object collect size h ≡ some r)
          × Serves size (make_room collect size (record h { allocation_lock = true })) r
    unfolding allocate_object
    allocate_object-Serves size h v f =
        let h' = make_room collect size (record h { allocation_lock = true }) in
        (
          take_block collect true size h',
          rw (f) refl,
          take_block-Serves size h' (make_room-IsHeap size _ (locked h v)),
        )
