-- ===== src/Heap/Objects/Created.antt =====
-- newObject: the slot table and the heap work together.
use cs_562_jvm.Heap.Objects.Headers.{number_at}
use cs_562_jvm.Heap.Objects.{ClassInfo, Memory, get_object}
use cs_562_jvm.Base.{
  ◌∷◌, ℕ, ◌≡◌, ◌≢◌, ◌<◌, ◌+◌, ◌^◌, false, some, get_or, Option, ◌≤◌, none, ◌∷◌, ◌%◌,
}
use cs_562_jvm.Indirection.{Table}
use cs_562_jvm.Indirection.Invariant.{IsValid}
use cs_562_jvm.Heap.{Heap}
use cs_562_jvm.Heap.Blocks.{IsHeap}

-- the object_t at `a` names its class and its slot
abbrev pub HasHeader : ℕ → (ℕ → ℕ) → ℕ → ℕ → ℕ → Type 0
HasHeader lock_size memory a class slot =
    (number_at memory a 8 ≡ class % 2 ^ 64)
    × (number_at memory (a + 8 + lock_size) 4 ≡ slot % 2 ^ 32)

-- `a` is the block of eden behind what `h` has in use, which is in use in `h'`: a header, and zeros behind
-- the class, the lock and the slot
abbrev pub IsObject : ℕ → ClassInfo → ℕ → Heap → ℕ → Heap → Type 0
IsObject lock_size class slot h a h' =
    (a ≡ h.eden + h.eden_next_pos)
    × (a + class.object_size ≤ h'.eden + h'.eden_next_pos)
    × (h'.eden ≡ h.eden)
    × (h'.eden_size ≡ h.eden_size)
    × (h'.allocation_lock ≡ false)
    × HasHeader lock_size h'.memory a class.id slot
    × ((i : ℕ) → 12 + lock_size ≤ i → i < class.object_size → h'.memory (a + i) ≡ 0)

module _ (per_page lock_size lock_bits : ℕ) where
  -- an object was made: its slot, not used before, leads to its block of the heap; no other slot changed
  abbrev pub IsMade : ClassInfo → Memory → Heap → ℕ → Memory → Type 0
  IsMade class m h slot m' =
      (get_or m.table.addresses slot 0 ≡ 0)
      × IsObject lock_size class slot h (get_object per_page slot m') m'.heap
      × IsHeap m'.heap
      × ((j : ℕ) → j ≢ slot → get_or m'.table.addresses j 0 ≡ get_or m.table.addresses j 0)

  -- there was no room: all slots are as they were
  abbrev pub IsRefused : Memory → ℕ → Memory → Type 0
  IsRefused m slot m' =
      (slot ≡ 0)
      × IsValid per_page m'.table
      × ((j : ℕ) → get_or m'.table.addresses j 0 ≡ get_or m.table.addresses j 0)

  abbrev count_after : Option (ℕ × Table) → ℕ
  count_after none = 0
  count_after (some r) = r.1.num_fragmented_free
