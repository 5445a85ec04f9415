-- ===== src/Tests/Memory.antt =====
-- A heap of 8192 bytes at address 4096.
use cs_562_jvm.Base.{
  ℕ, [], ◌∷◌, ◌≡◌, refl, some, true, All, ◌<◌, ◌≤◌, ◌+◌, ◌-◌, arith, not, ◌==◌, List,
}
use cs_562_jvm.Heap.{
  Heap, areas, allocate_object, make_room, Sized, move_to_active_half, move_to_old_generation,
  bytes_of, is_in_old_heap,
}
use cs_562_jvm.Heap.Blocks.{IsHeap, Serves, allocate_object-Serves}
use cs_562_jvm.Heap.Areas.{blocks, Within, AreInOrder, blocks-IsRun}
use cs_562_jvm.Heap.Moves.{
  HasAreas, active_half, IsCopied, move_to_active_half-IsCopied, move_to_old_generation_lem,
}
use cs_562_jvm.Heap.Objects.{Memory, ClassInfo}
use cs_562_jvm.Indirection.{create_address_indirection_info}

abbrev small : Heap
small = areas 8192 4096

small-IsHeap : IsHeap small
small-IsHeap = record {
  eden_aligned = refl;
  eden_small = omega arith;
  next_aligned = refl;
  next_within = omega arith;
  young_behind = refl;
  mapped = omega arith;
}

abbrev no_collection : ℕ → Heap → Heap
no_collection mode h = h

allocate_object_example :
    (r : ℕ × Heap) × (allocate_object no_collection 112 small ≡ some r)
    × Serves 112 (make_room no_collection 112 (record small { allocation_lock = true })) r
allocate_object_example =
    allocate_object-Serves no_collection (λ mode h v. v) 112 small small-IsHeap refl

blocks_example :
    All (Within 4096 small.young1) (blocks (112 ∷ 1000 ∷ 2000 ∷ []) small)
    × AreInOrder (blocks (112 ∷ 1000 ∷ 2000 ∷ []) small)
blocks_example = blocks-IsRun (112 ∷ 1000 ∷ 2000 ∷ []) small small-IsHeap refl

abbrev an_object : Sized
an_object = record { object_size = 112; class_name = b'A' ∷ []; len = 0 }

object_bytes : bytes_of an_object ≡ 112
unfolding bytes_of
object_bytes = refl

small-HasAreas : HasAreas small
small-HasAreas = record {
  young1_end = refl;
  young2_end = refl;
  old_end = refl;
  old_within = omega arith;
  old_small = omega arith;
}

move_to_active_half_example :
    ((move_to_active_half small 4096 an_object).0 ≡ active_half small + 0)
    × ((move_to_active_half small 4096 an_object).1.young_next_pos ≡ 0 + bytes_of an_object)
    × IsCopied
        (bytes_of an_object)
        small
        4096
        (move_to_active_half small 4096 an_object).0
        (move_to_active_half small 4096 an_object).1
move_to_active_half_example =
    move_to_active_half-IsCopied small 4096 an_object (omega arith) (omega (arith, object_bytes))

move_to_old_generation_example :
    let r = move_to_old_generation small 4096 an_object in
    (bytes_of an_object ≤ 4096 - 0
      → (r.0 ≡ small.old + 0)
        × (r.1.old_next_pos ≡ 0 + bytes_of an_object)
        × IsCopied (bytes_of an_object) small 4096 r.0 r.1
        × (is_in_old_heap r.1 r.0 an_object ≡ not (r.0 + bytes_of an_object == small.end_heap)))
    × (4096 - 0 < bytes_of an_object → r ≡ (4096, small))
move_to_old_generation_example =
    move_to_old_generation_lem small 4096 an_object small-HasAreas (omega arith)

abbrev a_class : ClassInfo
a_class = record { id = 5; name = b'A' ∷ []; object_size = 120 }

abbrev new_memory : Memory
new_memory = record { table = create_address_indirection_info 512; heap = small }

-- two collections while the object is allocated
abbrev two_sweeps : Heap → List ℕ
two_sweeps h = 3 ∷ 0 ∷ []
