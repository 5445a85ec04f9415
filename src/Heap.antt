-- ===== src/Heap.antt =====
-- The heap (heap.c, ALIGN in utils.h): three areas in one mapping, and a position in each up to which it
-- is used. Addresses are numbers, NULL is 0. The calls of requestGC and savePoint are an argument. The
-- operations run one at a time; `allocation_lock` says that allocationMutex is held.
pub mod Blocks
pub mod Areas
pub mod Moves
pub mod Objects
use cs_562_jvm.Base.{
  ℕ, ◌+◌, ◌-◌, ◌*◌, ◌/◌, ◌%◌, ◌^◌, Bool, true, false, not, ◌&&◌, ◌||◌, Option, none, some, ltb, leb,
  if◌then◌else◌, signed32, wrap64,
}
use cs_562_jvm.Classfile.{Name, is_array_class, array_element_size}

-- The globals of heap.c. `memory` is the byte at each address.
pub record Heap : Type 0 where
  pub eden : ℕ
  pub young1 : ℕ
  pub young2 : ℕ
  pub old : ℕ
  pub end_heap : ℕ
  pub eden_size : ℕ
  pub young_size : ℕ
  pub old_size : ℕ
  pub using_first_young : Bool
  pub eden_next_pos : ℕ
  pub young_next_pos : ℕ
  pub old_next_pos : ℕ
  pub memory : ℕ → ℕ
  pub allocation_lock : Bool

-- The areas for a mapping of maxHeap bytes at `eden`, which holds zeros.
abbrev pub areas : ℕ → ℕ → Heap
areas max_heap eden =
    let eden_size = max_heap / 4 in
    let young_size = eden_size / 2 in
    let old_size = max_heap / 2 in
    record {
      eden = eden;
      young1 = eden + eden_size;
      young2 = eden + eden_size + young_size;
      old = eden + eden_size + young_size + young_size;
      end_heap = eden + eden_size + young_size + young_size + old_size;
      eden_size = eden_size;
      young_size = young_size;
      old_size = old_size;
      using_first_young = true;
      eden_next_pos = 0;
      young_next_pos = 0;
      old_next_pos = 0;
      memory = λ a. 0;
      allocation_lock = false;
    }

-- `mapped` is what mmap gives, and `creates` whether createAddressIndirectionInfo succeeds; the result is
-- the heap if initHeap returns true.
unfoldable pub init_heap : ℕ → Option ℕ → Bool → Option Heap
init_heap max_heap none creates = none
init_heap max_heap (some eden) creates = if creates then some (areas max_heap eden) else none

-- `ALIGN(x)`
unfoldable pub align : ℕ → ℕ
align x = (x + 7) / 8 * 8

-- a - b on size_t
abbrev pub minus : ℕ → ℕ → ℕ
minus a b = (a + (2 ^ 64 - b)) % 2 ^ 64

-- memset(…, 0, …)
unfoldable pub clear : (ℕ → ℕ) → ℕ → ℕ → ℕ → ℕ
clear memory start n a = if leb start a && ltb a (start + n) then 0 else memory a

-- memcpy
unfoldable pub copy : (ℕ → ℕ) → ℕ → ℕ → ℕ → ℕ → ℕ
copy memory target source n a =
    if leb target a && ltb a (target + n) then memory (source + (a - target)) else memory a

-- `class->objectSize + elementSize * numElements`, where the product is an int
unfoldable pub array_size : ℕ → ℕ → ℕ → ℕ
array_size object_size element_size num_elements =
    (object_size + wrap64 (signed32 (element_size * num_elements % 2 ^ 32))) % 2 ^ 64

-- `collect` is requestGC and savePoint, in the mode GC_MODE_MINOR_ONLY, 1, or GC_MODE_FORCE_MAJOR, 2.
module _ (collect : ℕ → Heap → Heap) where
  abbrev pub has_room : ℕ → Heap → Bool
  has_room size h = not (ltb (minus h.eden_size h.eden_next_pos) size)

  -- the heap after the collections that the size asks for
  unfoldable pub make_room : ℕ → Heap → Heap
  make_room size h =
      if has_room size h
      then h
      else (let minor = collect 1 h in if has_room size minor then minor else collect 2 minor)

  -- `eden + edenNextPos`, or NULL; the mutex is not unlocked then
  abbrev pub take_block : Bool → ℕ → Heap → ℕ × Heap
  take_block fill_zero size h =
      if has_room size h
      then (
        h.eden + h.eden_next_pos,
        record h {
          eden_next_pos = (h.eden_next_pos + align size) % 2 ^ 64;
          memory = if fill_zero then clear h.memory (h.eden + h.eden_next_pos) size else h.memory;
          allocation_lock = false;
        },
      )
      else (0, h)

  -- The result `none` is a wait for allocationMutex that does not end.
  abbrev pub allocate : Bool → ℕ → Heap → Option (ℕ × Heap)
  allocate fill_zero size h =
      if h.allocation_lock
      then none
      else some (take_block fill_zero size (make_room size (record h { allocation_lock = true })))

  unfoldable pub allocate_object : ℕ → Heap → Option (ℕ × Heap)
  allocate_object object_size h = allocate true object_size h

  unfoldable pub allocate_array_object : ℕ → ℕ → ℕ → Bool → Heap → Option (ℕ × Heap)
  allocate_array_object object_size element_size num_elements fill_zero h =
      allocate fill_zero (array_size object_size element_size num_elements) h

unfoldable pub switch_active_half : Heap → Heap
switch_active_half h = record h { using_first_young = not h.using_first_young; young_next_pos = 0 }

-- what the functions below read of an object: objectSize and name of its class, and its length
pub record Sized : Type 0 where
  pub object_size : ℕ
  pub class_name : Name
  pub len : ℕ

unfoldable pub bytes_of : Sized → ℕ
unfolding array_size is_array_class array_element_size
bytes_of o =
    if is_array_class o.class_name
    then array_size o.object_size (array_element_size o.class_name) o.len
    else o.object_size

unfoldable pub is_in_young_heap : Heap → ℕ → Sized → Bool
is_in_young_heap h obj o = leb h.young1 obj && ltb (obj + bytes_of o) h.old

unfoldable pub is_in_old_heap : Heap → ℕ → Sized → Bool
is_in_old_heap h obj o = leb h.old obj && ltb (obj + bytes_of o) h.end_heap

unfoldable pub is_in_heap : Heap → ℕ → Sized → Bool
is_in_heap h obj o = leb h.eden obj && ltb (obj + bytes_of o) h.end_heap

-- the object copied to `target` in the active half
abbrev pub copy_to_half : ℕ → Heap → ℕ → Sized → ℕ × Heap
copy_to_half target h obj o = (
  target,
  record h {
    memory = copy h.memory target obj (bytes_of o);
    young_next_pos = h.young_next_pos + bytes_of o;
  },
)

unfoldable pub move_to_active_half : Heap → ℕ → Sized → ℕ × Heap
move_to_active_half h obj o =
    if h.using_first_young
    then if ltb (obj + bytes_of o) h.young1 || leb h.young2 obj
      then copy_to_half (h.young1 + h.young_next_pos) h obj o
      else (obj, h)
    else if ltb (obj + bytes_of o) h.young2 || leb h.old obj
    then copy_to_half (h.young2 + h.young_next_pos) h obj o
    else (obj, h)

unfoldable pub move_to_old_generation : Heap → ℕ → Sized → ℕ × Heap
unfolding is_in_old_heap
move_to_old_generation h obj o =
    if is_in_old_heap h obj o
    then (obj, h)
    else if leb (bytes_of o) (minus h.old_size h.old_next_pos)
    then (
      h.old + h.old_next_pos,
      record h {
        memory = copy h.memory (h.old + h.old_next_pos) obj (bytes_of o);
        old_next_pos = h.old_next_pos + bytes_of o;
      },
    )
    else (obj, h)
