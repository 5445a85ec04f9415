-- ===== src/Heap/Objects.antt =====
-- Objects and arrays with a slot (mm.c): the slot table and the heap together. The result `none` is a
-- wait for a mutex that does not end, or undefined behaviour.
pub mod Headers
pub mod Created
use cs_562_jvm.Collector.{tidy_table}
use cs_562_jvm.Heap.{Heap, allocate_object, allocate_array_object}
use cs_562_jvm.Base.{
  ℕ, suc, zero, ◌+◌, ◌-◌, ◌*◌, ◌/◌, ◌%◌, ◌^◌, ◌==◌, ◌++◌, ◌||◌, Bool, true, false, Option, none,
  some, List, [], ◌∷◌, if◌then◌else◌, length, replicate, ltb, leb, ◌&&◌,
}
use cs_562_jvm.Frame.{option_bind}
use cs_562_jvm.Classfile.{Name, is_array_class, is_primitive_class, array_element_size}
use cs_562_jvm.Indirection.{Table, allocate_slot, free_slot, set_raw_address, get_raw_address}

pub record Memory : Type 0 where
  pub table : Table
  pub heap : Heap

-- what mm.c reads of a class, whose address is `id`
pub record ClassInfo : Type 0 where
  pub id : ℕ
  pub name : Name
  pub object_size : ℕ

-- a number stored at an address, in `n` bytes, the lowest first
abbrev pub write_bytes : ℕ → ℕ → ℕ → (ℕ → ℕ) → ℕ → ℕ
write_bytes a zero v memory b = memory b
write_bytes a (suc n) v memory b =
    let rest = write_bytes (a + 1) n (v / 2 ^ 8) memory b in if b == a then v % 2 ^ 8 else rest

-- `className` in newArray
unfoldable pub array_class_name : ℕ → Name → Name
unfolding is_array_class is_primitive_class
array_class_name dimensions name =
    if is_array_class name || is_primitive_class name
    then replicate dimensions b'[' ++ name
    else replicate dimensions b'[' ++ (b'L' ∷ name) ++ b';' ∷ []

-- the address of the object, or NULL; `per_page` is ADDR_PER_PAGE
unfoldable pub get_object : ℕ → ℕ → Memory → ℕ
get_object per_page slot m = get_raw_address per_page m.table slot

-- `lock_size` is the size of jlock_t, a multiple of 8, and `lock_bits` what jlock_init stores in it: both
-- depend on the mutex of pthreads. The members of object_t are the class (8 bytes), the lock, the slot and
-- the length (4 bytes each).
module _ (lock_size lock_bits : ℕ) where
  abbrev pub put_header : ℕ → ℕ → ℕ → (ℕ → ℕ) → ℕ → ℕ
  put_header class slot a memory =
      write_bytes (a + 8 + lock_size) 4 slot
        (write_bytes (a + 8) lock_size lock_bits (write_bytes a 8 class memory))

  abbrev pub put_length : ℕ → ℕ → (ℕ → ℕ) → ℕ → ℕ
  put_length size a memory = write_bytes (a + 12 + lock_size) 4 size memory

abbrev pub with_memory : (ℕ → ℕ) → Heap → Heap
with_memory memory h = record h { memory = memory }

-- what collections do to the slot table one after the other, by the number of times that malloc succeeds
-- in each
abbrev pub swept : ℕ → List ℕ → Table → Table
swept per_page [] t = t
swept per_page (mallocs ∷ sweeps) t = swept per_page sweeps (tidy_table per_page mallocs t)

-- `grows` is whether mremap succeeds, `mallocs n` whether malloc finds n bytes, `collect` is what the calls
-- of the collector do to the heap, and `sweeps` gives the collections that run during an allocation, which
-- also work on the slot table.
module _ (per_page : ℕ) (grows : Bool) (mallocs : ℕ → Bool) (lock_size lock_bits : ℕ)
    (collect : ℕ → Heap → Heap) (sweeps : Heap → List ℕ) where
  -- `freeSlot(addrIndInfo, slot); return 0`; a node of the free list takes 16 bytes
  abbrev pub give_back : ℕ → Memory → Option (ℕ × Memory)
  give_back slot m =
      option_bind (free_slot per_page (mallocs 16) m.table slot)
        λ r. some (0, record m { table = r.1 })

  -- the memory while the allocation runs
  abbrev pub collected : Table → Memory → Memory
  collected t m = record m { table = swept per_page (sweeps m.heap) t }

  -- the object at the address gets its slot and its header
  abbrev pub install : ClassInfo → ℕ → ℕ → Memory → Memory
  install class slot address m = record m {
    table = set_raw_address per_page m.table slot address;
    heap = with_memory (put_header lock_size lock_bits class.id slot address m.heap.memory) m.heap;
  }

  abbrev pub fill_object : ClassInfo → ℕ → Memory → ℕ × Heap → Option (ℕ × Memory)
  fill_object class slot m (address, h) =
      if address == 0
      then give_back slot (record m { heap = h })
      else some (slot, install class slot address (record m { heap = h }))

  unfoldable pub new_object : ClassInfo → Memory → Option (ℕ × Memory)
  unfolding tidy_table
  new_object class m = option_bind (allocate_slot per_page grows m.table) λ given.
      if given.0 == 0
      then some (0, record m { table = given.1 })
      else option_bind (allocate_object collect class.object_size m.heap)
          (fill_object class given.0 (collected given.1 m))

  -- the length is written behind the header
  abbrev pub install_array : ClassInfo → ℕ → ℕ → ℕ → Memory → Memory
  install_array class slot size address m =
      let installed = install class slot address m in
      record installed {
        heap =
            with_memory (put_length lock_size lock_bits size address installed.heap.memory)
              installed.heap;
      }

  abbrev pub fill_array : ClassInfo → ℕ → ℕ → Memory → ℕ × Heap → Option (ℕ × ℕ × Memory)
  fill_array class slot size m (address, h) =
      if address == 0
      then option_bind (give_back slot (record m { heap = h })) (λ r. some (0, 0, r.1))
      else some (slot, address, install_array class slot size address (record m { heap = h }))

  -- `load_class` is loadClass.
  module _ (load_class : Name → Option ClassInfo) where
    -- newArray up to the test of numDimensions: the slot, which is 0 if there is no array, and the
    -- address of the array
    unfoldable pub new_flat_array : ℕ → ℕ → ClassInfo → Memory → Option (ℕ × ℕ × Memory)
    unfolding array_class_name array_element_size tidy_table
    new_flat_array dimensions size class m =
        option_bind (allocate_slot per_page grows m.table) λ given.
          if given.0 == 0
          then some (0, 0, record m { table = given.1 })
          else if mallocs (dimensions + 3 + length class.name)
          then elim (load_class (array_class_name dimensions class.name)) [
            | none ↦
                option_bind (give_back given.0 (record m { table = given.1 }))
                  (λ r. some (0, 0, r.1))
            | some array ↦
                option_bind
                  (allocate_array_object collect array.object_size (array_element_size array.name)
                    size (dimensions == 1) m.heap)
                  (fill_array array given.0 size (collected given.1 m))
          ]
          else option_bind (give_back given.0 (record m { table = given.1 }))
              (λ r. some (0, 0, r.1))

    -- the loop over the elements of an array of arrays, which lie behind the object_t, from element `i` on, with `n` rounds left;
    -- `sub` makes one of them
    abbrev pub fill_elements :
        (Memory → Option (ℕ × Memory)) → ℕ → ℕ → ℕ → ℕ → Memory → Option (ℕ × Memory)
    fill_elements sub slot address i zero m = some (slot, m)
    fill_elements sub slot address i (suc n) m = option_bind (sub m) λ r.
        if r.0 == 0
        then some (0, r.1)
        else fill_elements sub slot address (suc i) n (record r.1 {
          heap = record r.1.heap {
            memory = write_bytes (address + (16 + lock_size) + 4 * i) 4 r.0 r.1.heap.memory;
          };
        })

    -- an int32_t as a number of rounds
    abbrev pub rounds : ℕ → ℕ
    rounds size = if ltb size (2 ^ 31) then size else 0

    -- The sizes are those from `sizes` on; a missing one is read behind the array.
    unfoldable pub new_array : ℕ → List ℕ → ClassInfo → Memory → Option (ℕ × Memory)
    new_array zero sizes class m = some (0, m)
    new_array (suc dimensions) [] class m = none
    new_array (suc dimensions) (size ∷ sizes) class m =
        option_bind (new_flat_array (suc dimensions) size class m) λ r.
          if (dimensions == 0) || (r.0 == 0)
          then some (r.0, r.2)
          else fill_elements (new_array dimensions sizes class) r.0 r.1 0 (rounds size) r.2
