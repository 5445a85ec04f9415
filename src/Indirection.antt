-- ===== src/Indirection.antt =====
-- The table from slots to raw addresses (indirection.c, indirection_impl.h, garbage_collection.h).
-- Addresses are numbers, NULL is 0. What the allocator of the C library and mremap answer is an
-- argument. The operations run one at a time; `slot_lock` says that slotAllocationMutex is held, and
-- the result `none` is a wait for it that does not end.
pub mod Invariant
pub mod Handles
pub mod Capacity
pub mod Rebuild
use cs_562_jvm.Base.{
  ℕ, zero, suc, ◌+◌, ◌-◌, ◌*◌, ◌/◌, ◌%◌, ◌^◌, Bool, true, false, ◌&&◌, Option, none, some, List, [],
  ◌∷◌, ◌++◌, ltb, leb, ◌==◌, if◌then◌else◌, length, get_or, set, replicate, take, ℤ, pos, negsuc,
  not,
}

-- struct AddressIndirectionInfo. `free_slots` are the slots of the list freeSlot.
pub record Table : Type 0 where
  pub addresses : List ℕ
  pub free_slots : List ℕ
  pub num_fragmented_free : ℕ
  pub num_pages : ℕ
  pub num_addresses : ℕ
  pub slot_lock : Bool

-- `(void *) -1`
abbrev pub unset : ℕ
unset = 2 ^ 64 - 1

-- `((size_t) 1 << sizeof(slot_t)) - 1`, where sizeof(slot_t) is 4
abbrev pub slot_limit : ℕ
slot_limit = 2 ^ 4 - 1

-- `per_page` is ADDR_PER_PAGE, which depends on the page size of the machine.
module _ (per_page : ℕ) where
  abbrev pub max_num_addresses : Table → ℕ
  max_num_addresses t = t.num_pages * per_page

  unfoldable pub get_raw_address : Table → ℕ → ℕ
  get_raw_address t slot = if leb (max_num_addresses t) slot then 0 else get_or t.addresses slot 0

  unfoldable pub set_raw_address : Table → ℕ → ℕ → Table
  set_raw_address t slot address =
      if slot == 0
      then t
      else if leb (max_num_addresses t) slot
      then t
      else record t { addresses = set t.addresses slot address }

  -- a fresh page from mmap holds zeros
  unfoldable pub create_address_indirection_info : Table
  create_address_indirection_info = record {
    addresses = replicate (1 * per_page) 0;
    free_slots = [];
    num_fragmented_free = 0;
    num_pages = 1;
    num_addresses = 1;
    slot_lock = false;
  }

  -- the end of allocateSlot: the slot after the last one
  abbrev pub take_next : Table → ℕ × Table
  take_next t = (
    t.num_addresses,
    record t {
      addresses = set t.addresses t.num_addresses unset;
      num_addresses = t.num_addresses + 1;
    },
  )

  -- one more page
  abbrev pub add_page : Table → Table
  add_page t = record t {
    addresses = t.addresses ++ replicate per_page 0;
    num_pages = t.num_pages + 1;
  }

  -- the first slot of the free list
  abbrev pub reuse : ℕ → List ℕ → Table → Table
  reuse slot rest t = record t {
    addresses = set t.addresses slot unset;
    free_slots = rest;
    num_fragmented_free = (t.num_fragmented_free + (2 ^ 64 - 1)) % 2 ^ 64;
  }

  -- allocateSlot, by the free list; `grows` is whether mremap finds room for one more page
  abbrev pub allocate_from : Bool → List ℕ → Table → Option (ℕ × Table)
  allocate_from grows (slot ∷ rest) t = some (slot, reuse slot rest t)
  allocate_from grows [] t =
      if t.slot_lock
      then none
      else if t.num_addresses == max_num_addresses t
      then (if grows
          then some (take_next (add_page t))
          else some (0, record t { slot_lock = true }))
      else some (take_next t)

  unfoldable pub allocate_slot : Bool → Table → Option (ℕ × Table)
  allocate_slot grows t =
      if t.num_addresses == slot_limit then some (0, t) else allocate_from grows t.free_slots t

  -- freeSlot, after the address was cleared; `mallocs` is whether malloc succeeds
  abbrev pub release : Bool → ℕ → Table → ℤ × Table
  release mallocs slot t =
      if slot + 1 == t.num_addresses
      then (pos 0, record t { num_addresses = t.num_addresses - 1 })
      else if mallocs
      then (
        pos 0,
        record t {
          num_fragmented_free = (t.num_fragmented_free + 1) % 2 ^ 64;
          free_slots = slot ∷ t.free_slots;
        },
      )
      else (negsuc 0, record t { num_fragmented_free = (t.num_fragmented_free + 1) % 2 ^ 64 })

  unfoldable pub free_slot : Bool → Table → ℕ → Option (ℤ × Table)
  free_slot mallocs t slot =
      if slot == 0
      then some (pos 0, t)
      else if t.slot_lock
      then none
      else some (release mallocs slot (set_raw_address t slot 0))

-- rebuildFreeList.

-- `while(addressTable[n - 1] == NULL && n > 1) --n`
unfoldable pub trim : List ℕ → ℕ → ℕ
trim addresses zero = zero
trim addresses (suc zero) = suc zero
trim addresses (suc (suc n)) =
    let rest = trim addresses (suc n) in
    if get_or addresses (suc n) 0 == 0 then rest else suc (suc n)

-- `while(cur < n && addressTable[cur]) ++cur`, with `k` the number of slots left
unfoldable pub next_empty : List ℕ → ℕ → ℕ → ℕ
next_empty addresses zero cur = cur
next_empty addresses (suc k) cur =
    let rest = next_empty addresses k (suc cur) in if get_or addresses cur 0 == 0 then cur else rest

-- The loop over the free list: the slots that its nodes get, and the last value of curSlot. A node
-- gets curSlot, which is not moved on after that.
unfoldable pub reassign : List ℕ → ℕ → ℕ → List ℕ → List ℕ × ℕ
unfolding next_empty
reassign addresses n cur [] = ([], cur)
reassign addresses n cur (node ∷ nodes) =
    let cur' = next_empty addresses (n - cur) cur in
    let (slots, last) = reassign addresses n cur' nodes in
    if ltb cur' n then (cur' ∷ slots, last) else ([], cur')

-- The loop that follows. The source does not move on from an empty slot, so it prepends nodes for it
-- until malloc fails: `mallocs` is the number of times that malloc succeeds.
unfoldable pub append_empty : List ℕ → ℕ → ℕ → ℕ → List ℕ → List ℕ
unfolding next_empty
append_empty addresses n cur mallocs slots =
    let cur' = next_empty addresses (n - cur) cur in
    if ltb cur' n then replicate mallocs cur' ++ slots else slots

-- `mremap(addressTable, tableSize, newSize, 0)`: the entries of the pages that hold the first `n`
-- entries. The source leaves numPages as it is.
abbrev pub release_pages : ℕ → ℕ → List ℕ → List ℕ
release_pages per_page n addresses = take ((n + per_page - 1) / per_page * per_page) addresses

unfoldable pub rebuild_free_list : ℕ → ℕ → Table → Table
unfolding trim reassign append_empty
rebuild_free_list per_page mallocs t =
    let n = trim t.addresses t.num_addresses in
    let addresses = release_pages per_page n t.addresses in
    let (slots, cur) = reassign addresses n 1 t.free_slots in
    let all = append_empty addresses n cur mallocs slots in
    record t {
      addresses = addresses;
      num_addresses = n;
      free_slots = all;
      num_fragmented_free = length all;
    }
