-- ===== src/Tests/Table.antt =====
-- The table of addresses with two entries on a page.
use cs_562_jvm.Indirection.Handles.{
  IsGiven, allocate_slot-IsGiven, IsTaken, allocate_slot-free_slot, free_slot-IsTaken,
}
use cs_562_jvm.Indirection.Capacity.{allocate_slot_small, created}
use cs_562_jvm.Base.{
  ℕ, ◌∷◌, arith, ◌<◌, true, [], ◌≤◌, ◌≡◌, refl, some, false, get_or, suc, pos, zero, ◌≢◌,
}
use cs_562_jvm.Indirection.{
  Table, unset, create_address_indirection_info, free_slot, allocate_slot, slot_limit,
}
use cs_562_jvm.Indirection.Invariant.{IsValid, IsLive, create-IsValid}

abbrev new_table : Table
new_table = create_address_indirection_info 2

new_table-IsValid : IsValid 2 new_table
new_table-IsValid = create-IsValid 2 (omega arith)

new_table-below_limit : new_table.num_addresses ≢ slot_limit
unfolding create_address_indirection_info
new_table-below_limit = omega arith

allocate_slot_example :
    (slot : ℕ) × (t : Table) × (allocate_slot 2 true new_table ≡ some (slot, t))
    × IsGiven 2 new_table slot t
allocate_slot_example =
    allocate_slot-IsGiven 2 new_table (omega arith) new_table-IsValid new_table-below_limit

-- slots 1 and 2 are in use
abbrev in_use : Table
in_use = record {
  addresses = 0 ∷ 64 ∷ 96 ∷ 0 ∷ [];
  free_slots = [];
  num_fragmented_free = 0;
  num_pages = 2;
  num_addresses = 3;
  slot_lock = false;
}

beyond_in_use : (i : ℕ) → 3 ≤ i → get_or in_use.addresses i 0 ≡ 0
beyond_in_use zero h = refl
beyond_in_use (suc zero) h = absurd (omega arith)
beyond_in_use (suc (suc zero)) h = absurd (omega arith)
beyond_in_use (suc (suc (suc zero))) h = refl
beyond_in_use (suc (suc (suc (suc i)))) h = refl

in_use-IsValid : IsValid 2 in_use
in_use-IsValid = record {
  width = refl;
  started = omega arith;
  within = omega arith;
  null_slot = refl;
  beyond = beyond_in_use;
  free_empty = tt;
  free_distinct = tt;
  counted = omega arith;
  count_fits = omega arith;
  unlocked = refl;
}

first-IsLive : IsLive in_use 1
first-IsLive = (omega arith, omega arith, omega arith)

free_slot_example :
    (t : Table) × (free_slot 2 true in_use 1 ≡ some (pos 0, t)) × IsTaken 2 in_use 1 t
free_slot_example = free_slot-IsTaken 2 in_use 1 in_use-IsValid first-IsLive (omega arith)

allocate_slot-free_slot_example :
    (t : Table) × (free_slot 2 true in_use 1 ≡ some (pos 0, t))
    × (allocate_slot 2 false t ≡ some (1, record in_use { addresses = 0 ∷ unset ∷ 96 ∷ 0 ∷ [] }))
allocate_slot-free_slot_example =
    allocate_slot-free_slot 2 false in_use 1 in_use-IsValid first-IsLive (omega arith) (omega arith)
      (omega arith)

abbrev one_given : Table
one_given = record {
  addresses = 0 ∷ unset ∷ [];
  free_slots = [];
  num_fragmented_free = 0;
  num_pages = 1;
  num_addresses = 2;
  slot_lock = false;
}

gives_one : allocate_slot 2 true new_table ≡ some (1, one_given)
unfolding allocate_slot create_address_indirection_info
gives_one = refl

allocate_slot_small_example : (1 < 15) × (2 ≤ 15)
allocate_slot_small_example = allocate_slot_small 2 true created gives_one

-- slots 1, 2 and 4 are free, and 1 and 2 are on the free list
abbrev scattered : Table
scattered = record {
  addresses = 0 ∷ 0 ∷ 0 ∷ 64 ∷ 0 ∷ 96 ∷ [];
  free_slots = 2 ∷ 1 ∷ [];
  num_fragmented_free = 2;
  num_pages = 3;
  num_addresses = 6;
  slot_lock = false;
}
