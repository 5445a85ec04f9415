-- ===== src/Indirection/Rebuild.antt =====
-- What rebuildFreeList leaves on the free list.
pub mod Trimmed
use cs_562_jvm.Base.{◌-◌, ◌≡◌, replicate, [], ◌<◌, ◌≢◌, ◌⊎◌}
use cs_562_jvm.Indirection.{Table, ℕ, get_or, ◌-◌}

-- `slot` is the first empty one behind slot 0
pub record IsFirstEmpty (t : Table) (slot : ℕ) : Type 0 where
  pub positive : 0 < slot
  pub within : slot < t.num_addresses
  pub empty : get_or t.addresses slot 0 ≡ 0
  pub full_before : (j : ℕ) → 0 < j → j < slot → get_or t.addresses j 0 ≢ 0

-- all slots behind slot 0 are in use
abbrev pub IsFull : Table → Type 0
IsFull t = (j : ℕ) → 0 < j → j < t.num_addresses → get_or t.addresses j 0 ≢ 0

-- the free list has `k` copies of the first empty slot, or nothing if there is none
abbrev pub Copies : Table → ℕ → Type 0
Copies t k =
    ((slot : ℕ) × IsFirstEmpty t slot × (t.free_slots ≡ replicate k slot))
    ⊎ (IsFull t × (t.free_slots ≡ []))
