-- ===== src/Indirection/Capacity.antt =====
-- The tables that calls of allocateSlot and freeSlot lead to, and how many slots they give out.
use mathlib.Core.Path.{subst}
use cs_562_jvm.Base.{
  [], ◌≤◌, Bool, ◌≡◌, All, some, ◌<◌, ℤ, Option, ◌≢◌, ◌==◌, true, List, arith, none, false,
  ==_false, ◌∷◌, if◌then◌else◌, refl, leb, ◌+◌, ==_iff,
}
use cs_562_jvm.Indirection.{
  Table, allocate_slot, ℕ, create_address_indirection_info, slot_limit, free_slot, set_raw_address,
  release, allocate_from, max_num_addresses,
}

-- the tables reached from a new one by calls of allocateSlot, and of freeSlot on slots in use
pub data Reached (per_page : ℕ) : Table → Type 0 where
  created : Reached per_page (create_address_indirection_info per_page)
  allocated :
      (grows : Bool) (slot : ℕ) (t t' : Table)
      → Reached per_page t
      → allocate_slot per_page grows t ≡ some (slot, t')
      → Reached per_page t'
  freed :
      (mallocs : Bool) (slot : ℕ) (r : ℤ) (t t' : Table)
      → Reached per_page t
      → slot < t.num_addresses
      → free_slot per_page mallocs t slot ≡ some (r, t')
      → Reached per_page t'

-- the bound that the two operations keep
record Bounded (t : Table) : Type 0 where
  lower : 1 ≤ t.num_addresses
  upper : t.num_addresses ≤ slot_limit
  listed : All (λ s. s < slot_limit) t.free_slots

abbrev OnSome {ℓ} : {A : Type ℓ} → (A → Type 0) → Option A → Type 0
OnSome P none = Unit
OnSome P (some a) = P a

if-holds {ℓ} :
    {A : Type ℓ} (P : A → Type 0) (b : Bool) (x y : A)
    → ((b ≡ true) → P x)
    → ((b ≡ false) → P y)
    → P (if b then x else y)
if-holds P true x y p q = p refl
if-holds P false x y p q = q refl

module _ (per_page : ℕ) where
  abbrev AllocatesBounded : ℕ × Table → Type 0
  AllocatesBounded r = (r.0 < slot_limit) × Bounded r.1

  allocate_from-Bounded :
      (grows : Bool) (t : Table)
      → Bounded t
      → t.num_addresses ≢ slot_limit
      → (free : List ℕ) → All (λ s. s < slot_limit) free
      → OnSome AllocatesBounded (allocate_from per_page grows free t)
  allocate_from-Bounded grows t b ne (slot ∷ rest) l =
      (l.0, record { lower = b.lower; upper = b.upper; listed = l.1 })
  allocate_from-Bounded grows t b ne [] l =
      let grown : (t.num_addresses < slot_limit) × (t.num_addresses + 1 ≤ slot_limit) =
        (omega (arith, b.upper, ne), omega (arith, b.upper, ne)) in
      if-holds (OnSome AllocatesBounded) t.slot_lock _ _ (λ _. tt)
        (λ _.
          if-holds (OnSome AllocatesBounded) (t.num_addresses == max_num_addresses per_page t) _ _
            (λ _.
              if-holds (OnSome AllocatesBounded) grows _ _
                (λ _. (grown.0, record { lower = omega arith; upper = grown.1; listed = b.listed }))
                (λ _.
                  (omega arith, record { lower = b.lower; upper = b.upper; listed = b.listed })))
            (λ _. (grown.0, record { lower = omega arith; upper = grown.1; listed = b.listed })))

  allocate_slot-Bounded :
      (grows : Bool) (t : Table)
      → Bounded t
      → OnSome AllocatesBounded (allocate_slot per_page grows t)
  unfolding allocate_slot
  allocate_slot-Bounded grows t b =
      if-holds (OnSome AllocatesBounded) (t.num_addresses == slot_limit) _ _ (λ _. (omega arith, b))
        (λ e.
          allocate_from-Bounded grows t b (==_false t.num_addresses slot_limit e) t.free_slots
            b.listed)

  set_raw_address-Bounded :
      (t : Table) (slot address : ℕ) → Bounded t → Bounded (set_raw_address per_page t slot address)
  unfolding set_raw_address
  set_raw_address-Bounded t slot address b =
      if-holds Bounded (slot == 0) _ _ (λ _. b)
        (λ _.
          if-holds Bounded (leb (max_num_addresses per_page t) slot) _ _ (λ _. b)
            (λ _. record { lower = b.lower; upper = b.upper; listed = b.listed }))

  release-Bounded :
      (mallocs : Bool) (t : Table) (slot : ℕ)
      → Bounded t
      → slot < slot_limit
      → slot ≢ 0
      → Bounded (release per_page mallocs slot t).1
  release-Bounded mallocs t slot b l ne =
      if-holds (λ (r : ℤ × Table). Bounded r.1) (slot + 1 == t.num_addresses) _ _
        (λ e.
          let last = (==_iff (slot + 1) t.num_addresses).0 e in
          record {
            lower = omega (arith, last, ne);
            upper = omega (arith, b.upper);
            listed = b.listed;
          })
        (λ _.
          if-holds (λ (r : ℤ × Table). Bounded r.1) mallocs _ _
            (λ _. record { lower = b.lower; upper = b.upper; listed = (l, b.listed) })
            (λ _. record { lower = b.lower; upper = b.upper; listed = b.listed }))

  free_slot-Bounded :
      (mallocs : Bool) (t : Table) (slot : ℕ)
      → Bounded t
      → slot < t.num_addresses
      → OnSome (λ r. Bounded r.1) (free_slot per_page mallocs t slot)
  unfolding free_slot
  free_slot-Bounded mallocs t slot b l =
      if-holds (OnSome (λ r. Bounded r.1)) (slot == 0) _ _ (λ _. b)
        (λ e.
          if-holds (OnSome (λ r. Bounded r.1)) t.slot_lock _ _ (λ _. tt)
            (λ _.
              release-Bounded mallocs (set_raw_address per_page t slot 0) slot
                (set_raw_address-Bounded t slot 0 b) (omega (arith, l, b.upper))
                (==_false slot 0 e)))

  Reached-Bounded : {t : Table} → Reached per_page t → Bounded t
  unfolding create_address_indirection_info
  Reached-Bounded created = record { lower = omega arith; upper = omega arith; listed = tt }
  Reached-Bounded (allocated grows slot t t' r e) =
      (subst (OnSome AllocatesBounded) e (allocate_slot-Bounded grows t (Reached-Bounded r))).1
  Reached-Bounded (freed mallocs slot v t t' r l e) =
      subst (OnSome (λ r. Bounded r.1)) e (free_slot-Bounded mallocs t slot (Reached-Bounded r) l)

  -- However often slots are allocated and freed, allocateSlot never gives out a slot above 14: the table
  -- has at most 15 entries, whatever the number of entries on a page, whether or not memory is left.
  pub allocate_slot_small :
      {t t' : Table} (grows : Bool) {slot : ℕ}
      → Reached per_page t
      → allocate_slot per_page grows t ≡ some (slot, t')
      → (slot < 15) × (t'.num_addresses ≤ 15)
  allocate_slot_small {t} grows r e =
      let (small, b) =
        subst (OnSome AllocatesBounded) e (allocate_slot-Bounded grows t (Reached-Bounded r)) in
      (small, b.upper)
