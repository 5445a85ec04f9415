-- ===== src/Indirection/Handles.antt =====
-- What the caller of allocateSlot and freeSlot sees: slots that nobody else holds, and every other slot
-- left alone.
use mathlib.Core.Path.{subst}
use cs_562_jvm.Base.{
  [], ◌≢◌, ◌<◌, ◌≡◌, arith, length, true, ◌∷◌, ◌+◌, some, ◌^◌, sym, All, pos, get_or-set_self, ◌∙◌,
  get_or-set_ne, ne→==, refl, inl, ==_iff, inr, leb, set, Bool-cases, Bool, ◌%◌, false, suc,
  length-append, ◌-◌, ap, replicate, length-replicate, zero, ≡_dec, get_or-append_replicate,
}
use cs_562_jvm.Indirection.{
  Table, allocate_slot, ℕ, unset, get_or, get_raw_address, List, free_slot, slot_limit,
  set_raw_address, take_next, reuse, max_num_addresses, allocate_from, add_page, release,
}
use cs_562_jvm.Indirection.Invariant.{
  IsValid, IsLive, take_next-IsValid, IsEmpty, reuse-IsValid, add_page-IsValid, listed, shrunk,
  listed-IsValid, shrunk-IsValid,
}

-- `t'` is `t` with the slot given out: it had no address, has one now, and no other slot changed.
pub record IsGiven (per_page : ℕ) (t : Table) (slot : ℕ) (t' : Table) : Type 0 where
  pub valid : IsValid per_page t'
  pub live : IsLive t' slot
  pub fresh : get_or t.addresses slot 0 ≡ 0
  pub others : (j : ℕ) → j ≢ slot → get_or t'.addresses j 0 ≡ get_or t.addresses j 0

-- `t'` is `t` with the slot taken back
pub record IsTaken (per_page : ℕ) (t : Table) (slot : ℕ) (t' : Table) : Type 0 where
  pub valid : IsValid per_page t'
  pub empty : get_raw_address per_page t' slot ≡ 0
  pub others : (j : ℕ) → j ≢ slot → get_or t'.addresses j 0 ≡ get_or t.addresses j 0

un_count : (n : ℕ) → n + 1 < 2 ^ 64 → ((n + 1) % 2 ^ 64 + (2 ^ 64 - 1)) % 2 ^ 64 ≡ n
un_count n h = omega arith

pub lt→leb : (a b : ℕ) → a < b → leb b a ≡ false
lt→leb a b h = ground arith

set-set : (xs : List ℕ) (i a b : ℕ) → set (set xs i a) i b ≡ set xs i b
set-set [] i a b = refl
set-set (x ∷ xs) zero a b = refl
set-set (x ∷ xs) (suc i) a b = ap (x ∷◌) (set-set xs i a b)

unset_full : unset ≢ 0
unset_full = omega arith

module _ (per_page : ℕ) where
  module _ {t : Table} (v : IsValid per_page t) where
    take_next-IsGiven :
        t.num_addresses < length t.addresses
        → IsGiven per_page t t.num_addresses (take_next per_page t).1
    take_next-IsGiven room = record {
      valid = take_next-IsValid per_page v room;
      live = (
        v.started,
        omega arith,
        λ e. unset_full (sym (get_or-set_self t.addresses t.num_addresses unset 0 room) ∙ e),
      );
      fresh = v.beyond t.num_addresses (omega arith);
      others = λ j ne. get_or-set_ne t.addresses t.num_addresses j unset 0 (λ e. ne (sym e));
    }

    reuse-IsGiven :
        (slot : ℕ) (rest : List ℕ)
        → t.free_slots ≡ slot ∷ rest
        → IsGiven per_page t slot (reuse per_page slot rest t)
    reuse-IsGiven slot rest e =
        let empty : All (IsEmpty t.addresses t.num_addresses) (slot ∷ rest) =
          subst (All (IsEmpty t.addresses t.num_addresses)) e v.free_empty in
        record {
          valid = reuse-IsValid per_page v slot rest e;
          live = (
            empty.0.0,
            empty.0.1,
            λ p. unset_full (
                sym (get_or-set_self t.addresses slot unset 0 (omega (arith, empty.0.1, v.within)))
                ∙ p),
          );
          fresh = empty.0.2;
          others = λ j ne. get_or-set_ne t.addresses slot j unset 0 (λ e. ne (sym e));
        }

  module _ {t : Table} (v : IsValid per_page t) where
    paged-IsGiven :
        0 < per_page
        → t.num_addresses ≡ max_num_addresses per_page t
        → IsGiven per_page t t.num_addresses (take_next per_page (add_page per_page t)).1
    paged-IsGiven h full =
        let given = take_next-IsGiven (add_page-IsValid per_page v) (
          omega (
            arith,
            full,
            v.width,
            h,
            length-append t.addresses (replicate per_page 0),
            length-replicate {A = ℕ} per_page 0,
          )) in
        record {
          valid = given.valid;
          live = given.live;
          fresh = v.beyond t.num_addresses (omega arith);
          others = λ j ne. given.others j ne ∙ get_or-append_replicate t.addresses per_page j 0;
        }

    pub live_slot : (slot : ℕ) → IsLive t slot → slot < max_num_addresses per_page t
    live_slot slot live = omega (arith, live.1, v.within, v.width)

    pub set_raw_address_live :
        (slot : ℕ) (address : ℕ)
        → IsLive t slot
        → set_raw_address per_page t slot address
          ≡ record t { addresses = set t.addresses slot address }
    unfolding set_raw_address
    set_raw_address_live slot address live =
        let in_range = live_slot slot live in
        rw
          (
            ne→== slot 0 (omega (arith, live.0)),
            lt→leb slot (max_num_addresses per_page t) in_range,
          )
          refl

    freed_slot_empty : (slot : ℕ) → IsLive t slot → get_or (set t.addresses slot 0) slot 0 ≡ 0
    freed_slot_empty slot live =
        get_or-set_self t.addresses slot 0 0 (omega (arith, live.1, v.within))

    -- every branch after the test of the limit, with room for one more page
    allocate_from-IsGiven :
        0 < per_page
        → (free : List ℕ) → t.free_slots ≡ free
        → (slot : ℕ) × (t' : Table) × (allocate_from per_page true free t ≡ some (slot, t'))
          × IsGiven per_page t slot t'
    allocate_from-IsGiven h (slot ∷ rest) e = (slot, _, refl, reuse-IsGiven v slot rest e)
    allocate_from-IsGiven h [] e = elim (≡_dec t.num_addresses (max_num_addresses per_page t)) [
      | inl full ↦ (
        t.num_addresses,
        _,
        rw (v.unlocked, (==_iff t.num_addresses (max_num_addresses per_page t)).1 full) refl,
        paged-IsGiven h full,
      )
      | inr room ↦ (
        t.num_addresses,
        _,
        rw (v.unlocked, ne→== t.num_addresses (max_num_addresses per_page t) room) refl,
        take_next-IsGiven v (omega (arith, v.within, v.width, room)),
      )
    ]

  -- On a well-formed table that has not reached the limit, and if mremap succeeds when it is called,
  -- allocateSlot returns a slot that had no address, has one afterwards, and is neither 0 nor beyond
  -- the last slot; no other slot's address changes and the table stays well-formed.
  pub allocate_slot-IsGiven :
      (t : Table)
      → 0 < per_page
      → IsValid per_page t
      → t.num_addresses ≢ slot_limit
      → (slot : ℕ) × (t' : Table) × (allocate_slot per_page true t ≡ some (slot, t'))
        × IsGiven per_page t slot t'
  unfolding allocate_slot
  allocate_slot-IsGiven t h v ne =
      let (slot, t', e, given) = allocate_from-IsGiven v h t.free_slots refl in
      (slot, t', rw (ne→== t.num_addresses slot_limit ne) e, given)

  -- what is read from a slot whose entry is empty
  get_raw_address_empty :
      (t : Table) (slot : ℕ) → get_or t.addresses slot 0 ≡ 0 → get_raw_address per_page t slot ≡ 0
  unfolding get_raw_address
  get_raw_address_empty t slot e = elim (Bool-cases (leb (max_num_addresses per_page t) slot)) [
    | inl b ↦ rw b refl
    | inr b ↦ rw b e
  ]

  module _ {t : Table} (v : IsValid per_page t) (slot : ℕ) (live : IsLive t slot) where
    listed-IsTaken :
        t.num_fragmented_free + 1 < 2 ^ 64
        → slot + 1 ≢ t.num_addresses
        → IsTaken per_page t slot (listed slot t)
    listed-IsTaken fits inner = record {
      valid = listed-IsValid per_page v slot live fits inner;
      empty = get_raw_address_empty (listed slot t) slot (freed_slot_empty v slot live);
      others = λ j ne. get_or-set_ne t.addresses slot j 0 0 (λ e. ne (sym e));
    }

    shrunk-IsTaken : slot + 1 ≡ t.num_addresses → IsTaken per_page t slot (shrunk slot t)
    shrunk-IsTaken last = record {
      valid = shrunk-IsValid per_page v slot live last;
      empty = get_raw_address_empty (shrunk slot t) slot (freed_slot_empty v slot live);
      others = λ j ne. get_or-set_ne t.addresses slot j 0 0 (λ e. ne (sym e));
    }

    free_slot_live :
        free_slot per_page true t slot
        ≡ some (release per_page true slot (record t { addresses = set t.addresses slot 0 }))
    unfolding free_slot
    free_slot_live =
        rw (ne→== slot 0 (omega (arith, live.0)), set_raw_address_live v slot 0 live, v.unlocked)
          refl

  -- freeSlot of a live slot of a well-formed table, with malloc answering and the count of free slots
  -- below its last value: it returns 0, the slot has no address afterwards, no other slot's address
  -- changes, and the table stays well-formed.
  pub free_slot-IsTaken :
      (t : Table) (slot : ℕ)
      → IsValid per_page t
      → IsLive t slot
      → t.num_fragmented_free + 1 < 2 ^ 64
      → (t' : Table) × (free_slot per_page true t slot ≡ some (pos 0, t'))
        × IsTaken per_page t slot t'
  free_slot-IsTaken t slot v live fits = elim (≡_dec (slot + 1) t.num_addresses) [
    | inl last ↦ (
      shrunk slot t,
      rw (free_slot_live v slot live, (==_iff (slot + 1) t.num_addresses).1 last) refl,
      shrunk-IsTaken v slot live last,
    )
    | inr inner ↦ (
      listed slot t,
      rw (free_slot_live v slot live, ne→== (slot + 1) t.num_addresses inner) refl,
      listed-IsTaken v slot live fits inner,
    )
  ]

  -- A live slot of a well-formed table that is not the last one: freeSlot puts it on the free list, and
  -- the allocateSlot that follows, below the limit, gives out this same slot whether or not mremap would
  -- succeed, and leaves the table as it was before both, with a mark in place of the address.
  pub allocate_slot-free_slot :
      (grows : Bool) (t : Table) (slot : ℕ)
      → IsValid per_page t
      → IsLive t slot
      → t.num_fragmented_free + 1 < 2 ^ 64
      → slot + 1 ≢ t.num_addresses
      → t.num_addresses ≢ slot_limit
      → (t' : Table) × (free_slot per_page true t slot ≡ some (pos 0, t'))
        × (allocate_slot per_page grows t'
            ≡ some (slot, record t { addresses = set t.addresses slot unset }))
  unfolding allocate_slot
  allocate_slot-free_slot grows t slot v live fits inner limit = (
    listed slot t,
    rw (free_slot_live v slot live, ne→== (slot + 1) t.num_addresses inner) refl,
    rw
        (
          ne→== t.num_addresses slot_limit limit,
          set-set t.addresses slot 0 unset,
          un_count t.num_fragmented_free fits,
        )
        refl,
  )
