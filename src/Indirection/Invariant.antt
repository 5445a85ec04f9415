-- ===== src/Indirection/Invariant.antt =====
-- Well-formed tables, and that allocateSlot and freeSlot keep them so.
use mathlib.Core.Path.{subst}
use cs_562_jvm.Indirection.{
  Table, create_address_indirection_info, add_page, take_next, unset, reuse,
}
use cs_562_jvm.Base.{
  ℕ, ◌≡◌, arith, List, get_or, All, ◌∷◌, ◌<◌, length, replicate, ◌≢◌, suc, [], set,
  length-replicate, length-append, ◌*◌, ◌≤◌, ◌∙◌, length-set, zero, ◌^◌, refl, false, get_or-set_ne,
  inl, get_or-set_self, inr, ◌+◌, ◌-◌, ◌%◌, ap, ≡_dec, get_or-replicate, get_or-append_replicate,
}

-- `x` is not in the list
abbrev pub Absent : ℕ → List ℕ → Type 0
Absent x xs = All (λ y. x ≢ y) xs

abbrev pub IsDistinct : List ℕ → Type 0
IsDistinct [] = Unit
IsDistinct (x ∷ xs) = Absent x xs × IsDistinct xs

-- a slot below `n` that is not 0 and has no address
abbrev pub IsEmpty : List ℕ → ℕ → ℕ → Type 0
IsEmpty addresses n slot = (0 < slot) × (slot < n) × (get_or addresses slot 0 ≡ 0)

pub record IsValid (per_page : ℕ) (t : Table) : Type 0 where
  pub width : length t.addresses ≡ t.num_pages * per_page
  pub started : 1 ≤ t.num_addresses
  pub within : t.num_addresses ≤ length t.addresses
  pub null_slot : get_or t.addresses 0 0 ≡ 0
  pub beyond : (i : ℕ) → t.num_addresses ≤ i → get_or t.addresses i 0 ≡ 0
  pub free_empty : All (IsEmpty t.addresses t.num_addresses) t.free_slots
  pub free_distinct : IsDistinct t.free_slots
  pub counted : length t.free_slots ≤ t.num_fragmented_free
  pub count_fits : t.num_fragmented_free < 2 ^ 64
  pub unlocked : t.slot_lock ≡ false

-- a slot that was given out and has an address
abbrev pub IsLive : Table → ℕ → Type 0
IsLive t slot = (0 < slot) × (slot < t.num_addresses) × (get_or t.addresses slot 0 ≢ 0)

module _ {P Q R : ℕ → Type 0} where
  All-zip : ((x : ℕ) → P x → Q x → R x) → (xs : List ℕ) → All P xs → All Q xs → All R xs
  All-zip step [] p q = tt
  All-zip step (x ∷ xs) p q = (step x p.0 q.0, All-zip step xs p.1 q.1)

module _ {P R : ℕ → Type 0} where
  All-map : ((x : ℕ) → P x → R x) → (xs : List ℕ) → All P xs → All R xs
  All-map step [] p = tt
  All-map step (x ∷ xs) p = (step x p.0, All-map step xs p.1)

-- clearing an entry leaves the empty ones empty
pub get_or-set_zero : (xs : List ℕ) (i j : ℕ) → get_or xs j 0 ≡ 0 → get_or (set xs i 0) j 0 ≡ 0
get_or-set_zero [] i j e = e
get_or-set_zero (x ∷ xs) zero zero e = refl
get_or-set_zero (x ∷ xs) zero (suc j) e = e
get_or-set_zero (x ∷ xs) (suc i) zero e = e
get_or-set_zero (x ∷ xs) (suc i) (suc j) e = get_or-set_zero xs i j e

-- what freeSlot leaves of a table, for the last slot and for any other
abbrev pub shrunk : ℕ → Table → Table
shrunk slot t = record t { addresses = set t.addresses slot 0; num_addresses = t.num_addresses - 1 }

abbrev pub listed : ℕ → Table → Table
listed slot t = record t {
  addresses = set t.addresses slot 0;
  free_slots = slot ∷ t.free_slots;
  num_fragmented_free = (t.num_fragmented_free + 1) % 2 ^ 64;
}

module _ (per_page : ℕ) where
  pub create-IsValid : 0 < per_page → IsValid per_page (create_address_indirection_info per_page)
  unfolding create_address_indirection_info
  create-IsValid h = record {
    width = length-replicate {A = ℕ} (1 * per_page) 0;
    started = omega arith;
    within = omega (arith, length-replicate {A = ℕ} (1 * per_page) 0);
    null_slot = get_or-replicate (1 * per_page) 0 0;
    beyond = λ i l. get_or-replicate (1 * per_page) i 0;
    free_empty = tt;
    free_distinct = tt;
    counted = omega arith;
    count_fits = omega arith;
    unlocked = refl;
  }

  module _ {t : Table} (v : IsValid per_page t) where
    differs : (slot x : ℕ) → get_or t.addresses slot 0 ≢ 0 → get_or t.addresses x 0 ≡ 0 → slot ≢ x
    differs slot x full empty p = full (ap (λ k. get_or t.addresses k 0) p ∙ empty)

    below :
        (slot x : ℕ)
        → slot + 1 ≡ t.num_addresses
        → slot ≢ x
        → x < t.num_addresses
        → x < t.num_addresses - 1
    below slot x last ne h = omega arith

    -- one more page keeps the table well-formed and makes room
    pub add_page-IsValid : IsValid per_page (add_page per_page t)
    add_page-IsValid = record {
      width = grind (
        arith,
        length-append t.addresses (replicate per_page 0),
        length-replicate {A = ℕ} per_page 0,
        v.width,
      );
      started = v.started;
      within = omega (arith, length-append t.addresses (replicate per_page 0), v.within);
      null_slot = get_or-append_replicate t.addresses per_page 0 0 ∙ v.null_slot;
      beyond = λ i l. get_or-append_replicate t.addresses per_page i 0 ∙ v.beyond i l;
      free_empty =
          All-map (λ x e. (e.0, e.1, get_or-append_replicate t.addresses per_page x 0 ∙ e.2))
            t.free_slots v.free_empty;
      free_distinct = v.free_distinct;
      counted = v.counted;
      count_fits = v.count_fits;
      unlocked = v.unlocked;
    }

    -- the slot after the last one, if the table has room for it
    pub take_next-IsValid :
        t.num_addresses < length t.addresses → IsValid per_page (take_next per_page t).1
    take_next-IsValid room =
        let n = t.num_addresses in
        record {
          width = length-set t.addresses n unset ∙ v.width;
          started = omega arith;
          within = omega (arith, length-set t.addresses n unset);
          null_slot =
              get_or-set_ne t.addresses n 0 unset 0 (omega (arith, v.started)) ∙ v.null_slot;
          beyond =
              λ i l. get_or-set_ne t.addresses n i unset 0 (omega arith) ∙ v.beyond i (omega arith);
          free_empty =
              All-map
                (λ x e.
                  (e.0, omega arith, get_or-set_ne t.addresses n x unset 0 (omega arith) ∙ e.2))
                t.free_slots v.free_empty;
          free_distinct = v.free_distinct;
          counted = v.counted;
          count_fits = v.count_fits;
          unlocked = v.unlocked;
        }

    -- the first slot of the free list
    pub reuse-IsValid :
        (slot : ℕ) (rest : List ℕ)
        → t.free_slots ≡ slot ∷ rest
        → IsValid per_page (reuse per_page slot rest t)
    reuse-IsValid slot rest e =
        let empty : All (IsEmpty t.addresses t.num_addresses) (slot ∷ rest) =
          subst (All (IsEmpty t.addresses t.num_addresses)) e v.free_empty in
        let distinct : IsDistinct (slot ∷ rest) = subst IsDistinct e v.free_distinct in
        let some_free : suc (length rest) ≤ t.num_fragmented_free =
          subst (λ l. length l ≤ t.num_fragmented_free) e v.counted in
        let fits = v.count_fits in
        record {
          width = length-set t.addresses slot unset ∙ v.width;
          started = v.started;
          within = omega (arith, length-set t.addresses slot unset, v.within);
          null_slot =
              get_or-set_ne t.addresses slot 0 unset 0 (omega (arith, empty.0.0)) ∙ v.null_slot;
          beyond = λ i l.
              get_or-set_ne t.addresses slot i unset 0 (omega (arith, empty.0.1)) ∙ v.beyond i l;
          free_empty =
              All-zip (λ x a b. (b.0, b.1, get_or-set_ne t.addresses slot x unset 0 a ∙ b.2)) rest
                distinct.0 empty.1;
          free_distinct = distinct.1;
          counted = omega arith;
          count_fits = omega arith;
          unlocked = v.unlocked;
        }

    -- a slot that was given out, put on the free list
    pub listed-IsValid :
        (slot : ℕ)
        → IsLive t slot
        → t.num_fragmented_free + 1 < 2 ^ 64
        → slot + 1 ≢ t.num_addresses
        → IsValid per_page (listed slot t)
    listed-IsValid slot live fits inner = record {
      width = length-set t.addresses slot 0 ∙ v.width;
      started = v.started;
      within = omega (arith, length-set t.addresses slot 0, v.within);
      null_slot = get_or-set_ne t.addresses slot 0 0 0 (omega (arith, live.0)) ∙ v.null_slot;
      beyond = λ i l. get_or-set_ne t.addresses slot i 0 0 (omega (arith, live.1)) ∙ v.beyond i l;
      free_empty = (
        (live.0, live.1, get_or-set_self t.addresses slot 0 0 (omega (arith, live.1, v.within))),
        All-map (λ x e. (e.0, e.1, get_or-set_zero t.addresses slot x e.2)) t.free_slots
            v.free_empty,
      );
      free_distinct =
          (All-map (λ x e. differs slot x live.2 e.2) t.free_slots v.free_empty, v.free_distinct);
      counted = omega arith;
      count_fits = omega arith;
      unlocked = v.unlocked;
    }

    -- the last slot that was given out
    pub shrunk-IsValid :
        (slot : ℕ) → IsLive t slot → slot + 1 ≡ t.num_addresses → IsValid per_page (shrunk slot t)
    shrunk-IsValid slot live last = record {
      width = length-set t.addresses slot 0 ∙ v.width;
      started = omega (arith, live.0);
      within = omega (arith, length-set t.addresses slot 0, v.within);
      null_slot = get_or-set_ne t.addresses slot 0 0 0 (omega (arith, live.0)) ∙ v.null_slot;
      beyond = λ i l. elim (≡_dec slot i) [
        | inl e ↦ rw (← e) (get_or-set_self t.addresses slot 0 0 (omega (arith, live.1, v.within)))
        | inr ne ↦ get_or-set_zero t.addresses slot i (v.beyond i (omega arith))
      ];
      free_empty =
          All-map
            (λ x e. (
              e.0,
              below slot x last (differs slot x live.2 e.2) e.1,
              get_or-set_zero t.addresses slot x e.2,
            ))
            t.free_slots v.free_empty;
      free_distinct = v.free_distinct;
      counted = v.counted;
      count_fits = v.count_fits;
      unlocked = v.unlocked;
    }
