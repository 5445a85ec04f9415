-- ===== src/HashMap.antt =====
-- The hash map (hashmap.c). A bucket is the list of its nodes; the back pointers of the nodes serve only
-- ht_delete, which is not modelled. The array has a power of two of buckets, so that
-- `hash & (length - 1)` is the remainder by its length.
pub mod Lookup
pub mod Put
pub mod Shape
pub mod Refines
use cs_562_jvm.Base.{
  ℕ, List, Bool, Option, none, some, true, false, [], replicate, ◌%◌, get_or, ◌∷◌, set, ◌*◌,
  if◌then◌else◌, ◌+◌, ltb,
}

pub record HashMap (K V : Type 0) : Type 0 where
  pub buckets : List (List (K × V))
  pub length : ℕ
  pub num_entries : ℕ

-- What ht_createHashmap gives: NULL, a map, or undefined behaviour.
pub data Creation (K V : Type 0) : Type 0 where
  no_map : Creation K V
  created : HashMap K V → Creation K V
  overrun : Creation K V

-- `sizeof(hashmap_t)`: five members of 8 bytes, and a float with its padding
abbrev pub sizeof_hashmap : ℕ
sizeof_hashmap = 48

-- the map with the values that ht_createHashmap writes
abbrev pub new_hashmap : {K V : Type 0} → HashMap K V
new_hashmap = record { buckets = replicate 16 []; length = 16; num_entries = 0 }

-- `hash_fn` is none for NULL. `block` is the block that malloc gives for the `sizeof(hashmap_t *)` bytes, 8,
-- that it is asked for, as the number of bytes that may be written in it, and none for NULL; `callocs` is
-- whether calloc succeeds. The member `data` lies in the first 8 bytes, and the others behind them.
unfoldable pub ht_create_hashmap : {K V : Type 0} → Option (K → ℕ) → Option ℕ → Bool → Creation K V
ht_create_hashmap none block callocs = no_map
ht_create_hashmap (some hash_fn) none callocs = no_map
ht_create_hashmap (some hash_fn) (some block) callocs =
    if ltb block 8
    then overrun
    else if callocs
    then (if ltb block sizeof_hashmap then overrun else created new_hashmap)
    else no_map

-- `hash & (length - 1)`
abbrev pub index : {K : Type 0} → (K → ℕ) → ℕ → K → ℕ
index hash length key = hash key % length

-- `hash` and `equal` are hash_fn and equality_fn.
module _ {K V : Type 0} (hash : K → ℕ) (equal : K → K → Bool) where
  abbrev pub bucket : HashMap K V → K → List (K × V)
  bucket m key = get_or m.buckets (index hash m.length key) []

  -- the loop of ht_get
  abbrev pub find : K → List (K × V) → Option V
  find key [] = none
  find key (e ∷ es) = let rest = find key es in if equal e.0 key then some e.1 else rest

  unfoldable pub ht_get : HashMap K V → K → Option V
  ht_get m key = find key (bucket m key)

  -- the loop of ht_contains
  abbrev pub has_key : K → List (K × V) → Bool
  has_key key [] = false
  has_key key (e ∷ es) = let rest = has_key key es in if equal e.0 key then true else rest

  unfoldable pub ht_contains : HashMap K V → K → Bool
  ht_contains m key = has_key key (bucket m key)

  -- one round of the inner loop of expandHashmap
  abbrev pub move_entry : ℕ → K × V → List (List (K × V)) → List (List (K × V))
  move_entry n e buckets = set buckets (index hash n e.0) (e ∷ get_or buckets (index hash n e.0) [])

  abbrev pub move_bucket : ℕ → List (K × V) → List (List (K × V)) → List (List (K × V))
  move_bucket n [] buckets = buckets
  move_bucket n (e ∷ es) buckets = move_bucket n es (move_entry n e buckets)

  abbrev pub move_all : ℕ → List (List (K × V)) → List (List (K × V)) → List (List (K × V))
  move_all n [] buckets = buckets
  move_all n (b ∷ bs) buckets = move_all n bs (move_bucket n b buckets)

  -- `callocs` is whether calloc succeeds
  unfoldable pub expand_hashmap : Bool → HashMap K V → HashMap K V
  expand_hashmap callocs m =
      let n = m.length * 2 in
      if callocs
      then record m { buckets = move_all n m.buckets (replicate n []); length = n }
      else m

  -- the loop of ht_put: the bucket with the value of the key replaced
  abbrev pub update : K → V → List (K × V) → List (K × V)
  update key value [] = []
  update key value (e ∷ es) =
      let rest = update key value es in if equal e.0 key then (e.0, value) ∷ es else e ∷ rest

  -- the rest of ht_put; `mallocs` is whether malloc succeeds
  abbrev pub put_in : Bool → K → V → HashMap K V → Option V × HashMap K V
  put_in mallocs key value m =
      let b = bucket m key in
      let i = index hash m.length key in
      if has_key key b
      then (find key b, record m { buckets = set m.buckets i (update key value b) })
      else if mallocs
      then (
        none,
        record m { buckets = set m.buckets i ((key, value) ∷ b); num_entries = m.num_entries + 1 },
      )
      else (none, m)

  -- `full` is the test `numEntries >= length * loadFactor`, on numEntries and length.
  unfoldable pub ht_put :
      (ℕ → ℕ → Bool) → Bool → Bool → HashMap K V → K → V → Option V × HashMap K V
  unfolding expand_hashmap
  ht_put full callocs mallocs m key value =
      put_in mallocs key value (if full m.num_entries m.length then expand_hashmap callocs m else m)
