-- ===== src/HashMap/Lookup.antt =====
-- Lookups behind ht_put and expandHashmap.
use mathlib.Core.Path.{subst}
use native.Mathlib.Nat.{mod-lt}
use cs_562_jvm.Base.{
  length, ℕ, Bool, List, ≡_dec, sym, arith, ◌≤◌, length-set, ◌-◌, ◌∙◌, ap, get_or-set_self,
  get_or-set_ne, ◌*◌, replicate, length-replicate, get_or-replicate,
}
use cs_562_jvm.Base.{
  ◌≡◌, ◌≢◌, true, All, ◌∷◌, ◌<◌, Option, false, none, ◌↔◌, Bool-cases, if◌then◌else◌, [], suc, some,
  inl, get_or, refl, inr,
}
use cs_562_jvm.HashMap.{
  HashMap, index, find, move_entry, move_bucket, move_all, ht_get, expand_hashmap,
}

-- equality_fn decides equality
abbrev pub Decides : {K : Type 0} → (K → K → Bool) → Type 0
Decides {K} equal = (a b : K) → (equal a b ≡ true) ↔ (a ≡ b)

pub not_equal :
    {K : Type 0} (equal : K → K → Bool) → Decides equal → (a b : K) → a ≢ b → equal a b ≡ false
not_equal equal decides a b ne = elim (Bool-cases (equal a b)) [
  | inl t ↦ absurd (ne ((decides a b).0 t))
  | inr f ↦ f
]

module _ {K V : Type 0} (hash : K → ℕ) (equal : K → K → Bool) where
  -- no node has the key
  abbrev pub Lacks : K → List (K × V) → Type 0
  Lacks key es = All (λ e. equal e.0 key ≡ false) es

  abbrev pub HasDistinctKeys : List (K × V) → Type 0
  HasDistinctKeys [] = Unit
  HasDistinctKeys (e ∷ es) = Lacks e.0 es × HasDistinctKeys es

  -- the buckets, which begin at place `n` of a map with `size` buckets, hold keys of their own place
  abbrev pub Placed : ℕ → ℕ → List (List (K × V)) → Type 0
  Placed size n [] = Unit
  Placed size n (b ∷ bs) =
      All (λ e. index hash size e.0 ≡ n) b × HasDistinctKeys b × Placed size (suc n) bs

  pub record IsMap (m : HashMap K V) : Type 0 where
    pub width : length m.buckets ≡ m.length
    pub some_bucket : 0 < m.length
    pub placed : Placed m.length 0 m.buckets

  -- what the nodes that are moved one after the other make of a lookup
  abbrev pub scan : K → List (K × V) → Option V → Option V
  scan key [] found = found
  scan key (e ∷ es) found = scan key es (if equal e.0 key then some e.1 else found)

  abbrev pub scan_all : K → List (List (K × V)) → Option V → Option V
  scan_all key [] found = found
  scan_all key (b ∷ bs) found = scan_all key bs (scan key b found)

  module _ (decides : Decides equal) where
    -- a bucket that got one node more
    pub find-move_entry :
        (n : ℕ) (key : K) (e : K × V) (buckets : List (List (K × V)))
        → length buckets ≡ n
        → 0 < n
        → find hash equal key (get_or (move_entry hash equal n e buckets) (index hash n key) []) ≡ (
            if equal e.0 key
            then some e.1
            else find hash equal key (get_or buckets (index hash n key) []))
    find-move_entry n key e buckets w h = elim (≡_dec (index hash n e.0) (index hash n key)) [
      | inl p ↦
          let inside : index hash n key < length buckets = rw w (mod-lt (hash key) h) in
          rw
            (
              p,
              get_or-set_self buckets (index hash n key) (e ∷ get_or buckets (index hash n key) [])
                  [] inside,
            )
            refl
      | inr ne ↦
          rw
            (
              get_or-set_ne buckets (index hash n e.0) (index hash n key)
                  (e ∷ get_or buckets (index hash n e.0) []) [] ne,
              not_equal equal decides e.0 key (λ p. ne (ap (index hash n) p)),
            )
            refl
    ]

    pub length-move_bucket :
        (n : ℕ) (es : List (K × V)) (buckets : List (List (K × V)))
        → length (move_bucket hash equal n es buckets) ≡ length buckets
    length-move_bucket n [] buckets = refl
    length-move_bucket n (e ∷ es) buckets =
        length-move_bucket n es (move_entry hash equal n e buckets)
        ∙ length-set buckets (index hash n e.0) (e ∷ get_or buckets (index hash n e.0) [])

    pub find-move_bucket :
        (n : ℕ) (key : K) (es : List (K × V)) (buckets : List (List (K × V)))
        → length buckets ≡ n
        → 0 < n
        → find hash equal key (get_or (move_bucket hash equal n es buckets) (index hash n key) [])
          ≡ scan key es (find hash equal key (get_or buckets (index hash n key) []))
    find-move_bucket n key [] buckets w h = refl
    find-move_bucket n key (e ∷ es) buckets w h =
        find-move_bucket n key es (move_entry hash equal n e buckets)
          (length-set buckets (index hash n e.0) (e ∷ get_or buckets (index hash n e.0) []) ∙ w) h
        ∙ ap (scan key es) (find-move_entry n key e buckets w h)

    pub length-move_all :
        (n : ℕ) (bs buckets : List (List (K × V)))
        → length (move_all hash equal n bs buckets) ≡ length buckets
    length-move_all n [] buckets = refl
    length-move_all n (b ∷ bs) buckets =
        length-move_all n bs (move_bucket hash equal n b buckets) ∙ length-move_bucket n b buckets

    find-move_all :
        (n : ℕ) (key : K) (bs buckets : List (List (K × V)))
        → length buckets ≡ n
        → 0 < n
        → find hash equal key (get_or (move_all hash equal n bs buckets) (index hash n key) [])
          ≡ scan_all key bs (find hash equal key (get_or buckets (index hash n key) []))
    find-move_all n key [] buckets w h = refl
    find-move_all n key (b ∷ bs) buckets w h =
        find-move_all n key bs (move_bucket hash equal n b buckets)
          (length-move_bucket n b buckets ∙ w) h
        ∙ ap (scan_all key bs) (find-move_bucket n key b buckets w h)

    -- a bucket at another place lacks the key
    pub placed-Lacks :
        (size n : ℕ) (key : K) (es : List (K × V))
        → n ≢ index hash size key
        → All (λ e. index hash size e.0 ≡ n) es
        → Lacks key es
    placed-Lacks size n key [] ne h = tt
    placed-Lacks size n key (e ∷ es) ne h = (
      not_equal equal decides e.0 key (λ p. ne (sym h.0 ∙ ap (index hash size) p)),
      placed-Lacks size n key es ne h.1,
    )

    pub scan-Lacks :
        (key : K) (es : List (K × V)) (found : Option V) → Lacks key es → scan key es found ≡ found
    scan-Lacks key [] found h = refl
    scan-Lacks key (e ∷ es) found h = rw h.0 (scan-Lacks key es found h.1)

    scan-find :
        (key : K) (es : List (K × V))
        → HasDistinctKeys es
        → scan key es none ≡ find hash equal key es
    scan-find key [] d = refl
    scan-find key (e ∷ es) d = elim (Bool-cases (equal e.0 key)) [
      | inl t ↦
          rw t (scan-Lacks key es (some e.1) (subst (λ k. Lacks k es) ((decides e.0 key).0 t) d.0))
      | inr f ↦ rw f (scan-find key es d.1)
    ]

    scan_all-before :
        (size n : ℕ) (key : K) (bs : List (List (K × V))) (found : Option V)
        → index hash size key < n
        → Placed size n bs
        → scan_all key bs found ≡ found
    scan_all-before size n key [] found lt p = refl
    scan_all-before size n key (b ∷ bs) found lt p =
        rw (scan-Lacks key b found (placed-Lacks size n key b (omega arith) p.0))
          (scan_all-before size (suc n) key bs found (omega arith) p.2)

    scan_all-find :
        (size n : ℕ) (key : K) (bs : List (List (K × V)))
        → n ≤ index hash size key
        → Placed size n bs
        → scan_all key bs none ≡ find hash equal key (get_or bs (index hash size key - n) [])
    scan_all-find size n key [] le p = refl
    scan_all-find size n key (b ∷ bs) le p = elim (≡_dec n (index hash size key)) [
      | inl here ↦
          let zero_left : index hash size key - n ≡ 0 = omega arith in
          rw (scan-find key b p.1, zero_left)
            (scan_all-before size (suc n) key bs (find hash equal key b) (omega arith) p.2)
      | inr later ↦
          let one_less : index hash size key - n ≡ suc (index hash size key - suc n) =
            omega arith in
          rw (scan-Lacks key b none (placed-Lacks size n key b later p.0), one_less)
            (scan_all-find size (suc n) key bs (omega arith) p.2)
    ]

    -- Whether or not it gets the memory, expandHashmap changes no lookup.
    pub ht_get-expand_hashmap :
        (callocs : Bool) (m : HashMap K V) (key : K)
        → IsMap m
        → ht_get hash equal (expand_hashmap hash equal callocs m) key ≡ ht_get hash equal m key
    unfolding ht_get expand_hashmap
    ht_get-expand_hashmap false m key v = refl
    ht_get-expand_hashmap true m key v =
        let n = m.length * 2 in
        let i = index hash m.length key in
        let some_bucket : 0 < n = omega (arith, v.some_bucket) in
        let here : i - 0 ≡ i = omega arith in
        find-move_all n key m.buckets (replicate n []) (length-replicate n []) some_bucket
        ∙ ap (λ b. scan_all key m.buckets (find hash equal key b))
            (get_or-replicate n (index hash n key) [])
        ∙ scan_all-find m.length 0 key m.buckets (omega arith) v.placed
        ∙ ap (λ k. find hash equal key (get_or m.buckets k [])) here

    pub length-expand_hashmap :
        (callocs : Bool) (m : HashMap K V)
        → IsMap m
        → let m' = expand_hashmap hash equal callocs m in
          (length m'.buckets ≡ m'.length) × (0 < m'.length)
    unfolding expand_hashmap
    length-expand_hashmap false m v = (v.width, v.some_bucket)
    length-expand_hashmap true m v = (
      length-move_all (m.length * 2) m.buckets (replicate (m.length * 2) [])
          ∙ length-replicate (m.length * 2) [],
      omega (arith, v.some_bucket),
    )
