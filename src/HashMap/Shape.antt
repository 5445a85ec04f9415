-- ===== src/HashMap/Shape.antt =====
-- Well-formed maps stay so.
use mathlib.Core.Path.{subst}
use mathlib.Core.Bool.{true≢false}
use cs_562_jvm.Base.{
  ℕ, Bool, List, Option, none, some, true, false, [], ◌∷◌, length, zero, suc, All, get_or, ◌≡◌, ◌+◌,
  sym, arith, set, Bool-cases, ◌<◌, if◌then◌else◌, inl, ◌∙◌, inr, length-set, ap, ◌≢◌, replicate,
  ◌*◌, length-replicate, get_or-replicate, refl,
}
use cs_562_jvm.HashMap.{
  index, find, move_entry, move_bucket, move_all, expand_hashmap, update, HashMap, put_in, has_key,
  ht_put, new_hashmap,
}
use cs_562_jvm.HashMap.Lookup.{
  Decides, not_equal, Placed, Lacks, HasDistinctKeys, find-move_entry, placed-Lacks,
  length-move_bucket, IsMap, find-move_bucket, scan-Lacks, length-move_all,
}

module _ {A : Type 0} where
  All-of : {P : A → Type 0} → ((x : A) → P x) → (xs : List A) → All P xs
  All-of h [] = tt
  All-of h (x ∷ xs) = (h x, All-of h xs)

  All-zip :
      {P Q R : A → Type 0}
      → ((x : A) → P x → Q x → R x)
      → (xs : List A) → All P xs
      → All Q xs
      → All R xs
  All-zip h [] p q = tt
  All-zip h (x ∷ xs) p q = (h x p.0 q.0, All-zip h xs p.1 q.1)

some_not_none :
    {V : Type 0} (c : Bool) (v : V) (o : Option V) → c ≡ true → ¬ ((if c then some v else o) ≡ none)
some_not_none c v o t e = ground arith

rest_none :
    {V : Type 0} (c : Bool) (v : V) (o : Option V)
    → c ≡ false
    → (if c then some v else o) ≡ none
    → o ≡ none
rest_none c v o f e = ground arith

taken : (c rest : Bool) → c ≡ true → ¬ ((if c then true else rest) ≡ false)
taken c rest t e = ground arith

not_taken : (c rest : Bool) → c ≡ false → (if c then true else rest) ≡ false → rest ≡ false
not_taken c rest f e = ground arith

apart : (n k : ℕ) → n < k → n ≢ k
apart n k lt = omega arith

equal_sym :
    {K : Type 0} (equal : K → K → Bool)
    → Decides equal
    → (a b : K) → equal a b ≡ false
    → equal b a ≡ false
equal_sym equal decides a b f =
    not_equal equal decides b a λ p. true≢false (sym ((decides a b).1 (sym p)) ∙ f)

replicate-Placed :
    {K : Type 0} (V : Type 0) (hash : K → ℕ) (equal : K → K → Bool) (size n k : ℕ)
    → Placed {V = V} hash equal size n (replicate k [])
replicate-Placed V hash equal size n zero = tt
replicate-Placed V hash equal size n (suc k) =
    (tt, tt, replicate-Placed V hash equal size (suc n) k)

module _ {K V : Type 0} (hash : K → ℕ) (equal : K → K → Bool) (decides : Decides equal) where
  -- every node has its place at `n`
  abbrev InPlace : ℕ → ℕ → List (K × V) → Type 0
  InPlace size n es = All (λ e. index hash size e.0 ≡ n) es

  Placed-get :
      (size n i : ℕ) (bs : List (List (K × V)))
      → Placed hash equal size n bs
      → InPlace size (n + i) (get_or bs i []) × HasDistinctKeys hash equal (get_or bs i [])
  Placed-get size n i [] p = (tt, tt)
  Placed-get size n zero (b ∷ bs) p =
      let here : n ≡ n + 0 = omega arith in (subst (λ k. InPlace size k b) here p.0, p.1)
  Placed-get size n (suc i) (b ∷ bs) p =
      let here : suc n + i ≡ n + suc i = omega arith in
      let (q, d) = Placed-get size (suc n) i bs p.2 in
      (subst (λ k. InPlace size k (get_or bs i [])) here q, d)

  Placed-set :
      (size n i : ℕ) (bs : List (List (K × V))) (b : List (K × V))
      → Placed hash equal size n bs
      → InPlace size (n + i) b
      → HasDistinctKeys hash equal b
      → Placed hash equal size n (set bs i b)
  Placed-set size n i [] b p q d = tt
  Placed-set size n zero (x ∷ bs) b p q d =
      let here : n + 0 ≡ n = omega arith in (subst (λ k. InPlace size k b) here q, d, p.2)
  Placed-set size n (suc i) (x ∷ bs) b p q d =
      let here : n + suc i ≡ suc n + i = omega arith in
      (p.0, p.1, Placed-set size (suc n) i bs b p.2 (subst (λ k. InPlace size k b) here q) d)

  find-Lacks :
      (key : K) (es : List (K × V)) → find hash equal key es ≡ none → Lacks hash equal key es
  find-Lacks key [] e = tt
  find-Lacks key (x ∷ es) e = elim (Bool-cases (equal x.0 key)) [
    | inl t ↦ absurd (some_not_none (equal x.0 key) x.1 (find hash equal key es) t e)
    | inr f ↦ (f, find-Lacks key es (rest_none (equal x.0 key) x.1 (find hash equal key es) f e))
  ]

  -- no lookup of the key of the node finds anything yet
  abbrev IsNew : ℕ → List (List (K × V)) → K × V → Type 0
  IsNew n buckets e = find hash equal e.0 (get_or buckets (index hash n e.0) []) ≡ none

  move_entry-Placed :
      (n : ℕ) (e : K × V) (buckets : List (List (K × V)))
      → Placed hash equal n 0 buckets
      → IsNew n buckets e
      → Placed hash equal n 0 (move_entry hash equal n e buckets)
  move_entry-Placed n e buckets p new =
      let i = index hash n e.0 in
      let b = get_or buckets i [] in
      let here : i ≡ 0 + i = omega arith in
      let (q, d) = Placed-get n 0 i buckets p in
      Placed-set n 0 i buckets (e ∷ b) p (here, q) (find-Lacks e.0 b new, d)

  move_bucket-Placed :
      (n : ℕ) (es : List (K × V)) (buckets : List (List (K × V)))
      → length buckets ≡ n
      → 0 < n
      → Placed hash equal n 0 buckets
      → All (IsNew n buckets) es
      → HasDistinctKeys hash equal es
      → Placed hash equal n 0 (move_bucket hash equal n es buckets)
  move_bucket-Placed n [] buckets w h p new d = p
  move_bucket-Placed n (e ∷ es) buckets w h p new d =
      move_bucket-Placed n es (move_entry hash equal n e buckets)
        (length-set buckets (index hash n e.0) (e ∷ get_or buckets (index hash n e.0) []) ∙ w) h
        (move_entry-Placed n e buckets p new.0)
        (All-zip
          (λ x f none_before.
            find-move_entry hash equal decides n x.0 e buckets w h
            ∙ ap
                (λ c.
                  if c
                  then some e.1
                  else find hash equal x.0 (get_or buckets (index hash n x.0) []))
                (equal_sym equal decides x.0 e.0 f)
            ∙ none_before)
          es d.0 new.1)
        d.1

  -- the keys of later buckets are not in a bucket at an earlier place
  later-Lacks :
      (size n k : ℕ) (b : List (K × V)) (bs : List (List (K × V)))
      → n < k
      → InPlace size n b
      → Placed hash equal size k bs
      → All (All (λ x. Lacks hash equal x.0 b)) bs
  later-Lacks size n k b [] lt q p = tt
  later-Lacks size n k b (c ∷ bs) lt q p = (
    All-zip
        (λ x at_k unit.
          placed-Lacks hash equal decides size n x.0 b (λ e. apart n k lt (e ∙ at_k)) q)
        c p.0 (All-of (λ x. tt) c),
    later-Lacks size n (suc k) b bs (omega arith) q p.2,
  )

  move_all-Placed :
      (n size k : ℕ) (bs buckets : List (List (K × V)))
      → length buckets ≡ n
      → 0 < n
      → Placed hash equal size k bs
      → Placed hash equal n 0 buckets
      → All (All (IsNew n buckets)) bs
      → Placed hash equal n 0 (move_all hash equal n bs buckets)
  move_all-Placed n size k [] buckets w h old p new = p
  move_all-Placed n size k (b ∷ bs) buckets w h old p new =
      move_all-Placed n size (suc k) bs (move_bucket hash equal n b buckets)
        (length-move_bucket hash equal decides n b buckets ∙ w) h old.2
        (move_bucket-Placed n b buckets w h p new.0 old.1)
        (All-zip
          (λ c lacks none_before.
            All-zip
              (λ x lack before.
                find-move_bucket hash equal decides n x.0 b buckets w h
                ∙ scan-Lacks hash equal decides x.0 b _ lack
                ∙ before)
              c lacks none_before)
          bs (later-Lacks size k (suc k) b bs (omega arith) old.0 old.2) new.1)

  expand_hashmap-IsMap :
      (callocs : Bool) (m : HashMap K V)
      → IsMap hash equal m
      → IsMap hash equal (expand_hashmap hash equal callocs m)
  unfolding expand_hashmap
  expand_hashmap-IsMap false m v = v
  expand_hashmap-IsMap true m v =
      let n = m.length * 2 in
      let some_bucket : 0 < n = omega (arith, v.some_bucket) in
      record {
        width =
            length-move_all hash equal decides n m.buckets (replicate n []) ∙ length-replicate n [];
        some_bucket = some_bucket;
        placed =
            move_all-Placed n m.length 0 m.buckets (replicate n []) (length-replicate n [])
              some_bucket v.placed (replicate-Placed V hash equal n 0 n)
              (All-of
                (All-of λ x. ap (find hash equal x.0) (get_or-replicate n (index hash n x.0) []))
                m.buckets);
      }

  update-InPlace :
      (size n : ℕ) (key : K) (value : V) (es : List (K × V))
      → InPlace size n es
      → InPlace size n (update hash equal key value es)
  update-InPlace size n key value [] q = tt
  update-InPlace size n key value (x ∷ es) q = elim (Bool-cases (equal x.0 key)) [
    | inl t ↦ rw t q
    | inr f ↦ rw f (q.0, update-InPlace size n key value es q.1)
  ]

  update-Lacks :
      (other key : K) (value : V) (es : List (K × V))
      → Lacks hash equal other es
      → Lacks hash equal other (update hash equal key value es)
  update-Lacks other key value [] q = tt
  update-Lacks other key value (x ∷ es) q = elim (Bool-cases (equal x.0 key)) [
    | inl t ↦ rw t q
    | inr f ↦ rw f (q.0, update-Lacks other key value es q.1)
  ]

  update-HasDistinctKeys :
      (key : K) (value : V) (es : List (K × V))
      → HasDistinctKeys hash equal es
      → HasDistinctKeys hash equal (update hash equal key value es)
  update-HasDistinctKeys key value [] q = tt
  update-HasDistinctKeys key value (x ∷ es) q = elim (Bool-cases (equal x.0 key)) [
    | inl t ↦ rw t q
    | inr f ↦ rw f (update-Lacks x.0 key value es q.0, update-HasDistinctKeys key value es q.1)
  ]

  with_bucket-IsMap :
      (m : HashMap K V) (key : K) (b : List (K × V)) (num_entries : ℕ)
      → IsMap hash equal m
      → InPlace m.length (0 + index hash m.length key) b
      → HasDistinctKeys hash equal b
      → IsMap hash equal (record m {
        buckets = set m.buckets (index hash m.length key) b;
        num_entries = num_entries;
      })
  with_bucket-IsMap m key b num_entries v q d = record {
    width = length-set m.buckets (index hash m.length key) b ∙ v.width;
    some_bucket = v.some_bucket;
    placed = Placed-set m.length 0 (index hash m.length key) m.buckets b v.placed q d;
  }

  has_key-Lacks :
      (key : K) (es : List (K × V)) → has_key hash equal key es ≡ false → Lacks hash equal key es
  has_key-Lacks key [] e = tt
  has_key-Lacks key (x ∷ es) e = elim (Bool-cases (equal x.0 key)) [
    | inl t ↦ absurd (taken (equal x.0 key) (has_key hash equal key es) t e)
    | inr f ↦ (f, has_key-Lacks key es (not_taken (equal x.0 key) (has_key hash equal key es) f e))
  ]

  put_in-IsMap :
      (mallocs : Bool) (m : HashMap K V) (key : K) (value : V)
      → IsMap hash equal m
      → IsMap hash equal (put_in hash equal mallocs key value m).1
  put_in-IsMap mallocs m key value v =
      let i = index hash m.length key in
      let b = get_or m.buckets i [] in
      let here : i ≡ 0 + i = omega arith in
      let (q, d) = Placed-get m.length 0 i m.buckets v.placed in
      elim (Bool-cases (has_key hash equal key b)) [
        | inl t ↦ rw t (
            with_bucket-IsMap m key (update hash equal key value b) m.num_entries v
              (update-InPlace m.length (0 + i) key value b q)
              (update-HasDistinctKeys key value b d))
        | inr f ↦ elim (Bool-cases mallocs) [
          | inl g ↦
              rw (f, g)
                (with_bucket-IsMap m key ((key, value) ∷ b) (m.num_entries + 1) v (here, q)
                  (has_key-Lacks key b f, d))
          | inr g ↦ rw (f, g) v
        ]
      ]

  pub ht_put-IsMap :
      (full : ℕ → ℕ → Bool) (callocs mallocs : Bool) (m : HashMap K V) (key : K) (value : V)
      → IsMap hash equal m
      → IsMap hash equal (ht_put hash equal full callocs mallocs m key value).1
  unfolding ht_put
  ht_put-IsMap full callocs mallocs m key value v =
      elim (Bool-cases (full m.num_entries m.length)) [
        | inl t ↦ rw t (
            put_in-IsMap mallocs (expand_hashmap hash equal callocs m) key value
              (expand_hashmap-IsMap callocs m v))
        | inr f ↦ rw f (put_in-IsMap mallocs m key value v)
      ]

  pub new_hashmap-IsMap : IsMap hash equal (new_hashmap {V = V})
  new_hashmap-IsMap = record {
    width = refl;
    some_bucket = omega arith;
    placed = replicate-Placed V hash equal 16 0 16;
  }
