-- ===== src/HashMap/Put.antt =====
-- Lookups behind ht_put.
use native.Mathlib.Nat.{mod-lt}
use mathlib.Core.Bool.{true≢false}
use cs_562_jvm.Base.{
  ℕ, Bool, List, none, some, true, false, [], ◌∷◌, length, ◌≡◌, arith, ◌≢◌, ◌<◌, if◌then◌else◌,
  Bool-cases, get_or, inl, set, inr, ≡_dec, ap, refl, sym, ◌∙◌, get_or-set_self, get_or-set_ne, ◌⊎◌,
}
use cs_562_jvm.HashMap.{
  HashMap, ht_put, index, find, has_key, ht_get, update, put_in, expand_hashmap,
}
use cs_562_jvm.HashMap.Lookup.{
  Decides, IsMap, not_equal, length-expand_hashmap, ht_get-expand_hashmap,
}

differs :
    {K : Type 0} (equal : K → K → Bool)
    → Decides equal
    → (a key key' : K) → equal a key ≡ false
    → equal a key' ≡ true
    → key ≢ key'
differs equal decides a key key' f t p =
    true≢false (sym ((decides a key).1 ((decides a key').0 t ∙ sym p)) ∙ f)

module _ {K V : Type 0} (hash : K → ℕ) (equal : K → K → Bool) (decides : Decides equal) where
  has_key_later :
      (x : K × V) (es : List (K × V)) (key : K)
      → equal x.0 key ≡ false
      → has_key hash equal key (x ∷ es) ≡ true
      → has_key hash equal key es ≡ true
  has_key_later x es key f e = ground arith

  has_key_first :
      (x : K × V) (es : List (K × V)) (key : K)
      → equal x.0 key ≡ true
      → has_key hash equal key (x ∷ es) ≡ true
  has_key_first x es key t = rw t refl

  has_key_rest :
      (x : K × V) (es : List (K × V)) (key : K)
      → equal x.0 key ≡ false
      → has_key hash equal key (x ∷ es) ≡ false
      → has_key hash equal key es ≡ false
  has_key_rest x es key f e = ground arith

  -- the bucket with the value replaced, or with one node more
  find-update :
      (key key' : K) (value : V) (es : List (K × V))
      → has_key hash equal key es ≡ true
      → find hash equal key' (update hash equal key value es)
        ≡ (if equal key key' then some value else find hash equal key' es)
  find-update key key' value [] e = absurd (cc)
  find-update key key' value (x ∷ es) e = elim (Bool-cases (equal x.0 key)) [
    | inl t ↦
        rw (t, (decides x.0 key).0 t)
          (elim (Bool-cases (equal key key')) [ inl u ↦ rw u refl | inr u ↦ rw u refl ])
    | inr f ↦
        let later : has_key hash equal key es ≡ true = has_key_later x es key f e in
        rw (f, find-update key key' value es later)
          (elim (Bool-cases (equal x.0 key')) [
            | inl u ↦
                rw
                  (
                    u,
                    not_equal equal decides key key'
                        (λ p. differs equal decides x.0 key key' f u p),
                  )
                  refl
            | inr u ↦ rw u refl
          ])
  ]

  -- a map whose bucket for the key is replaced by one in which lookups find the new value
  find-set :
      (n : ℕ) (key key' : K) (value : V) (b : List (K × V)) (buckets : List (List (K × V)))
      → length buckets ≡ n
      → 0 < n
      → (find hash equal key' b ≡ (
          if equal key key'
          then some value
          else find hash equal key' (get_or buckets (index hash n key) [])))
      → find hash equal key' (get_or (set buckets (index hash n key) b) (index hash n key') []) ≡ (
          if equal key key'
          then some value
          else find hash equal key' (get_or buckets (index hash n key') []))
  find-set n key key' value b buckets w h e = elim (≡_dec (index hash n key) (index hash n key')) [
    | inl p ↦
        let inside : index hash n key < length buckets = rw w (mod-lt (hash key) h) in
        ap (λ i. find hash equal key' (get_or (set buckets (index hash n key) b) i [])) (sym p)
        ∙ ap (find hash equal key') (get_or-set_self buckets (index hash n key) b [] inside)
        ∙ e
        ∙ ap
            (λ i. if equal key key' then some value else find hash equal key' (get_or buckets i []))
            p
    | inr ne ↦
        rw
          (
            get_or-set_ne buckets (index hash n key) (index hash n key') b [] ne,
            not_equal equal decides key key' (λ p. ne (ap (index hash n) p)),
          )
          refl
  ]

  ht_get-put_in :
      (m : HashMap K V) (key key' : K) (value : V)
      → length m.buckets ≡ m.length
      → 0 < m.length
      → ht_get hash equal (put_in hash equal true key value m).1 key'
        ≡ (if equal key key' then some value else ht_get hash equal m key')
  unfolding ht_get
  ht_get-put_in m key key' value w h =
      let b = get_or m.buckets (index hash m.length key) [] in
      elim (Bool-cases (has_key hash equal key b)) [
        | inl t ↦ rw t (
            find-set m.length key key' value (update hash equal key value b) m.buckets w h
              (find-update key key' value b t))
        | inr f ↦ rw f (find-set m.length key key' value ((key, value) ∷ b) m.buckets w h refl)
      ]

  put_in_keeps_room :
      (m : HashMap K V) (key key' : K) (value v : V)
      → length m.buckets ≡ m.length
      → 0 < m.length
      → ht_get hash equal m key' ≡ some v
      → let r = (put_in hash equal true key value m).1 in
        (ht_get hash equal r key' ≡ some v) ⊎ (ht_get hash equal r key' ≡ some value)
  put_in_keeps_room m key key' value v w h e = elim (Bool-cases (equal key key')) [
    | inl t ↦ inr (ht_get-put_in m key key' value w h ∙ rw t refl)
    | inr f ↦ inl (ht_get-put_in m key key' value w h ∙ rw f e)
  ]

  put_in_keeps :
      (mallocs : Bool) (m : HashMap K V) (key key' : K) (value v : V)
      → length m.buckets ≡ m.length
      → 0 < m.length
      → ht_get hash equal m key' ≡ some v
      → let r = (put_in hash equal mallocs key value m).1 in
        (ht_get hash equal r key' ≡ some v) ⊎ (ht_get hash equal r key' ≡ some value)
  put_in_keeps true m key key' value v w h e = put_in_keeps_room m key key' value v w h e
  put_in_keeps false m key key' value v w h e =
      let b = get_or m.buckets (index hash m.length key) [] in
      elim (Bool-cases (has_key hash equal key b)) [
        | inl t ↦ (let k = put_in_keeps_room m key key' value v w h e in rw t (rw t at k))
        | inr f ↦ rw f (inl e)
      ]

  find-none :
      (key : K) (es : List (K × V))
      → has_key hash equal key es ≡ false
      → find hash equal key es ≡ none
  find-none key [] e = refl
  find-none key (x ∷ es) e = elim (Bool-cases (equal x.0 key)) [
    | inl t ↦ absurd (true≢false (sym (has_key_first x es key t) ∙ e))
    | inr f ↦ rw f (find-none key es (has_key_rest x es key f e))
  ]

  put_in-value :
      (m : HashMap K V) (key : K) (value : V)
      → (put_in hash equal true key value m).0 ≡ ht_get hash equal m key
  unfolding ht_get
  put_in-value m key value =
      let b = get_or m.buckets (index hash m.length key) [] in
      elim (Bool-cases (has_key hash equal key b)) [
        | inl t ↦ rw t refl
        | inr f ↦ rw f (sym (find-none key b f))
      ]

  -- If equality_fn decides equality and malloc succeeds, ht_put of a key and a value makes lookups of the
  -- key give the value and leaves those of all other keys as they were, and it returns what a lookup of
  -- the key gave before; also if the map has grown on the way, or calloc has failed.
  pub ht_get-ht_put :
      (full : ℕ → ℕ → Bool) (callocs : Bool) (m : HashMap K V) (key key' : K) (value : V)
      → IsMap hash equal m
      → let r = ht_put hash equal full callocs true m key value in
        (ht_get hash equal r.1 key'
          ≡ (if equal key key' then some value else ht_get hash equal m key'))
        × (r.0 ≡ ht_get hash equal m key)
  unfolding ht_put
  ht_get-ht_put full callocs m key key' value v =
      let m' = expand_hashmap hash equal callocs m in
      let (w, h) = length-expand_hashmap hash equal decides callocs m v in
      let same = ht_get-expand_hashmap hash equal decides callocs m in
      elim (Bool-cases (full m.num_entries m.length)) [
        | inl t ↦ rw t (
          ht_get-put_in m' key key' value w h
              ∙ ap (λ o. if equal key key' then some value else o) (same key' v),
          put_in-value m' key value ∙ same key v,
        )
        | inr f ↦
            rw f (ht_get-put_in m key key' value v.width v.some_bucket, put_in-value m key value)
      ]

  -- With malloc answering or not, a key that had a value has one after ht_put: the same, or the new one.
  pub ht_put_keeps :
      (full : ℕ → ℕ → Bool) (callocs mallocs : Bool) (m : HashMap K V) (key key' : K) (value v : V)
      → IsMap hash equal m
      → ht_get hash equal m key' ≡ some v
      → let r = (ht_put hash equal full callocs mallocs m key value).1 in
        (ht_get hash equal r key' ≡ some v) ⊎ (ht_get hash equal r key' ≡ some value)
  unfolding ht_put
  ht_put_keeps full callocs mallocs m key key' value v h e =
      let m' = expand_hashmap hash equal callocs m in
      let (w, p) = length-expand_hashmap hash equal decides callocs m h in
      elim (Bool-cases (full m.num_entries m.length)) [
        | inl t ↦ rw t (
            put_in_keeps mallocs m' key key' value v w p
              (ht_get-expand_hashmap hash equal decides callocs m key' h ∙ e))
        | inr f ↦ rw f (put_in_keeps mallocs m key key' value v h.width h.some_bucket e)
      ]
