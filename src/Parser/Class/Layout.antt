-- ===== src/Parser/Class/Layout.antt =====
-- The places of the fields of a class in its objects and in its static data.
use mathlib.Core.Path.{subst}
use cs_562_jvm.Base.{
  ℕ, ◌+◌, ◌≤◌, ◌<◌, ◌^◌, ◌%◌, Bool, true, false, if◌then◌else◌, List, [], ◌∷◌, ◌≡◌, refl, All, ◌⊎◌,
  inl, inr, Bool-cases, arith, sym, ◌∙◌, ap,
}
use cs_562_jvm.Parser.Class.{Field, place_fields, has_bit, acc_static}

abbrev pub is_static : Field → Bool
is_static f = has_bit f.flags acc_static

-- the bytes that the instance fields and the static fields of a list take
abbrev pub instance_bytes : List Field → ℕ
instance_bytes [] = 0
instance_bytes (f ∷ fs) = if is_static f then instance_bytes fs else f.data_size + instance_bytes fs

abbrev pub static_bytes : List Field → ℕ
static_bytes [] = 0
static_bytes (f ∷ fs) = if is_static f then f.data_size + static_bytes fs else static_bytes fs

-- the field lies in the part of the object, or of the static data, from the first number on and
-- below the second
abbrev pub LiesIn : ℕ → ℕ → ℕ → ℕ → Field → Type 0
LiesIn object_start object_end static_start static_end f =
    if is_static f
    then (static_start ≤ f.object_offset) × (f.object_offset + f.data_size ≤ static_end)
    else (object_start ≤ f.object_offset) × (f.object_offset + f.data_size ≤ object_end)

-- the two fields share no byte, where both are static or both are not
abbrev pub IsApart : Field → Field → Type 0
IsApart f g =
    (is_static f ≡ is_static g)
    → (f.object_offset + f.data_size ≤ g.object_offset)
      ⊎ (g.object_offset + g.data_size ≤ f.object_offset)

abbrev pub AreApart : List Field → Type 0
AreApart [] = Unit
AreApart (f ∷ fs) = All (IsApart f) fs × AreApart fs

-- a list of placed fields, with the ends of the objects and of the static data, that begin at `o` and `s`
abbrev pub IsPlaced : ℕ → ℕ → List Field × ℕ × ℕ → Type 0
IsPlaced o s r = All (LiesIn o r.1 s r.2) r.0 × AreApart r.0

lies-static :
    (a b c d : ℕ) (f : Field)
    → is_static f ≡ true
    → LiesIn a b c d f
    → (c ≤ f.object_offset) × (f.object_offset + f.data_size ≤ d)
lies-static a b c d f t h =
    subst
      (λ (x : Bool).
        if x
        then (c ≤ f.object_offset) × (f.object_offset + f.data_size ≤ d)
        else (a ≤ f.object_offset) × (f.object_offset + f.data_size ≤ b))
      t h

lies-instance :
    (a b c d : ℕ) (f : Field)
    → is_static f ≡ false
    → LiesIn a b c d f
    → (a ≤ f.object_offset) × (f.object_offset + f.data_size ≤ b)
lies-instance a b c d f t h =
    subst
      (λ (x : Bool).
        if x
        then (c ≤ f.object_offset) × (f.object_offset + f.data_size ≤ d)
        else (a ≤ f.object_offset) × (f.object_offset + f.data_size ≤ b))
      t h

lies-wider :
    (a b c d a' c' : ℕ) (f : Field) → a' ≤ a → c' ≤ c → LiesIn a b c d f → LiesIn a' b c' d f
lies-wider a b c d a' c' f h k l = elim (Bool-cases (is_static f)) [
  | inl t ↦ let m = lies-static a b c d f t l in rw (t) (omega (arith, m.0, k), m.1)
  | inr e ↦ let m = lies-instance a b c d f e l in rw (e) (omega (arith, m.0, h), m.1)
]

all_wider :
    (a b c d a' c' : ℕ) (fs : List Field)
    → a' ≤ a
    → c' ≤ c
    → All (LiesIn a b c d) fs
    → All (LiesIn a' b c' d) fs
all_wider a b c d a' c' [] h k l = tt
all_wider a b c d a' c' (f ∷ fs) h k l =
    (lies-wider a b c d a' c' f h k l.0, all_wider a b c d a' c' fs h k l.1)

static-IsApart :
    (f : Field) (a b c d : ℕ) (fs : List Field)
    → is_static f ≡ true
    → f.object_offset + f.data_size ≤ c
    → All (LiesIn a b c d) fs
    → All (IsApart f) fs
static-IsApart f a b c d [] t h l = tt
static-IsApart f a b c d (g ∷ fs) t h l = (
  λ e. inl (omega (arith, h, (lies-static a b c d g (sym e ∙ t) l.0).0)),
  static-IsApart f a b c d fs t h l.1,
)

instance-IsApart :
    (f : Field) (a b c d : ℕ) (fs : List Field)
    → is_static f ≡ false
    → f.object_offset + f.data_size ≤ a
    → All (LiesIn a b c d) fs
    → All (IsApart f) fs
instance-IsApart f a b c d [] t h l = tt
instance-IsApart f a b c d (g ∷ fs) t h l = (
  λ e. inl (omega (arith, h, (lies-instance a b c d g (sym e ∙ t) l.0).0)),
  instance-IsApart f a b c d fs t h l.1,
)

-- the first field put before the others, whose places begin behind it
place_static :
    (f : Field) (fs : List Field) (o s : ℕ)
    → is_static f ≡ true
    → s + f.data_size < 2 ^ 16
    → place_fields (f ∷ fs) o s ≡ (
      record f { object_offset = s } ∷ (place_fields fs o (s + f.data_size)).0,
      (place_fields fs o (s + f.data_size)).1,
      (place_fields fs o (s + f.data_size)).2,
    )
unfolding place_fields
place_static f fs o s t h =
    let m : (s + f.data_size) % 2 ^ 16 ≡ s + f.data_size = omega (arith, h) in rw (t, m) refl

place_instance :
    (f : Field) (fs : List Field) (o s : ℕ)
    → is_static f ≡ false
    → o + f.data_size < 2 ^ 16
    → place_fields (f ∷ fs) o s ≡ (
      record f { object_offset = o } ∷ (place_fields fs (o + f.data_size) s).0,
      (place_fields fs (o + f.data_size) s).1,
      (place_fields fs (o + f.data_size) s).2,
    )
unfolding place_fields
place_instance f fs o s t h =
    let m : (o + f.data_size) % 2 ^ 16 ≡ o + f.data_size = omega (arith, h) in rw (t, m) refl

place_none : (o s : ℕ) → place_fields [] o s ≡ ([], o, s)
unfolding place_fields
place_none o s = refl

bytes_static :
    (f : Field) (fs : List Field)
    → is_static f ≡ true
    → (instance_bytes (f ∷ fs) ≡ instance_bytes fs)
      × (static_bytes (f ∷ fs) ≡ f.data_size + static_bytes fs)
bytes_static f fs t = (rw (t) refl, rw (t) refl)

bytes_instance :
    (f : Field) (fs : List Field)
    → is_static f ≡ false
    → (instance_bytes (f ∷ fs) ≡ f.data_size + instance_bytes fs)
      × (static_bytes (f ∷ fs) ≡ static_bytes fs)
bytes_instance f fs t = (rw (t) refl, rw (t) refl)

abbrev Fits : List Field → ℕ → ℕ → Type 0
Fits fs o s = (o + instance_bytes fs < 2 ^ 16) × (s + static_bytes fs < 2 ^ 16)

-- by the first field: the statement for the fields with places behind it gives that for all of them
by_first :
    (P : List Field → ℕ → ℕ → Type 0) (f : Field) (fs : List Field) (o s : ℕ)
    → Fits (f ∷ fs) o s
    → (is_static f ≡ true → s + f.data_size < 2 ^ 16 → Fits fs o (s + f.data_size) → P (f ∷ fs) o s)
    → (is_static f ≡ false
        → o + f.data_size < 2 ^ 16
        → Fits fs (o + f.data_size) s
        → P (f ∷ fs) o s)
    → P (f ∷ fs) o s
by_first P f fs o s h p q = elim (Bool-cases (is_static f)) [
  | inl t ↦
      let b = bytes_static f fs t in
      p t (omega (arith, h.1, b.1)) (omega (arith, h.0, b.0), omega (arith, h.1, b.1))
  | inr e ↦
      let b = bytes_instance f fs e in
      q e (omega (arith, h.0, b.0)) (omega (arith, h.0, b.0), omega (arith, h.1, b.1))
]

abbrev HasSizes : List Field → ℕ → ℕ → Type 0
HasSizes fs o s =
    ((place_fields fs o s).1 ≡ o + instance_bytes fs)
    × ((place_fields fs o s).2 ≡ s + static_bytes fs)

place-HasSizes : (fs : List Field) (o s : ℕ) → Fits fs o s → HasSizes fs o s
place-HasSizes [] o s h =
    let e = place_none o s in
    (
      ap (λ (x : List Field × ℕ × ℕ). x.1) e ∙ omega arith,
      ap (λ (x : List Field × ℕ × ℕ). x.2) e ∙ omega arith,
    )
place-HasSizes (f ∷ fs) o s h =
    by_first HasSizes f fs o s h
      (λ t l r.
        let e = place_static f fs o s t l in
        let i = place-HasSizes fs o (s + f.data_size) r in
        let b = bytes_static f fs t in
        (
          ap (λ (x : List Field × ℕ × ℕ). x.1) e ∙ omega (arith, i.0, b.0),
          ap (λ (x : List Field × ℕ × ℕ). x.2) e ∙ omega (arith, i.1, b.1),
        ))
      (λ t l r.
        let e = place_instance f fs o s t l in
        let i = place-HasSizes fs (o + f.data_size) s r in
        let b = bytes_instance f fs t in
        (
          ap (λ (x : List Field × ℕ × ℕ). x.1) e ∙ omega (arith, i.0, b.0),
          ap (λ (x : List Field × ℕ × ℕ). x.2) e ∙ omega (arith, i.1, b.1),
        ))

IsPlaced-static :
    (f : Field) (o s : ℕ) (r : List Field × ℕ × ℕ)
    → is_static f ≡ true
    → s + f.data_size ≤ r.2
    → IsPlaced o (s + f.data_size) r
    → IsPlaced o s (record f { object_offset = s } ∷ r.0, r.1, r.2)
IsPlaced-static f o s r t l p = (
  (
    rw (t) (omega arith, l),
    all_wider o r.1 (s + f.data_size) r.2 o s r.0 (omega arith) (omega arith) p.0,
  ),
  (
    static-IsApart (record f { object_offset = s }) o r.1 (s + f.data_size) r.2 r.0 t (omega arith)
        p.0,
    p.1,
  ),
)

IsPlaced-instance :
    (f : Field) (o s : ℕ) (r : List Field × ℕ × ℕ)
    → is_static f ≡ false
    → o + f.data_size ≤ r.1
    → IsPlaced (o + f.data_size) s r
    → IsPlaced o s (record f { object_offset = o } ∷ r.0, r.1, r.2)
IsPlaced-instance f o s r t l p = (
  (
    rw (t) (omega arith, l),
    all_wider (o + f.data_size) r.1 s r.2 o s r.0 (omega arith) (omega arith) p.0,
  ),
  (
    instance-IsApart (record f { object_offset = o }) (o + f.data_size) r.1 s r.2 r.0 t
        (omega arith) p.0,
    p.1,
  ),
)

abbrev PlacesAll : List Field → ℕ → ℕ → Type 0
PlacesAll fs o s = IsPlaced o s (place_fields fs o s)

-- When the instance fields fit 16 bits behind the fields of the superclass, and the static fields fit 16
-- bits: each instance field lies between the object size of the superclass and that of the class, each
-- static field within the static data, and no two instance fields, and no two static ones, share a
-- byte. The fields may come in any order.
pub place_fields-IsPlaced :
    (fs : List Field) (o s : ℕ)
    → o + instance_bytes fs < 2 ^ 16
    → s + static_bytes fs < 2 ^ 16
    → IsPlaced o s (place_fields fs o s)
place_fields-IsPlaced [] o s h k = subst (IsPlaced o s) (sym (place_none o s)) (tt, tt)
place_fields-IsPlaced (f ∷ fs) o s h k =
    by_first PlacesAll f fs o s (h, k)
      (λ t l r.
        let e = place_static f fs o s t l in
        let i = place_fields-IsPlaced fs o (s + f.data_size) r.0 r.1 in
        let b = place-HasSizes fs o (s + f.data_size) r in
        subst (IsPlaced o s) (sym e)
          (IsPlaced-static f o s (place_fields fs o (s + f.data_size)) t (omega (arith, b.1)) i))
      (λ t l r.
        let e = place_instance f fs o s t l in
        let i = place_fields-IsPlaced fs (o + f.data_size) s r.0 r.1 in
        let b = place-HasSizes fs (o + f.data_size) s r in
        subst (IsPlaced o s) (sym e)
          (IsPlaced-instance f o s (place_fields fs (o + f.data_size) s) t (omega (arith, b.0)) i))
