-- ===== src/Loader/Paths/Combined.antt =====
-- combinePath joins with one slash, and its result fits the buffer of findClassFile.
use cs_562_jvm.Loader.Paths.{
  slash, combine_path, ClassPath, default_class_path, add_to_classpath, append_location,
}
use cs_562_jvm.Base.{
  ℕ, ◌≤◌, ◌<◌, ◌≡◌, ◌≢◌, refl, Bool, true, false, List, [], ◌∷◌, ◌++◌, some, length, max, All,
  length-append, ap, ◌∙◌, Bool-cases, arith, inl, ◌==◌, inr, ◌*◌, ==_false,
}
use cs_562_jvm.Classfile.{Name}
use cs_562_jvm.Strings.{starts_with, ends_with}
use cs_562_jvm.Strings.Affixes.{starts_with-append, ends_with-append}

alone : (xs : Name) → ◌≡◌ {A = ℕ} 0 1 → xs ≡ slash
alone xs e = absurd (omega (arith, e))

ends_with-slash : (d : Name) → ends_with (some (0, d ++ slash)) (some (1, slash)) ≡ true
ends_with-slash d = (ends_with-append 0 1 (d ++ slash) slash (alone (d ++ slash))).1 (d, refl)

starts_with-slash : (s : Name) → starts_with (some (0, b'/' ∷ s)) (some (1, slash)) ≡ true
starts_with-slash s = (starts_with-append 0 1 (b'/' ∷ s) slash (alone (b'/' ∷ s))).1 (s, refl)

ends_with-other :
    (d : Name)
    → ((rest : Name) → d ≢ rest ++ slash)
    → ends_with (some (0, d)) (some (1, slash)) ≡ false
ends_with-other d h = elim (Bool-cases (ends_with (some (0, d)) (some (1, slash)))) [
  | inl t ↦ (let r = (ends_with-append 0 1 d slash (alone d)).0 t in absurd (h r.0 r.1))
  | inr f ↦ f
]

starts_with-other :
    (s : Name)
    → ((rest : Name) → s ≢ b'/' ∷ rest)
    → starts_with (some (0, s)) (some (1, slash)) ≡ false
starts_with-other s h = elim (Bool-cases (starts_with (some (0, s)) (some (1, slash)))) [
  | inl t ↦ (let r = (starts_with-append 0 1 s slash (alone s)).0 t in absurd (h r.0 r.1))
  | inr f ↦ f
]

append_assoc : (xs ys zs : Name) → (xs ++ ys) ++ zs ≡ xs ++ (ys ++ zs)
append_assoc [] ys zs = refl
append_assoc (x ∷ xs) ys zs = ap (λ r. x ∷ r) (append_assoc xs ys zs)

-- When the directory does not end in a slash and the path does not begin with one, combinePath puts one
-- slash between them, and writes the same if either or both of them get a slash of their own there.
pub combine_path-slashes :
    (d s : Name)
    → ((rest : Name) → d ≢ rest ++ slash)
    → ((rest : Name) → s ≢ b'/' ∷ rest)
    → (combine_path d s ≡ d ++ b'/' ∷ s)
      × (combine_path (d ++ slash) s ≡ d ++ b'/' ∷ s)
      × (combine_path d (b'/' ∷ s) ≡ d ++ b'/' ∷ s)
      × (combine_path (d ++ slash) (b'/' ∷ s) ≡ d ++ b'/' ∷ s)
unfolding combine_path
combine_path-slashes d s h k = (
  rw (ends_with-other d h, starts_with-other s k) (append_assoc d slash s),
  rw (ends_with-slash d, starts_with-other s k)
      (append_assoc (d ++ slash) [] s ∙ append_assoc d slash s),
  rw (ends_with-other d h, starts_with-slash s) (append_assoc d slash s),
  rw (ends_with-slash d, starts_with-slash s)
      (append_assoc (d ++ slash) [] s ∙ append_assoc d slash s),
)

-- the classpath fits its array, and maxClassPathLen is at least the length of every location
abbrev pub IsClassPath : ClassPath → Type 0
IsClassPath p =
    (length p.classpath ≤ p.classpath_length)
    × All (λ dir. length dir ≤ p.max_class_path_len) p.classpath

pub default-IsClassPath : IsClassPath default_class_path
unfolding default_class_path
default-IsClassPath = (omega arith, (omega arith, (omega arith, tt)))

all_append :
    (dirs : List Name) (dir : Name) (n m : ℕ)
    → n ≤ m
    → length dir ≤ m
    → All (λ d. length d ≤ n) dirs
    → All (λ d. length d ≤ m) (dirs ++ dir ∷ [])
all_append [] dir n m h k a = (k, tt)
all_append (d ∷ dirs) dir n m h k a = (omega (arith, h, a.0), all_append dirs dir n m h k a.1)

append_location-IsClassPath :
    (location : Name) (p : ClassPath)
    → length p.classpath < p.classpath_length
    → IsClassPath p
    → IsClassPath (append_location location p)
append_location-IsClassPath location p l h = (
  omega (arith, l, length-append p.classpath (location ∷ [])),
  all_append p.classpath location p.max_class_path_len (max p.max_class_path_len (length location))
      (omega arith) (omega arith) h.1,
)

-- If the classpath fits its array, which is not empty, and maxClassPathLen bounds its locations, then so
-- it is after addToClasspath, whether the array had to grow or not, and whether realloc succeeds.
pub add_to_classpath-IsClassPath :
    (reallocs : Bool) (location : Name) (p : ClassPath)
    → 0 < p.classpath_length
    → IsClassPath p
    → IsClassPath (add_to_classpath reallocs location p).1
unfolding add_to_classpath
add_to_classpath-IsClassPath reallocs location p o h =
    elim (Bool-cases (length p.classpath == p.classpath_length)) [
      | inl t ↦ elim (Bool-cases reallocs) [
        | inl u ↦
            rw (t, u)
              (append_location-IsClassPath location
                (record p { classpath_length = p.classpath_length * 2 }) (omega (arith, o, h.0))
                (omega (arith, h.0), h.1))
        | inr v ↦ rw (t, v) h
      ]
      | inr f ↦ rw (f) (
          append_location-IsClassPath location p
            (omega (arith, h.0, ==_false (length p.classpath) p.classpath_length f)) h)
    ]
