-- ===== src/Loader/Classes/Deeper.antt =====
-- The bound on the recursion of loadClass0: a larger one changes no result.
use cs_562_jvm.Parser.{readu2, readu4, need, read_bytes}
use cs_562_jvm.Loader.Classes.{
  File, load_file, load_array_class, load_class0, contents, load_absent, load_step, object_name,
  missing, unreadable,
}
use cs_562_jvm.Base.{
  ℕ, suc, zero, ◌≡◌, ◌≢◌, refl, Bool, List, Option, none, some, ◌==◌, Bool-cases, inl, inr, ◌≤◌,
  arith, ◌*◌,
}
use cs_562_jvm.Classfile.{Name, char_at}
use cs_562_jvm.Parser.Pool.{ConstantPool, sizeof_pointer, parse_constant_pool}
use cs_562_jvm.Parser.Class.{Field, class_name_at}
use cs_562_jvm.Loader.{
  ok, null, crash, deep, Load, Loader, then_load, K, get_class, Class, put_class, read,
}
use cs_562_jvm.Parser.Attributes.{lift}
use cs_562_jvm.Loader.File.{
  parse_class_file, load_named, load_super, load_interfaces, on_null, parse_members, parse_body,
  magic, free_constants, begun,
}

-- the second result is the first, where the first did not reach the bound
data Covers {ℓ} {A : Type ℓ} : Load A → Load A → Type ℓ where
  at_deep : {o : Load A} → Covers deep o
  same : {o : Load A} → Covers o o

covered {ℓ} : {A : Type ℓ} {o o' : Load A} → Covers o o' → o ≢ deep → o' ≡ o
covered at_deep h = absurd (h refl)
covered same h = refl

then_load-Covers {ℓ κ} :
    {A : Type ℓ} {B : Type κ} {o o' : Load A} {k k' : A → Loader → Load B}
    → Covers o o'
    → ((a : A) (l : Loader) → Covers (k a l) (k' a l))
    → Covers (then_load o k) (then_load o' k')
then_load-Covers at_deep f = at_deep
then_load-Covers {o = ok a l} same f = f a l
then_load-Covers {o = null l} same f = same
then_load-Covers {o = crash} same f = same
then_load-Covers {o = deep} same f = at_deep

abbrev CoversAll : (Name → Loader → Load ℕ) → (Name → Loader → Load ℕ) → Type 0
CoversAll load load' = (name : Name) (l : Loader) → Covers (load name l) (load' name l)

abbrev CoversPart {ℓ} : {A : Type ℓ} → K A → K A → Type ℓ
CoversPart c c' = (bytes : List ℕ) (l : Loader) → Covers (c bytes l) (c' bytes l)

module _ (load load' : Name → Loader → Load ℕ) (covers : CoversAll load load') where
  module _ (pool : ConstantPool) where
    named-Covers :
        (index : ℕ) → CoversPart (load_named load pool index) (load_named load' pool index)
    unfolding load_named
    named-Covers index bytes l =
        then_load-Covers same (λ name l1. then_load-Covers (covers name.0 l1) (λ a l2. same))

    super-Covers :
        (index : ℕ) → CoversPart (load_super load pool index) (load_super load' pool index)
    unfolding load_super
    super-Covers index bytes l = elim (Bool-cases (index == 0)) [
      | inl t ↦ rw (t) same
      | inr f ↦ rw (f) (then_load-Covers (named-Covers index bytes l) (λ a l1. same))
    ]

    interfaces-Covers :
        (n : ℕ) → CoversPart (load_interfaces load pool n) (load_interfaces load' pool n)
    unfolding load_interfaces
    interfaces-Covers zero bytes l = same
    interfaces-Covers (suc n) bytes l = then_load-Covers same (λ index l1.
        then_load-Covers (named-Covers index.0 index.1 l1)
          (λ a l2. then_load-Covers (interfaces-Covers n a.1 l2) (λ b l3. same)))

  on_null-Covers :
      {A : Type 0} (cleanup : Loader → Load A) {o o' : Load A}
      → Covers o o'
      → Covers (on_null cleanup o) (on_null cleanup o')
  on_null-Covers cleanup at_deep = at_deep
  on_null-Covers cleanup same = same

  module _ (full : ℕ → ℕ → Bool) (mallocs : ℕ → Bool) (sort : List Field → List Field)
      (sizeof_object : ℕ) where
    members-Covers :
        (pool : ConstantPool) (id : ℕ) (c : Class)
        → CoversPart
            (parse_members full mallocs sort sizeof_object load pool id c)
            (parse_members full mallocs sort sizeof_object load' pool id c)
    unfolding parse_members
    members-Covers pool id c bytes l = then_load-Covers {o = read readu2 bytes l} same (λ a1 l1.
        then_load-Covers (super-Covers pool a1.0 a1.1 l1) (λ a2 l2.
          then_load-Covers {o = read readu2 a2.1 l2} same (λ a3 l3.
            then_load-Covers {o = read (need (mallocs (sizeof_pointer * a3.0))) a3.1 l3} same
              (λ a4 l4. then_load-Covers (interfaces-Covers pool a3.0 a4.1 l4) (λ a5 l5. same)))))

    body-Covers :
        (pool : ConstantPool)
        → CoversPart
            (parse_body full mallocs sort sizeof_object load pool)
            (parse_body full mallocs sort sizeof_object load' pool)
    unfolding parse_body put_class
    body-Covers pool bytes l = then_load-Covers {o = read readu2 bytes l} same (λ a1 l1.
        then_load-Covers {o = read readu2 a1.1 l1} same (λ a2 l2.
          then_load-Covers {o = read (lift (class_name_at pool a2.0)) a2.1 l2} same (λ a3 l3.
            on_null-Covers (free_constants pool)
              (members-Covers pool _ (begun pool a1.0 a3.0) a3.1 _))))

    class_file-Covers :
        (sizeof_class : ℕ)
        → CoversPart
            (parse_class_file full mallocs sort sizeof_object load sizeof_class)
            (parse_class_file full mallocs sort sizeof_object load' sizeof_class)
    unfolding parse_class_file
    class_file-Covers sizeof_class bytes l =
        then_load-Covers {o = read readu4 bytes l} same (λ number l1.
          elim (Bool-cases (number.0 == magic)) [
            | inl t ↦ rw (t) (
                then_load-Covers {o = read (read_bytes 4) number.1 l1} same (λ a1 l2.
                  then_load-Covers {o = read (need (mallocs sizeof_class)) a1.1 l2} same (λ a2 l3.
                    then_load-Covers {o = read (parse_constant_pool mallocs) a2.1 l3} same
                      (λ a3 l4. body-Covers a3.0 a3.1 l4))))
            | inr f ↦ rw (f) same
          ])

    module _ (sizeof_class : ℕ) (files : Name → File) where
      file-Covers :
          (f : File) (l : Loader)
          → Covers
              (load_file full mallocs sizeof_class sizeof_object sort files load f l)
              (load_file full mallocs sizeof_class sizeof_object sort files load' f l)
      unfolding load_file
      file-Covers missing l = same
      file-Covers unreadable l = same
      file-Covers (contents bytes) l =
          then_load-Covers (class_file-Covers sizeof_class bytes l) (λ a l1. same)

      absent-Covers :
          (name : Name) (l : Loader) (known : Option ℕ)
          → Covers
              (load_absent full mallocs sizeof_class sizeof_object sort files load name l known)
              (load_absent full mallocs sizeof_class sizeof_object sort files load' name l known)
      unfolding load_array_class
      absent-Covers name l (some id) = same
      absent-Covers name l none = elim (Bool-cases (char_at name 0 == b'[')) [
        | inl t ↦ rw (t) (then_load-Covers (covers object_name l) (λ a l1. same))
        | inr f ↦ rw (f) (file-Covers (files name) l)
      ]

module _ (full : ℕ → ℕ → Bool) (mallocs : ℕ → Bool) (sizeof_class sizeof_object : ℕ)
    (sort : List Field → List Field) (files : Name → File) where
  class0-Covers :
      (d e : ℕ)
      → d ≤ e
      → CoversAll
          (load_class0 full mallocs sizeof_class sizeof_object sort files d)
          (load_class0 full mallocs sizeof_class sizeof_object sort files e)
  unfolding load_class0 load_step
  class0-Covers zero e h name l = at_deep
  class0-Covers (suc d) zero h name l = absurd (omega (arith, h))
  class0-Covers (suc d) (suc e) h name l =
      absent-Covers (load_class0 full mallocs sizeof_class sizeof_object sort files d)
        (load_class0 full mallocs sizeof_class sizeof_object sort files e)
        (class0-Covers d e (omega (arith, h))) full mallocs sort sizeof_object sizeof_class files
        name l (get_class name l)

  -- When loadClass0 ends within a bound on the calls within each other, a larger bound gives the same
  -- result.
  pub load_class0-deeper :
      (d e : ℕ) (name : Name) (l : Loader)
      → d ≤ e
      → load_class0 full mallocs sizeof_class sizeof_object sort files d name l ≢ deep
      → load_class0 full mallocs sizeof_class sizeof_object sort files e name l
        ≡ load_class0 full mallocs sizeof_class sizeof_object sort files d name l
  load_class0-deeper d e name l h k = covered (class0-Covers d e h name l) k
