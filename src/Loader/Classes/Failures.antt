-- ===== src/Loader/Classes/Failures.antt =====
-- When parseClassFile returns NULL.
use mathlib.Core.Bool.{true≢false}
use cs_562_jvm.Parser.Attributes.{lift}
use mathlib.Core.Path.{subst}
use cs_562_jvm.Base.{
  ℕ, ◌≡◌, refl, sym, Bool, List, ◌∷◌, none, some, ◌==◌, Bool-cases, map, zero, suc, inl, inr, ◌*◌,
  Option, ==_iff, [], ◌≢◌, ◌∙◌, ◌⊎◌, ap, false, true,
}
use cs_562_jvm.Classfile.{Name}
use cs_562_jvm.Parser.{Outcome, readu2, readu4, read_bytes, need}
use cs_562_jvm.Parser.Gives.{Gives, at_done, at_failed, at_undefined, and_then-Gives, need-Gives}
use cs_562_jvm.Parser.Pool.{ConstantPool, parse_constant_pool, parse_after_length, sizeof_pointer}
use cs_562_jvm.Parser.Class.{Field}
use cs_562_jvm.Loader.{ok, null, crash, deep, Load, Loader, then_load, of_outcome, put_class}
use cs_562_jvm.Loader.File.{parse_class_file, parse_body, on_null, free_constants, magic}

-- NULL is returned with the loader `l` only, and only if `R` holds
data NullKeeps {ℓ} {A : Type ℓ} (R : Type 0) (l : Loader) : Load A → Type ℓ where
  at_ok : {a : A} {l' : Loader} → NullKeeps R l (ok a l')
  at_null : R → NullKeeps R l (null l)
  at_crash : NullKeeps R l crash
  at_deep : NullKeeps R l deep

kept {ℓ} :
    {A : Type ℓ} {R : Type 0} {l l' : Loader} → NullKeeps {A = A} R l (null l') → (l' ≡ l) × R
kept (at_null r) = (refl, r)

any-Gives {ℓ} : {A : Type ℓ} (o : Outcome A) → Gives (λ a rest. Unit {0}) o
any-Gives (Outcome.done a bytes) = at_done tt
any-Gives Outcome.failed = at_failed
any-Gives Outcome.undefined = at_undefined

read_then {ℓ κ} :
    {A : Type ℓ} {B : Type κ} {P : A → List ℕ → Type 0} {R : Type 0} (o : Outcome A)
    (k : A × List ℕ → Loader → Load B) (l : Loader)
    → Gives P o
    → (o ≡ Outcome.failed → R)
    → ((a : A) (bytes : List ℕ)
        → o ≡ Outcome.done a bytes
        → P a bytes
        → NullKeeps R l (k (a, bytes) l))
    → NullKeeps R l (then_load (of_outcome o l) k)
unfolding of_outcome
read_then (Outcome.done a bytes) k l (at_done p) r f = f a bytes refl p
read_then Outcome.failed k l at_failed r f = at_null (r refl)
read_then Outcome.undefined k l at_undefined r f = at_crash

-- an outcome that is not a failure: it reads on or is undefined
data ReadsOn {ℓ} {A : Type ℓ} : Outcome A → Type ℓ where
  at_value : {a : A} {bytes : List ℕ} → ReadsOn (Outcome.done a bytes)
  at_end : ReadsOn Outcome.undefined

readu2-ReadsOn : (bytes : List ℕ) → ReadsOn (readu2 bytes)
unfolding readu2
readu2-ReadsOn [] = at_end
readu2-ReadsOn (b0 ∷ []) = at_end
readu2-ReadsOn (b0 ∷ b1 ∷ bytes) = at_value

readu4-ReadsOn : (bytes : List ℕ) → ReadsOn (readu4 bytes)
unfolding readu4
readu4-ReadsOn [] = at_end
readu4-ReadsOn (b0 ∷ []) = at_end
readu4-ReadsOn (b0 ∷ b1 ∷ []) = at_end
readu4-ReadsOn (b0 ∷ b1 ∷ b2 ∷ []) = at_end
readu4-ReadsOn (b0 ∷ b1 ∷ b2 ∷ b3 ∷ bytes) = at_value

read_bytes4-ReadsOn : (bytes : List ℕ) → ReadsOn (read_bytes 4 bytes)
read_bytes4-ReadsOn [] = at_end
read_bytes4-ReadsOn (b0 ∷ []) = at_end
read_bytes4-ReadsOn (b0 ∷ b1 ∷ []) = at_end
read_bytes4-ReadsOn (b0 ∷ b1 ∷ b2 ∷ []) = at_end
read_bytes4-ReadsOn (b0 ∷ b1 ∷ b2 ∷ b3 ∷ bytes) = at_value

lift-ReadsOn {ℓ} : {A : Type ℓ} (o : Option A) (bytes : List ℕ) → ReadsOn (lift o bytes)
lift-ReadsOn none bytes = at_end
lift-ReadsOn (some a) bytes = at_value

read_on {ℓ κ} :
    {A : Type ℓ} {B : Type κ} {R : Type 0} (o : Outcome A) (k : A × List ℕ → Loader → Load B)
    (l : Loader)
    → ReadsOn o
    → ((a : A) (bytes : List ℕ) → o ≡ Outcome.done a bytes → NullKeeps R l (k (a, bytes) l))
    → NullKeeps R l (then_load (of_outcome o l) k)
unfolding of_outcome
read_on (Outcome.done a bytes) k l at_value f = f a bytes refl
read_on Outcome.failed k l h f = elim h [ ]
read_on Outcome.undefined k l at_end f = at_crash

need_then {κ} :
    {B : Type κ} {R : Type 0} (b : Bool) (k : Unit {0} × List ℕ → Loader → Load B) (l : Loader)
    (bytes : List ℕ)
    → (b ≡ false → R)
    → NullKeeps R l (k (tt, bytes) l)
    → NullKeeps R l (then_load (of_outcome (need b bytes) l) k)
unfolding of_outcome
need_then true k l bytes r h = h
need_then false k l bytes r h = at_null (r refl)

abbrev BeginsNull : ConstantPool → List ℕ → Type 0
BeginsNull pool rest = (entries : ConstantPool) × (pool ≡ none ∷ entries)

crashes :
    {A : Type 0} {R : Type 0} (pool : ConstantPool) (l : Loader) (o : Load A)
    → NullKeeps R l (on_null (free_constants (none ∷ pool)) o)
crashes pool l (ok a l') = at_ok
crashes pool l (null l') = at_crash
crashes pool l crash = at_crash
crashes pool l deep = at_deep

module _ (mallocs : ℕ → Bool) where
  after_length-BeginsNull :
      (n : ℕ) (bytes : List ℕ) → Gives BeginsNull (parse_after_length mallocs n bytes)
  after_length-BeginsNull zero bytes = at_undefined
  after_length-BeginsNull (suc n) bytes =
      and_then-Gives (any-Gives _) (λ entries rest u. at_done (map some entries, refl))

  pool-BeginsNull : (bytes : List ℕ) → Gives BeginsNull (parse_constant_pool mallocs bytes)
  unfolding parse_constant_pool
  pool-BeginsNull bytes = and_then-Gives (any-Gives (readu2 bytes)) (λ n bytes1 u.
      need-Gives (mallocs (sizeof_pointer * n)) _ bytes1 (after_length-BeginsNull n bytes1))

  -- what parseClassFile gives up on before the class is put in the map: a wrong magic number, a malloc
  -- for the class, or a constant pool that cannot be read behind the magic number and the version
  abbrev pub GaveUp : ℕ → List ℕ → Type 0
  GaveUp sizeof_class bytes =
      ((number : ℕ) × (rest : List ℕ) × (readu4 bytes ≡ Outcome.done number rest)
        × (number ≢ magic))
      ⊎ ((mallocs sizeof_class ≡ false)
          ⊎ ((rest : List ℕ) × (version : List ℕ) × (pool_bytes : List ℕ) × (readu4 bytes
                ≡ Outcome.done magic rest)
              × (read_bytes 4 rest ≡ Outcome.done version pool_bytes)
              × (parse_constant_pool mallocs pool_bytes ≡ Outcome.failed)))

  module _ (full : ℕ → ℕ → Bool) (sort : List Field → List Field) (sizeof_object : ℕ)
      (load : Name → Loader → Load ℕ) where
    -- from the flags on, NULL is never returned
    body-NullKeeps :
        {R : Type 0} (pool : ConstantPool) (bytes : List ℕ) (l : Loader)
        → NullKeeps R l (parse_body full mallocs sort sizeof_object load (none ∷ pool) bytes l)
    unfolding parse_body put_class
    body-NullKeeps pool bytes l = read_on _ _ l (readu2-ReadsOn bytes) (λ flags bytes1 e1.
        read_on _ _ l (readu2-ReadsOn bytes1) (λ index bytes2 e2.
          read_on _ _ l (lift-ReadsOn _ bytes2) (λ name bytes3 e3. crashes pool l _)))

    class_file-NullKeeps :
        (sizeof_class : ℕ) (bytes : List ℕ) (l : Loader)
        → NullKeeps
            (GaveUp sizeof_class bytes)
            l
            (parse_class_file full mallocs sort sizeof_object load sizeof_class bytes l)
    unfolding parse_class_file
    class_file-NullKeeps sizeof_class bytes l =
        read_on _ _ l (readu4-ReadsOn bytes) (λ number bytes1 e1.
          elim (Bool-cases (number == magic)) [
            | inl t ↦
                let m = (==_iff number magic).0 t in
                rw (t) (
                  read_on _ _ l (read_bytes4-ReadsOn bytes1) (λ version bytes2 e2.
                    need_then (mallocs sizeof_class) _ l bytes2 (λ no_room. inr (inl no_room))
                      (read_then _ _ l (pool-BeginsNull bytes2)
                        (λ failed. inr (
                          inr (
                            bytes1,
                            version,
                            bytes2,
                            e1 ∙ ap (λ n. Outcome.done n bytes1) m,
                            e2,
                            failed,
                          )))
                        (λ pool bytes4 e p.
                          subst
                            (λ pool'.
                              NullKeeps (GaveUp sizeof_class bytes) l
                                (parse_body full mallocs sort sizeof_object load pool' bytes4 l))
                            (sym p.1) (body-NullKeeps p.0 bytes4 l)))))
            | inr f ↦ rw (f) (
                at_null
                  (inl (number, bytes1, e1, λ q. true≢false (sym ((==_iff number magic).1 q) ∙ f))))
          ])

    -- When parseClassFile returns NULL, it has not changed the loader, and the reason is one of these: the
    -- file begins with another number than the magic one, malloc fails for the class, or the constant
    -- pool behind magic number and version cannot be read. No later failure, like a superclass that cannot
    -- be loaded, makes it return NULL.
    pub parse_class_file-null :
        (sizeof_class : ℕ) (bytes : List ℕ) (l l' : Loader)
        → parse_class_file full mallocs sort sizeof_object load sizeof_class bytes l ≡ null l'
        → (l' ≡ l) × GaveUp sizeof_class bytes
    parse_class_file-null sizeof_class bytes l l' e = kept (
        subst (NullKeeps (GaveUp sizeof_class bytes) l) e
          (class_file-NullKeeps sizeof_class bytes l))
