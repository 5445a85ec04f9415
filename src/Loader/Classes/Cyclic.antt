-- ===== src/Loader/Classes/Cyclic.antt =====
-- The map of the classes that are loaded, and a class that is its own superclass.
use cs_562_jvm.Loader.Classes.{File}
use mathlib.Core.Path.{subst}
use mathlib.Core.Bool.{true≢false}
use cs_562_jvm.Base.{
  ℕ, ◌≡◌, refl, Bool, true, false, [], ◌∷◌, some, ◌==◌, Bool-cases, length, if◌then◌else◌, ◌*◌,
  ==_iff, sym, inl, ap, ◌∙◌, inr,
}
use cs_562_jvm.Classfile.{Name}
use cs_562_jvm.HashMap.Lookup.{IsMap, Decides}
use cs_562_jvm.HashMap.Put.{ht_get-ht_put}
use cs_562_jvm.Parser.Attributes.{same}
use cs_562_jvm.Loader.{Loader, Class, get_class, with_class, str_hash_fn, str_equality_fn}

same_sound : (a b : Name) → same a b ≡ true → a ≡ b
same_sound [] [] e = refl
same_sound [] (c ∷ b) e = absurd (true≢false (sym e))
same_sound (c ∷ a) [] e = absurd (true≢false (sym e))
same_sound (c ∷ a) (d ∷ b) e = elim (Bool-cases (c == d)) [
  | inl t ↦
      (let r = same_sound a b (ap (λ x. if x then same a b else false) (sym t) ∙ e) in
        let q = (==_iff c d).0 t in cc)
  | inr f ↦ absurd (true≢false (sym e ∙ ap (λ x. if x then same a b else false) f))
]

same_refl : (a : Name) → same a a ≡ true
same_refl [] = refl
same_refl (c ∷ a) = rw ((==_iff c c).1 refl, same_refl a) refl

pub str_equality_fn-Decides : Decides str_equality_fn
unfolding str_equality_fn
str_equality_fn-Decides a b = (same_sound a b, λ e. subst (λ c. same a c ≡ true) e (same_refl a))

module _ (full : ℕ → ℕ → Bool) (mallocs : ℕ → Bool) where
  -- When the map is well formed and malloc finds a node, a class that is put in the map is found under
  -- its name, as the class made last, and the other names give what they gave before.
  pub get_class-with_class :
      (c : Class) (l : Loader) (name : Name)
      → IsMap str_hash_fn str_equality_fn l.loaded_classes
      → mallocs 32 ≡ true
      → get_class name (with_class full mallocs c l)
        ≡ (if str_equality_fn c.name name then some (length l.classes) else get_class name l)
  unfolding get_class
  get_class-with_class c l name h m =
      rw (m)
        (ht_get-ht_put str_hash_fn str_equality_fn str_equality_fn-Decides full
          (mallocs (16 * l.loaded_classes.length)) l.loaded_classes c.name name (length l.classes)
          h).0
