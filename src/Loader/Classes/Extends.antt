-- ===== src/Loader/Classes/Extends.antt =====
-- Loading a class adds classes to the loader and changes none that were there.
use cs_562_jvm.HashMap.Lookup.{IsMap}
use cs_562_jvm.Loader.Classes.{parse_class_file, File}
use cs_562_jvm.Base.{ℕ, ◌≤◌, ◌<◌, ◌≡◌, List, length, get_elem?, some, ◌⊎◌}
use cs_562_jvm.Classfile.{Name}
use cs_562_jvm.Loader.{
  ok, null, crash, deep, Load, Loader, K, Class, get_class, str_hash_fn, str_equality_fn,
}
use cs_562_jvm.Loader.File.{parse_class_file}

-- the map of the classes is well formed
abbrev pub IsLoader : Loader → Type 0
IsLoader l = IsMap str_hash_fn str_equality_fn l.loaded_classes

-- a name that the map of `l` has is in that of `l'`, with the same class or one made since
abbrev pub Registers : Loader → Loader → Type 0
Registers l l' =
    (name : Name) (id : ℕ)
    → get_class name l ≡ some id
    → (id' : ℕ) × (get_class name l' ≡ some id') × ((id' ≡ id) ⊎ (length l.classes ≤ id'))

-- the classes of `l` are in `l'` as they were, and their names are registered
abbrev pub Extends : Loader → Loader → Type 0
Extends l l' =
    (length l.classes ≤ length l'.classes)
    × ((i : ℕ) → i < length l.classes → get_elem? l'.classes i ≡ get_elem? l.classes i)
    × IsLoader l'
    × Registers l l'

pub data Grows {ℓ} {A : Type ℓ} (l : Loader) : Load A → Type ℓ where
  at_ok : {a : A} {l' : Loader} → Extends l l' → Grows l (ok a l')
  at_null : {l' : Loader} → Extends l l' → Grows l (null l')
  at_crash : Grows l crash
  at_deep : Grows l deep

-- a part of parseClassFile, and a call, that only adds classes
abbrev Adds {ℓ} : {A : Type ℓ} → K A → Type ℓ
Adds c = (l0 : Loader) (bytes : List ℕ) (l : Loader) → Extends l0 l → Grows l0 (c bytes l)

abbrev Loads : (Name → Loader → Load ℕ) → Type 0
Loads load = (name : Name) (l0 l : Loader) → Extends l0 l → Grows l0 (load name l)
