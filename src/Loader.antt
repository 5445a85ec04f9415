-- ===== src/Loader.antt =====
-- Class loading (classloader.c). Classes are named by the order in which they were put in the map
-- loadedClasses, which is the hash map of hashmap.c. The files that findClassFile finds are an argument.
-- The functions run under classLoadingLock, one call at a time.

pub mod Paths
pub mod File
pub mod Classes
use cs_562_jvm.Base.{
  ℕ, ◌+◌, ◌*◌, ◌%◌, ◌^◌, Bool, List, [], ◌∷◌, ◌++◌, Option, none, some, length, get_elem?, set,
}
use cs_562_jvm.Classfile.{Name}
use cs_562_jvm.HashMap.{no_map, created, overrun, HashMap, ht_create_hashmap, ht_put, ht_get}
use cs_562_jvm.Parser.{Outcome, Parser}
use cs_562_jvm.Parser.Pool.{ConstantPool}
use cs_562_jvm.Parser.Attributes.{Attributes, same}
use cs_562_jvm.Parser.Class.{Field, Method}
use Prim.Native.Nat.{bit_xor}

-- CLASS_STATUS_LOADING, … in classfile.h
pub data Status : Type 0 where
  loading loaded initializing initialized : Status

-- struct class, without its lock. A class is a number; the members numInterfaces, numMethods and
-- numFields are the lengths of the lists.
pub record Class : Type 0 where
  pub name : Name
  pub constant_pool : ConstantPool
  pub super_class : Option ℕ
  pub interfaces : List ℕ
  pub methods : List Method
  pub fields : List Field
  pub attributes : Attributes
  pub static_field_data : List ℕ
  pub object_size : ℕ
  pub static_data_size : ℕ
  pub flags : ℕ
  pub status : Status

pub record Loader : Type 0 where
  pub classes : List Class
  pub loaded_classes : HashMap Name ℕ

-- `hash = ((hash << 5) + hash) ^ c`, from the hash so far
abbrev pub hash_from : ℕ → Name → ℕ
hash_from hash [] = hash
hash_from hash (c ∷ str) = hash_from (bit_xor ((hash * 2 ^ 5 + hash) % 2 ^ 64) c) str

unfoldable pub str_hash_fn : Name → ℕ
str_hash_fn str = hash_from 5381 str

unfoldable pub str_equality_fn : Name → Name → Bool
str_equality_fn str1 str2 = same str1 str2

-- a loader whose map is `m`
abbrev pub with_map : HashMap Name ℕ → Loader
with_map m = record { classes = []; loaded_classes = m }

-- initClassLoader as far as the map goes; `block` and `callocs` are what ht_createHashmap is given
unfoldable pub init_class_loader : Option ℕ → Bool → Option Loader
unfolding str_hash_fn ht_create_hashmap
init_class_loader block callocs = elim (ht_create_hashmap (some str_hash_fn) block callocs) [
  | no_map ↦ none
  | created m ↦ some (with_map m)
  | overrun ↦ none
]

abbrev pub get_class : Name → Loader → Option ℕ
unfolding str_hash_fn str_equality_fn
get_class name l = ht_get str_hash_fn str_equality_fn l.loaded_classes name

-- What a call gives: a value, NULL, undefined behaviour, or `deep`, when the bound on the recursion
-- is reached.
pub data Load {ℓ} (A : Type ℓ) : Type ℓ where
  ok : A → Loader → Load A
  null : Loader → Load A
  crash : Load A
  deep : Load A

abbrev pub then_load {ℓ κ} : {A : Type ℓ} {B : Type κ} → Load A → (A → Loader → Load B) → Load B
then_load (ok a l) k = k a l
then_load (null l) k = null l
then_load crash k = crash
then_load deep k = deep

-- a part of parseClassFile, which reads on and loads other classes
abbrev pub K {ℓ} : Type ℓ → Type ℓ
K A = List ℕ → Loader → Load (A × List ℕ)

abbrev pub pure {ℓ} : {A : Type ℓ} → A → K A
pure a bytes l = ok (a, bytes) l

infixl 5 ◌>>=◌ ◌>>◌
abbrev pub ◌>>=◌ {ℓ κ} : {A : Type ℓ} {B : Type κ} → K A → (A → K B) → K B
c >>= k = λ bytes l. then_load (c bytes l) λ p. k p.0 p.1

abbrev pub ◌>>◌ {ℓ κ} : {A : Type ℓ} {B : Type κ} → K A → K B → K B
c >> k = c >>= λ _. k

unfoldable pub of_outcome {ℓ} : {A : Type ℓ} → Outcome A → Loader → Load (A × List ℕ)
of_outcome (Outcome.done a bytes) l = ok (a, bytes) l
of_outcome Outcome.failed l = null l
of_outcome Outcome.undefined l = crash

abbrev pub read {ℓ} : {A : Type ℓ} → Parser A → K A
read p bytes l = of_outcome (p bytes) l

-- a call of loadClass0
abbrev pub call {ℓ} : {A : Type ℓ} → (Loader → Load A) → K A
call c bytes l = then_load (c l) λ a. ok (a, bytes)

-- `full` is the comparison of numEntries with the load factor, `mallocs n` whether malloc and calloc
-- find n bytes; a node takes 32 bytes, and the table grows to twice its length.
module _ (full : ℕ → ℕ → Bool) (mallocs : ℕ → Bool) where
  abbrev pub with_class : Class → Loader → Loader
  with_class c l = record {
    classes = l.classes ++ c ∷ [];
    loaded_classes =
        (ht_put str_hash_fn str_equality_fn full (mallocs (16 * l.loaded_classes.length))
          (mallocs 32) l.loaded_classes c.name (length l.classes)).1;
  }

  -- `ht_put(loadedClasses, class->name, class)`, with the class made last
  unfoldable pub put_class : Class → Loader → Load ℕ
  put_class c l = ok (length l.classes) (with_class c l)
