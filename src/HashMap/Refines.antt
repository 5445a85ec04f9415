-- ===== src/HashMap/Refines.antt =====
-- The hash map as an association list.
use cs_562_jvm.HashMap.Shape.{ht_put-IsMap}
use cs_562_jvm.Base.{ℕ, Bool, List, true, [], ◌∷◌, length, false}
use cs_562_jvm.HashMap.{HashMap, ht_put, created, Creation, overrun, no_map}
use cs_562_jvm.HashMap.Lookup.{Decides, IsMap}

abbrev map_or : {K V : Type 0} → HashMap K V → Creation K V → HashMap K V
map_or m no_map = m
map_or m (created k) = k
map_or m overrun = m

abbrev is_map : {K V : Type 0} → Creation K V → Bool
is_map no_map = false
is_map (created k) = true
is_map overrun = false

module _ {K V : Type 0} (hash : K → ℕ) (equal : K → K → Bool) (full : ℕ → ℕ → Bool) where
  -- The map `m` after calls of ht_put, the last call first. `callocs` is whether calloc succeeds in a call,
  -- by the number of calls before it.
  abbrev pub puts : (ℕ → Bool) → List (K × V) → HashMap K V → HashMap K V
  puts callocs [] m = m
  puts callocs (e ∷ es) m =
      (ht_put hash equal full (callocs (length es)) true (puts callocs es m) e.0 e.1).1

  module _ (decides : Decides equal) where
    pub puts-IsMap :
        (callocs : ℕ → Bool) (es : List (K × V)) (m : HashMap K V)
        → IsMap hash equal m
        → IsMap hash equal (puts callocs es m)
    puts-IsMap callocs [] m h = h
    puts-IsMap callocs (e ∷ es) m h =
        ht_put-IsMap hash equal decides full (callocs (length es)) true (puts callocs es m) e.0 e.1
          (puts-IsMap callocs es m h)
