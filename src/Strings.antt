-- ===== src/Strings.antt =====
-- Prefixes and suffixes (stringutils.c). A string is the list of its bytes before the terminating 0, and
-- NULL is `none`.
pub mod Affixes
use cs_562_jvm.Base.{
  ℕ, List, Bool, Option, none, some, true, false, suc, if◌then◌else◌, get_or, ◌==◌, ltb, length,
  zero, min, ◌-◌,
}

-- A pointer: NULL, or an address and the string that lies there.
abbrev pub Pointer : Type 0
Pointer = Option (ℕ × List ℕ)

-- the loop of startsWith over `i`, with `n` rounds left
abbrev pub same_from_start : ℕ → ℕ → List ℕ → List ℕ → Bool
same_from_start zero i prefix str = true
same_from_start (suc n) i prefix str =
    let rest = same_from_start n (suc i) prefix str in
    if get_or prefix i 0 == get_or str i 0 then rest else false

unfoldable pub starts_with : Pointer → Pointer → Bool
starts_with none none = true
starts_with none (some p) = false
starts_with (some s) none = false
starts_with (some (a, str)) (some (b, prefix)) =
    if a == b
    then true
    else if ltb (length str) (length prefix)
    then false
    else same_from_start (min (length prefix) (length str)) 0 prefix str

-- the loop of endsWith over `i`, with `n` rounds left
abbrev pub same_from_end : ℕ → ℕ → List ℕ → List ℕ → Bool
same_from_end zero i suffix str = true
same_from_end (suc n) i suffix str =
    let rest = same_from_end n (suc i) suffix str in
    if get_or suffix (length suffix - i - 1) 0 == get_or str (length str - i - 1) 0
    then rest
    else false

unfoldable pub ends_with : Pointer → Pointer → Bool
ends_with none none = true
ends_with none (some p) = false
ends_with (some s) none = false
ends_with (some (a, str)) (some (b, suffix)) =
    if a == b
    then true
    else if ltb (length str) (length suffix)
    then false
    else same_from_end (min (length suffix) (length str)) 0 suffix str
