-- ===== src/Tests/Maps.antt =====
-- A map of numbers with the remainder by 32 for a hash, which grows when it holds 16 entries.
use cs_562_jvm.Base.{ℕ, Bool, List, [], ◌∷◌, leb, ◌==◌, ◌%◌}

abbrev same : ℕ → ℕ → Bool
same a b = a == b

abbrev hash : ℕ → ℕ
hash key = key % 32

abbrev is_full : ℕ → ℕ → Bool
is_full num_entries length = leb length num_entries

abbrev calls : List (ℕ × ℕ)
calls = (3, 70) ∷ (19, 80) ∷ (3, 90) ∷ []
