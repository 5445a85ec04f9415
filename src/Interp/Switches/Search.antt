-- ===== src/Interp/Switches/Search.antt =====
-- The binary search of lookupswitch, over keys that the code can be read for.
use cs_562_jvm.Machine.Effects.{At, pop-At, Ends, ends}
use cs_562_jvm.Frame.View.{Entry}
use cs_562_jvm.Machine.Control.{IntAt, Reachable, read_int-At, moved, pc-At, jump-At}
use cs_562_jvm.Frame.{Frame}
use cs_562_jvm.Base.{zero, ◌⊎◌, inl, refl, inr, List, pos, Bool, ◌∷◌, signed32, ap}
use cs_562_jvm.Interp.Switches.{
  lookupswitch_binary_search, read_int_operand, ok, pure, handle_instr_lookupswitch, padding,
}
use cs_562_jvm.Machine.{Machine, fault}
use cs_562_jvm.Base.{
  ℕ, ◌≡◌, arith, ℤ, ◌<◌, ltb_ℤ, ◌≤◌, true, false, ◌+◌, ◌-◌, ◌*◌, ◌/◌, suc, some, if◌then◌else◌, leb,
}

-- the keys of the pairs below `n` are `keys`, and reading them changes nothing
abbrev pub HasKeys : Machine → ℕ → ℕ → (ℕ → ℤ) → Type 0
HasKeys m base n keys = (i : ℕ) → i < n → read_int_operand (base + 8 * i) m ≡ ok (keys i) m

-- the keys below `n` ascend
abbrev pub IsAscending : ℕ → (ℕ → ℤ) → Type 0
IsAscending n keys = (i j : ℕ) → i < j → j < n → ltb_ℤ (keys i) (keys j) ≡ true

compare-cases : (a b : ℕ) → (a < b) ⊎ ((a ≡ b) ⊎ (b < a))
compare-cases a b = omega arith

ltb_ℤ-irrefl : (a : ℤ) → ltb_ℤ a a ≡ false
ltb_ℤ-irrefl a = ground arith

ltb_ℤ-asymm : (a b : ℤ) → ltb_ℤ a b ≡ true → ltb_ℤ b a ≡ false
ltb_ℤ-asymm a b h = ground arith

module _ {m : Machine} (base n : ℕ) (keys : ℕ → ℤ) (has : HasKeys m base n keys) where
  -- one step of the search
  search_step :
      (fuel start end : ℕ) (key : ℤ)
      → start < end
      → end ≤ n
      → let mid = start + (end - start) / 2 in
        lookupswitch_binary_search (suc fuel) base start end key m
        ≡ (if ltb_ℤ (keys mid) key
              then lookupswitch_binary_search fuel base mid end key
              else if ltb_ℤ key (keys mid)
              then lookupswitch_binary_search fuel base start mid key
              else pure (some mid))
            m
  unfolding lookupswitch_binary_search
  search_step fuel start end key h k =
      let t : leb end start ≡ false = ground arith in
      rw (t, has (start + (end - start) / 2) (omega arith))

  -- The search finds the place of a key that is among the keys, if the keys ascend. The fuel that it
  -- needs is one more than the number of pairs.
  search_found :
      (fuel start end j : ℕ)
      → IsAscending n keys
      → start ≤ j
      → j < end
      → end ≤ n
      → end - start < fuel
      → lookupswitch_binary_search fuel base start end (keys j) m ≡ ok (some j) m
  search_found zero start end j up lo hi k enough = absurd (omega arith)
  search_found (suc fuel) start end j up lo hi k enough =
      let mid = start + (end - start) / 2 in
      elim (compare-cases mid j) [
        | inl below ↦
            let t = up mid j below (omega arith) in
            rw (search_step fuel start end (keys j) (omega arith) k, t)
              (search_found fuel mid end j up (omega arith) hi k (omega arith))
        | inr (inl e) ↦
            rw (search_step fuel start end (keys j) (omega arith) k, e, ltb_ℤ-irrefl (keys j))
        | inr (inr above) ↦
            let t = up j mid above (omega arith) in
            rw
              (
                search_step fuel start end (keys j) (omega arith) k,
                ltb_ℤ-asymm (keys j) (keys mid) t,
                t,
              )
              (search_found fuel start mid j up lo above (omega arith) (omega arith))
      ]

  -- A key above all the keys of a range that is not empty is searched for without end: whatever the
  -- fuel, it runs out.
  search_above :
      (fuel start end : ℕ) (key : ℤ)
      → start < end
      → end ≤ n
      → ((i : ℕ) → i < n → ltb_ℤ (keys i) key ≡ true)
      → lookupswitch_binary_search fuel base start end key m ≡ fault
  unfolding lookupswitch_binary_search
  search_above zero start end key h k above = refl
  search_above (suc fuel) start end key h k above =
      let mid = start + (end - start) / 2 in
      rw (search_step fuel start end key h k, above mid (omega arith))
        (search_above fuel mid end key (omega arith) k above)

-- where the operands of a switch at the program counter of `b` begin
abbrev pub table_start : Machine → ℕ
table_start b = b.pc / 4 * 4 + 4 - b.pc

pub padding-At :
    {b : Machine} {f : Frame} {fs : List Frame} {s : List Entry} {m : Machine}
    → At b f fs s m
    → padding m ≡ ok (table_start b) m
unfolding padding
padding-At {m} h = ap (λ (c : ℕ). ok (c / 4 * 4 + 4 - c) m) (pc-At h)

-- The code at the program counter is a lookupswitch with `n` pairs of a key and an offset.
pub record IsLookup (b : Machine) (f : Frame) (n : ℕ) (default_offset : ℤ) (keys offsets : ℕ → ℤ)
    : Type 0 where
  pub default_at : IntAt b f (table_start b) default_offset
  pub npairs_at : IntAt b f (table_start b + 4) (pos n)
  pub key_at : (i : ℕ) → i < n → IntAt b f (table_start b + 8 + 8 * i) (keys i)
  pub offset_at : (i : ℕ) → i < n → IntAt b f (table_start b + 8 + 8 * i + 4) (offsets i)

module _ {b : Machine} {f : Frame} {fs : List Frame} {s : List Entry} {m : Machine} (wide : Bool)
    {n : ℕ} {default_offset : ℤ} {keys offsets : ℕ → ℤ}
    (table : IsLookup b f n default_offset keys offsets) (depth key t : ℕ)
    (h : At b f fs ((key, t) ∷ s) m) where
  -- With the keys in ascending order, a lookupswitch on a key that is among them pops the key and
  -- jumps by the offset that stands beside it, if the C stack is deeper than the number of pairs.
  pub lookupswitch_found :
      (j : ℕ)
      → IsAscending n keys
      → j < n
      → signed32 key ≡ keys j
      → Reachable b (offsets j)
      → n < depth
      → Ends (moved b (offsets j)) f fs s (pos 0) (handle_instr_lookupswitch depth wide m)
  unfolding handle_instr_lookupswitch
  lookupswitch_found j up lt e inside deep =
      let (m1, p, _, h1) = pop-At h in
      let (m2, q, h2) = jump-At h1 (offsets j) inside in
      let found =
        search_found (table_start b + 8) n keys (λ i l. read_int-At h1 (table.key_at i l)) depth 0 n
          j up (omega arith) lt (omega arith) (omega arith) in
      rw
        (
          padding-At h,
          read_int-At h table.default_at,
          read_int-At h table.npairs_at,
          p,
          e,
          found,
          read_int-At h1 (table.offset_at j lt),
          q,
        )
        (ends h2)

  -- A lookupswitch with at least one pair, on a key above all its keys, does not end by jumping to
  -- the default: its search recurs until the C stack is exhausted, however deep it is.
  pub lookupswitch_above :
      0 < n
      → ((i : ℕ) → i < n → ltb_ℤ (keys i) (signed32 key) ≡ true)
      → handle_instr_lookupswitch depth wide m ≡ fault
  unfolding handle_instr_lookupswitch
  lookupswitch_above some_pair above =
      let (m1, p, _, h1) = pop-At h in
      let lost =
        search_above (table_start b + 8) n keys (λ i l. read_int-At h1 (table.key_at i l)) depth 0 n
          (signed32 key) some_pair (omega arith) above in
      rw (padding-At h, read_int-At h table.default_at, read_int-At h table.npairs_at, p, lost)
