-- ===== src/Interp/Switches/Table.antt =====
-- tableswitch: which bytes the offsets are read from.
use cs_562_jvm.Interp.Switches.{handle_instr_tableswitch}
use cs_562_jvm.Machine.Effects.{At, Ends, pop-At, ends}
use cs_562_jvm.Frame.View.{Entry}
use cs_562_jvm.Interp.Switches.Search.{table_start, padding-At}
use cs_562_jvm.Machine.Control.{IntAt, Reachable, moved, jump-At, read_int-At}
use cs_562_jvm.Frame.{Frame}
use cs_562_jvm.Machine.{Machine}
use cs_562_jvm.Base.{
  ℕ, ◌≡◌, arith, ◌+ℤ◌, ◌-ℤ◌, ℤ, pos, List, ◌+◌, ltb_ℤ, false, Bool, ◌∷◌, signed32,
}

-- The code at the program counter is a tableswitch over the range from `low` to `high`.
pub record IsTable (b : Machine) (f : Frame) (default_offset low high : ℤ) : Type 0 where
  pub default_at : IntAt b f (table_start b) default_offset
  pub low_at : IntAt b f (table_start b + 4) low
  pub high_at : IntAt b f (table_start b + 8) high

add-sub : (n k : ℕ) (i low : ℤ) → i ≡ low +ℤ pos k → pos n +ℤ i -ℤ low ≡ pos (n + k)
unfolding ◌+ℤ◌ ◌-ℤ◌
add-sub n k i low e = rw e (ground arith)

not_below : (k : ℕ) (i low : ℤ) → i ≡ low +ℤ pos k → ltb_ℤ i low ≡ false
unfolding ◌+ℤ◌
not_below k i low e = rw e (ground arith)

module _ {b : Machine} {f : Frame} {fs : List Frame} {s : List Entry} {m : Machine} (wide : Bool)
    {default_offset low high : ℤ} (table : IsTable b f default_offset low high) (index t : ℕ)
    (h : At b f fs ((index, t) ∷ s) m) where
  -- A tableswitch on an index that is `k` above the least entry jumps by the int that begins `k` bytes
  -- behind the three leading ints. (The `k`th entry begins `4 * k` bytes behind them.)
  pub tableswitch_entry :
      (k : ℕ) (offset : ℤ)
      → signed32 index ≡ low +ℤ pos k
      → ltb_ℤ high (signed32 index) ≡ false
      → IntAt b f (table_start b + 12 + k) offset
      → Reachable b offset
      → Ends (moved b offset) f fs s (pos 0) (handle_instr_tableswitch wide m)
  unfolding handle_instr_tableswitch
  tableswitch_entry k offset e below entry inside =
      let (m1, p, _, h1) = pop-At h in
      let (m2, q, h2) = jump-At h1 offset inside in
      rw
        (
          padding-At h,
          read_int-At h table.default_at,
          read_int-At h table.low_at,
          read_int-At h table.high_at,
          p,
          not_below k (signed32 index) low e,
          below,
          add-sub (table_start b + 12) k (signed32 index) low e,
          read_int-At h1 entry,
          q,
        )
        (ends h2)
