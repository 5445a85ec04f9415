-- ===== src/Tests/Control.antt =====
-- Branches, switches and the loop `run`.
use cs_562_jvm.Interp.Constants.{handle_instr_nop}
use cs_562_jvm.Interp.Branches.{
  handle_instr_if_icmpeq, handle_instr_if_icmpne, handle_instr_if_icmplt, handle_instr_if_icmpge,
  handle_instr_if_icmpgt, handle_instr_if_icmple,
}
use cs_562_jvm.Interp.Defs.{Handler}
use cs_562_jvm.Interp.Returns.{run, handle_instr_return}
use cs_562_jvm.Interp.Switches.Table.{IsTable}
use cs_562_jvm.Interp.Switches.{handle_instr_lookupswitch}
use cs_562_jvm.Machine.Control.{moved, CodeByte, IntAt}
use cs_562_jvm.Interp.Switches.Search.{
  IsLookup, IsAscending, lookupswitch_found, table_start, lookupswitch_above,
}
use cs_562_jvm.Interp.Branches.Targets.{Goes, if_icmp-Goes, less}
use cs_562_jvm.Base.{
  ℕ, List, ◌∷◌, [], ◌+◌, ℤ, ◌<◌, pos, arith, false, ◌≡◌, suc, ◌^◌, true, refl, zero, ◌*◌, ◌+ℤ◌,
}
use cs_562_jvm.Frame.{Frame}
use cs_562_jvm.Machine.{Machine, pure, fault, ok, code_byte, from_frame}
use cs_562_jvm.Tests.Machines.{frame, machine, with_height, standing}
use cs_562_jvm.Machine.Effects.{on, Ends}

abbrev b0 : Machine
b0 = machine 0

-- a branch by 20
abbrev f20 : Frame
f20 = frame (0 ∷ 0 ∷ 20 ∷ [])

abbrev at_branch : ℕ → Machine
at_branch n = on b0 [] (with_height f20 n)

if_icmp_example :
    Goes b0 f20 [] [] (pos 20) false (handle_instr_if_icmpeq false (at_branch 2))
    × Goes b0 f20 [] [] (pos 20) true (handle_instr_if_icmpne false (at_branch 2))
    × Goes b0 f20 [] [] (pos 20) true (handle_instr_if_icmplt false (at_branch 2))
    × Goes b0 f20 [] [] (pos 20) false (handle_instr_if_icmpge false (at_branch 2))
    × Goes b0 f20 [] [] (pos 20) false (handle_instr_if_icmpgt false (at_branch 2))
    × Goes b0 f20 [] [] (pos 20) true (handle_instr_if_icmple false (at_branch 2))
unfolding ◌+ℤ◌
if_icmp_example =
    if_icmp-Goes 0 20 refl refl (omega arith) false less 9 7 4 4
      (standing b0 f20 [] 2 (omega arith) (omega arith)) (omega arith) (omega arith) (omega arith)

-- a lookupswitch with the keys 1 and 9, and with the default offset 50
abbrev lookup : Frame
lookup = frame (
    171 ∷ 0 ∷ 0 ∷ 0 ∷ 0 ∷ 0 ∷ 0 ∷ 50 ∷ 0 ∷ 0 ∷ 0 ∷ 2 ∷ 0 ∷ 0 ∷ 0 ∷ 1 ∷ 0 ∷ 0 ∷ 0 ∷ 30 ∷ 0 ∷ 0 ∷ 0
    ∷ 9 ∷ 0 ∷ 0 ∷ 0 ∷ 60 ∷ [])

abbrev keys : ℕ → ℤ
keys zero = pos 1
keys (suc i) = pos 9

abbrev offsets : ℕ → ℤ
offsets zero = pos 30
offsets (suc i) = pos 60

-- an int whose three upper bytes are 0
int_at :
    (f : Frame) (i v : ℕ)
    → CodeByte b0 f i 0
    → CodeByte b0 f (i + 1) 0
    → CodeByte b0 f (i + 2) 0
    → CodeByte b0 f (i + 3) v
    → v < 2 ^ 8
    → IntAt b0 f i (pos v)
int_at f i v e0 e1 e2 e3 h = record {
  b0 = 0;
  b1 = 0;
  b2 = 0;
  b3 = v;
  at0 = e0;
  at1 = e1;
  at2 = e2;
  at3 = e3;
  value = ground arith;
}

key_ints : (i : ℕ) → i < 2 → IntAt b0 lookup (table_start b0 + 8 + 8 * i) (keys i)
key_ints zero h = int_at lookup 12 1 refl refl refl refl (omega arith)
key_ints (suc zero) h = int_at lookup 20 9 refl refl refl refl (omega arith)
key_ints (suc (suc i)) h = absurd (omega arith)

offset_ints : (i : ℕ) → i < 2 → IntAt b0 lookup (table_start b0 + 8 + 8 * i + 4) (offsets i)
offset_ints zero h = int_at lookup 16 30 refl refl refl refl (omega arith)
offset_ints (suc zero) h = int_at lookup 24 60 refl refl refl refl (omega arith)
offset_ints (suc (suc i)) h = absurd (omega arith)

lookup-IsLookup : IsLookup b0 lookup 2 (pos 50) keys offsets
lookup-IsLookup = record {
  default_at = int_at lookup 4 50 refl refl refl refl (omega arith);
  npairs_at = int_at lookup 8 2 refl refl refl refl (omega arith);
  key_at = key_ints;
  offset_at = offset_ints;
}

keys_ascend : IsAscending 2 keys
keys_ascend i zero h k = absurd (omega arith)
keys_ascend zero (suc j) h k = refl
keys_ascend (suc i) (suc j) h k = absurd (omega arith)

lookupswitch_found_example :
    Ends
      (moved b0 (pos 60))
      lookup
      []
      ((7, 4) ∷ [])
      (pos 0)
      (handle_instr_lookupswitch 3 false (on b0 [] (with_height lookup 2)))
lookupswitch_found_example =
    lookupswitch_found false lookup-IsLookup 3 9 4
      (standing b0 lookup [] 2 (omega arith) (omega arith)) 1 keys_ascend (omega arith) refl
      (omega arith) (omega arith)

-- a lookupswitch with the one key 1, and a tableswitch over the range from 8 to 9
abbrev lookup_one : Frame
lookup_one =
    frame (171 ∷ 0 ∷ 0 ∷ 0 ∷ 0 ∷ 0 ∷ 0 ∷ 50 ∷ 0 ∷ 0 ∷ 0 ∷ 1 ∷ 0 ∷ 0 ∷ 0 ∷ 1 ∷ 0 ∷ 0 ∷ 0 ∷ 30 ∷ [])

one_key : (i : ℕ) → i < 1 → IntAt b0 lookup_one (table_start b0 + 8 + 8 * i) (pos 1)
one_key zero h = int_at lookup_one 12 1 refl refl refl refl (omega arith)
one_key (suc i) h = absurd (omega arith)

one_offset : (i : ℕ) → i < 1 → IntAt b0 lookup_one (table_start b0 + 8 + 8 * i + 4) (pos 30)
one_offset zero h = int_at lookup_one 16 30 refl refl refl refl (omega arith)
one_offset (suc i) h = absurd (omega arith)

one-IsLookup : IsLookup b0 lookup_one 1 (pos 50) (λ i. pos 1) (λ i. pos 30)
one-IsLookup = record {
  default_at = int_at lookup_one 4 50 refl refl refl refl (omega arith);
  npairs_at = int_at lookup_one 8 1 refl refl refl refl (omega arith);
  key_at = one_key;
  offset_at = one_offset;
}

lookupswitch_above_example :
    handle_instr_lookupswitch 1000 false (on b0 [] (with_height lookup_one 1)) ≡ fault
lookupswitch_above_example =
    lookupswitch_above false one-IsLookup 1000 7 4
      (standing b0 lookup_one [] 1 (omega arith) (omega arith)) (omega arith) (λ i h. refl)

abbrev switch : Frame
switch = frame (
    170 ∷ 0 ∷ 0 ∷ 0 ∷ 0 ∷ 0 ∷ 0 ∷ 50 ∷ 0 ∷ 0 ∷ 0 ∷ 8 ∷ 0 ∷ 0 ∷ 0 ∷ 9 ∷ 0 ∷ 0 ∷ 0 ∷ 0 ∷ 33 ∷ 0 ∷ 0
    ∷ 2 ∷ [])

switch-IsTable : IsTable b0 switch (pos 50) (pos 8) (pos 9)
switch-IsTable = record {
  default_at = int_at switch 4 50 refl refl refl refl (omega arith);
  low_at = int_at switch 8 8 refl refl refl refl (omega arith);
  high_at = int_at switch 12 9 refl refl refl refl (omega arith);
}

abbrev two_handlers : List Handler
two_handlers = handle_instr_nop ∷ handle_instr_return ∷ []

abbrev program : Frame
program = frame (0 ∷ 1 ∷ [])

ends_in_two : run 2 (pure tt) two_handlers (on b0 [] program) ≡ ok 0 (machine 17)
unfolding run code_byte from_frame handle_instr_nop handle_instr_return
ends_in_two = refl
