-- ===== src/Tests/Arrays.antt =====
-- Arrays and their instructions.
use cs_562_jvm.Interp.Arrays.Bounds.{refuse, xaload_refuses, xaload_in_bounds}
use cs_562_jvm.Object.Elements.{with_elements, get-set_array_element, byte}
use cs_562_jvm.Interp.Arrays.{handle_instr_xaload}
use cs_562_jvm.Object.{set_array_element, get_array_element, get_array_element_type}
use cs_562_jvm.Interp.Defs.{Throw}
use cs_562_jvm.Frame.{Frame}
use cs_562_jvm.Base.{
  ℕ, [], ◌∷◌, Option, ◌^◌, if◌then◌else◌, some, ◌-◌, ◌≡◌, ◌==◌, false, none, pos, length, arith,
  ◌≢◌, refl, inr, ◌<◌, signed32, signed8,
}
use cs_562_jvm.Machine.{Object, Machine, ok}
use cs_562_jvm.Tests.Machines.{frame, machine, with_height, standing}
use cs_562_jvm.Machine.Effects.{on, Leaves, At}

-- the byte array of length 10 with 1, 2, 3, 251 among its elements
abbrev bytes : Object
bytes = record {
  class_name = b'[' ∷ b'B' ∷ [];
  elements = 1 ∷ 2 ∷ 3 ∷ 4 ∷ 5 ∷ 6 ∷ 7 ∷ 8 ∷ 9 ∷ 251 ∷ [];
  len = 10;
}

abbrev longs : Object
longs = record { class_name = b'[' ∷ b'J' ∷ []; elements = 1 ∷ 2 ∷ 3 ∷ []; len = 3 }

abbrev heap : ℕ → Option Object
heap slot = if slot == 7 then some bytes else if slot == 9 then some longs else none

abbrev b1 : Machine
b1 = record (machine 0) { objects = heap }

abbrev f0 : Frame
f0 = frame []

abbrev throw_slot : Throw
throw_slot class_name message m = ok tt (record m { exception = some 1 })

-- the index 3 into the array of longs
xaload_refuses_example :
    (m : Machine) × At b1 f0 [] ((7, 4) ∷ []) m
    × (handle_instr_xaload throw_slot false (on b1 [] (with_height f0 3))
        ≡ refuse throw_slot (some longs) m)
xaload_refuses_example =
    xaload_refuses false throw_slot 3 9 4 4 (standing b1 f0 [] 3 (omega arith) (omega arith))
      (omega arith, omega arith, inr (omega arith))

xaload_in_bounds_example :
    Leaves b1 f0 []
      ((2 ^ 32 - 5, 2) ∷ [])
      (handle_instr_xaload throw_slot false)
      (pos 1)
      (on b1 [] (with_height f0 2))
unfolding get_array_element_type get_array_element
xaload_in_bounds_example =
    xaload_in_bounds false throw_slot 9 7 4 4 bytes (omega arith) (omega arith) (2 ^ 32 - 5)
      (standing b1 f0 [] 2 (omega arith) (omega arith)) refl refl refl (omega arith, omega arith)

get-set_array_element_example :
    (obj : Object) × (set_array_element bytes 2 511 ≡ some obj)
    × (obj ≡ with_elements bytes obj.elements)
    × (length obj.elements ≡ 10)
    × ((w : ℕ) × (get_array_element obj 2 ≡ some w) × (w < 2 ^ 32) × (signed32 w ≡ signed8 255))
    × ((j : ℕ) → 2 ≢ j → get_array_element obj j ≡ get_array_element bytes j)
get-set_array_element_example =
    get-set_array_element bytes byte 2 511 refl (omega arith) (omega arith)
