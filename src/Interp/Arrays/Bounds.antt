-- ===== src/Interp/Arrays/Bounds.antt =====
-- Bounds of array accesses, and what an access in bounds does.
use cs_562_jvm.Machine.Effects.{At, pop-At, peek_type-At, Room, Leaves, pop-then, push-then, ends}
use cs_562_jvm.Frame.View.{Entry}
use cs_562_jvm.Interp.Arrays.{
  checked, handle_instr_xaload, handle_instr_xastore, advance, get_array_element_type,
  get_array_element,
}
use cs_562_jvm.Frame.{Frame, is_wide}
use cs_562_jvm.Machine.{Machine, Object, M, ◌>>◌}
use cs_562_jvm.Interp.Defs.{Throw}
use cs_562_jvm.Base.{
  ℕ, ◌≡◌, arith, Option, ◌<◌, ◌^◌, some, ltb_ℤ, List, ℤ, signed32, true, pos, Bool, ◌||◌, not, ap,
  ◌∷◌, false, none, refl, ◌∙◌, ◌≤◌, ◌⊎◌,
}

-- The array is NULL, or the number that the pattern `index` stands for is negative or not below the
-- length of the array, which an int holds.
abbrev pub Refused : Option Object → ℕ → Type 0
Refused none index = Unit
Refused (some obj) index =
    (obj.len < 2 ^ 31) × (index < 2 ^ 32) × ((2 ^ 31 ≤ index) ⊎ (obj.len ≤ index))

refused_out_of_bounds :
    (index len : ℕ)
    → len < 2 ^ 31
    → index < 2 ^ 32
    → (2 ^ 31 ≤ index) ⊎ (len ≤ index)
    → (ltb_ℤ (signed32 index) (pos 0) || not (ltb_ℤ (signed32 index) (signed32 len))) ≡ true
refused_out_of_bounds index len h k r = ground arith

-- what a refused access throws
abbrev pub refuse : Throw → Option Object → M ℤ
refuse throw none = do throw "java/lang/NullPointerException" "Array was null"; advance 0
refuse throw (some obj) = do
  throw "java/lang/ArrayIndexOutOfBoundsException" "index was out of bounds for the array"
  advance 0

-- in bounds, the index is a number below the length
in_bounds :
    (index len : ℕ)
    → len < 2 ^ 31
    → index < len
    → (ltb_ℤ (signed32 index) (pos 0) || not (ltb_ℤ (signed32 index) (signed32 len))) ≡ false
in_bounds index len h k = ground arith

checked-refuse :
    (throw : Throw) (found : Option Object) (index : ℕ) (access : Object → M ℤ)
    → Refused found index
    → checked throw index found access ≡ refuse throw found
checked-refuse throw none index access r = refl
checked-refuse throw (some obj) index access r =
    rw (refused_out_of_bounds index obj.len r.0 r.1 r.2) refl

module _ {b : Machine} {f : Frame} {fs : List Frame} {s : List Entry} {m : Machine} where
  objects-At : (slot : ℕ) → At b f fs s m → m.objects slot ≡ b.objects slot
  objects-At slot h = ap (λ (x : Machine). x.objects slot) h.whole

module _ {b : Machine} {f : Frame} {fs : List Frame} {s : List Entry} {m : Machine} (wide : Bool)
    (throw : Throw) (index slot t u : ℕ) where
  -- xaload through null throws a NullPointerException, and with an index that is negative as an int or
  -- not below the length an ArrayIndexOutOfBoundsException. It has then popped the index and the array, and
  -- returns 0.
  pub xaload_refuses :
      At b f fs ((index, t) ∷ (slot, u) ∷ s) m
      → Refused (b.objects slot) index
      → (m' : Machine) × At b f fs s m'
        × (handle_instr_xaload throw wide m ≡ refuse throw (b.objects slot) m')
  unfolding handle_instr_xaload
  xaload_refuses h r =
      let (m1, p, _, h1) = pop-At h in
      let (m2, q, _, h2) = pop-At h1 in
      (
        m2,
        h2,
        rw (p, q, objects-At slot h2)
            (ap (λ (c : M ℤ). c m2) (checked-refuse throw (b.objects slot) index _ r)),
      )

  module _ (obj : Object) (len_small : obj.len < 2 ^ 31) (lt : index < obj.len) where
    -- xaload of an index below the length of an array of one-cell elements, whose data is there, pushes
    -- the element widened to a cell, with the type of the elements.
    pub xaload_in_bounds :
        (v : ℕ)
        → At b f fs ((index, t) ∷ (slot, u) ∷ s) m
        → b.objects slot ≡ some obj
        → is_wide (get_array_element_type obj) ≡ false
        → get_array_element obj index ≡ some v
        → Room f s 1
        → Leaves b f fs
            ((v, get_array_element_type obj) ∷ s)
            (handle_instr_xaload throw wide)
            (pos 1)
            m
    unfolding handle_instr_xaload
    xaload_in_bounds v h found small e room = pop-then _ h λ m1 h1. pop-then _ h1 λ m2 h2.
        rw (objects-At slot h2 ∙ found, in_bounds index obj.len len_small lt, small, e)
          (push-then _ _ _ h2 (omega arith) λ m3 h3. ends h3)

  -- xastore of a one-cell value through null, or with an index out of bounds, throws like xaload; it
  -- has then popped the value too, and changes no object.
  pub xastore_refuses :
      (value ty : ℕ)
      → At b f fs ((value, ty) ∷ (index, t) ∷ (slot, u) ∷ s) m
      → is_wide ty ≡ false
      → Refused (b.objects slot) index
      → (m' : Machine) × At b f fs s m'
        × (handle_instr_xastore throw wide m ≡ refuse throw (b.objects slot) m')
  unfolding handle_instr_xastore
  xastore_refuses value ty h small r =
      let (m1, p, _, h1) = pop-At h in
      let (m2, q, _, h2) = pop-At h1 in
      let (m3, l, _, h3) = pop-At h2 in
      (
        m3,
        h3,
        rw (peek_type-At h, small, p, q, l, objects-At slot h3)
            (ap (λ (c : M ℤ). c m3) (checked-refuse throw (b.objects slot) index _ r)),
      )
