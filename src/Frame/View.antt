-- ===== src/Frame/View.antt =====
-- The operand stack as a list of entries, the top first: what the accessors of jthread.c do to it.
use cs_562_jvm.Base.{
  ℕ, zero, suc, ◌+◌, ◌-◌, ◌*◌, ◌^◌, ◌≤◌, ◌<◌, ◌≡◌, refl, ap, ◌∙◌, sym, false, true, lt→ltb, some,
  List, [], ◌∷◌, arith, ltb, ◌==◌, length, get_or, get_elem?, set, length-set, get_or-set_self,
  get_or-set_ne, get_elem?-get_or,
}
use native.Mathlib.Numerals.{add-one}
use cs_562_jvm.Frame.{
  Frame, low_half, high_half, pop_operand, pop_operand_typed, pop_operand2, push_operand,
  push_operand2, peek_operand_type,
}

-- A cell with its type.
abbrev pub Entry : Type 0
Entry = ℕ × ℕ

-- the first `n` entries, the last of them first
abbrev pub entries : List ℕ → List ℕ → ℕ → List Entry
entries cells types zero = []
entries cells types (suc n) = (get_or cells n 0, get_or types n 0) ∷ entries cells types n

-- `f` with its operand stack replaced
abbrev pub with_stack : Frame → List ℕ → List ℕ → ℕ → Frame
with_stack f types operands top = record f { types = types; operands = operands; top = top }

-- `g` is `f` but for the operand stack, which holds `s` and has the same room.
pub record Holds (f : Frame) (s : List Entry) (g : Frame) : Type 0 where
  pub same : g ≡ with_stack f g.types g.operands g.top
  pub cells : length g.operands ≡ length f.operands
  pub tags : length g.types ≡ length f.types
  pub fits : g.top ≤ length g.operands
  pub fits_tags : g.top ≤ length g.types
  pub view : entries g.operands g.types g.top ≡ s

module _ (cells types : List ℕ) where
  entries-set :
      (n i : ℕ) (v t : ℕ)
      → n ≤ i
      → entries (set cells i v) (set types i t) n ≡ entries cells types n
  entries-set zero i v t h = refl
  entries-set (suc n) i v t h = rw (
    get_or-set_ne cells i n v 0 (omega arith),
    get_or-set_ne types i n t 0 (omega arith),
    entries-set n i v t (omega arith),
  )

  -- the parts of a view that is not empty
  entries-cons :
      (n v t : ℕ) (s : List Entry)
      → entries cells types n ≡ (v, t) ∷ s
      → (k : ℕ) × (n ≡ suc k)
        × (get_or cells k 0 ≡ v)
        × (get_or types k 0 ≡ t)
        × (entries cells types k ≡ s)
  entries-cons zero v t s e = absurd (cc)
  entries-cons (suc n) v t s e = (n, refl, ground arith, ground arith, ground arith)

pub length-entries : (cells types : List ℕ) (n : ℕ) → length (entries cells types n) ≡ n
length-entries cells types zero = refl
length-entries cells types (suc n) = ap suc (length-entries cells types n)

module _ {f g : Frame} {s : List Entry} where
  -- popOperand returns the cell of the first entry and leaves the rest
  pub pop_operand-Holds :
      {v t : ℕ}
      → Holds f ((v, t) ∷ s) g
      → (g' : Frame) × (pop_operand g ≡ some (v, g'))
        × (pop_operand_typed g ≡ some ((v, t), g'))
        × Holds f s g'
  unfolding pop_operand pop_operand_typed
  pop_operand-Holds {v} {t} h =
      let (k, top, cell, tag, rest) = entries-cons g.operands g.types g.top v t s h.view in
      let e : g.top - 1 ≡ k = omega arith in
      let c : get_elem? g.operands k ≡ some v =
        get_elem?-get_or g.operands k 0 (omega arith) ∙ ap some cell in
      let y : get_elem? g.types k ≡ some t =
        get_elem?-get_or g.types k 0 (omega arith) ∙ ap some tag in
      let z : (g.top == 0) ≡ false = ground arith in
      (
        record g { top = k },
        rw (z, e, c),
        rw (z, e, c, y),
        record {
          same = ap (λ (x : Frame). record x { top = k }) h.same;
          cells = h.cells;
          tags = h.tags;
          fits = omega (arith, h.fits);
          fits_tags = omega (arith, h.fits_tags);
          view = rest;
        },
      )

  pub push_operand-Holds :
      (v t : ℕ)
      → Holds f s g
      → length s < length f.operands
      → length s < length f.types
      → (g' : Frame) × (push_operand v t g ≡ some g') × Holds f ((v, t) ∷ s) g'
  unfolding push_operand
  push_operand-Holds v t h room room_tags =
      let e : g.top ≡ length s = sym (length-entries g.operands g.types g.top) ∙ ap length h.view in
      let p : ltb g.top (length g.types) ≡ true = lt→ltb _ _ (omega (arith, h.tags)) in
      let q : ltb g.top (length g.operands) ≡ true = lt→ltb _ _ (omega (arith, h.cells)) in
      (
        record g {
          types = set g.types g.top t;
          operands = set g.operands g.top v;
          top = suc g.top;
        },
        rw (p, q, add-one),
        record {
          same =
              ap
                (λ (x : Frame).
                  with_stack x (set g.types g.top t) (set g.operands g.top v) (suc g.top))
                h.same;
          cells = length-set g.operands g.top v ∙ h.cells;
          tags = length-set g.types g.top t ∙ h.tags;
          fits = omega (arith, length-set g.operands g.top v, h.cells);
          fits_tags = omega (arith, length-set g.types g.top t, h.tags);
          view = rw (
            get_or-set_self g.operands g.top v 0 (omega (arith, h.cells)),
            get_or-set_self g.types g.top t 0 (omega (arith, h.tags)),
            entries-set g.operands g.types g.top g.top v t (omega arith),
            h.view,
          );
        },
      )

  -- popOperand2 joins the two topmost cells, the upper one being the high half.
  pub pop_operand2-Holds :
      {hi lo t u : ℕ}
      → Holds f ((hi, t) ∷ (lo, u) ∷ s) g
      → (g' : Frame) × (pop_operand2 g ≡ some (lo + hi * 2 ^ 32, g')) × Holds f s g'
  unfolding pop_operand2
  pop_operand2-Holds {hi} {lo} {t} {u} h =
      let (k, top, cell, tag, rest) = entries-cons g.operands g.types g.top hi t _ h.view in
      let (j, next, cell', tag', rest') = entries-cons g.operands g.types k lo u s rest in
      let c : get_elem? g.operands j ≡ some lo =
        get_elem?-get_or g.operands j 0 (omega arith) ∙ ap some cell' in
      let c' : get_elem? g.operands (j + 1) ≡ some hi =
        rw (add-one, ← next) (get_elem?-get_or g.operands k 0 (omega arith) ∙ ap some cell) in
      let z : ltb g.top 2 ≡ false = ground arith in
      let e : g.top - 2 ≡ j = omega arith in
      (
        record g { top = j },
        rw (z, e, c, c'),
        record {
          same = ap (λ (x : Frame). record x { top = j }) h.same;
          cells = h.cells;
          tags = h.tags;
          fits = omega (arith, h.fits);
          fits_tags = omega (arith, h.fits_tags);
          view = rest';
        },
      )

-- pushOperand2 is two pushes, of the low half and of the high half.
push_operand2_lem :
    (v t : ℕ) (g g₁ g₂ : Frame)
    → push_operand (low_half v) t g ≡ some g₁
    → push_operand (high_half v) t g₁ ≡ some g₂
    → push_operand2 v t g ≡ some g₂
unfolding push_operand push_operand2
push_operand2_lem v t g g₁ g₂ p q =
    ground (arith, length-set g.types g.top t, length-set g.operands g.top (low_half v))

module _ {f g : Frame} {s : List Entry} where
  pub push_operand2-Holds :
      (v t : ℕ)
      → Holds f s g
      → length s + 1 < length f.operands
      → length s + 1 < length f.types
      → (g' : Frame) × (push_operand2 v t g ≡ some g')
        × Holds f ((high_half v, t) ∷ (low_half v, t) ∷ s) g'
  push_operand2-Holds v t h room room_tags =
      let (g₁, p, h₁) = push_operand-Holds (low_half v) t h (omega arith) (omega arith) in
      let (g₂, q, h₂) = push_operand-Holds (high_half v) t h₁ (omega arith) (omega arith) in
      (g₂, push_operand2_lem v t g g₁ g₂ p q, h₂)

  -- peekOperandType reads the type of an entry.
  pub peek_operand_type-Holds : {v t : ℕ} → Holds f ((v, t) ∷ s) g → peek_operand_type 0 g ≡ some t
  unfolding peek_operand_type
  peek_operand_type-Holds {v} {t} h =
      let (k, top, cell, tag, rest) = entries-cons g.operands g.types g.top v t s h.view in
      let z : ltb 0 g.top ≡ true = ground arith in
      let e : g.top - 1 - 0 ≡ k = omega arith in
      rw (z, e) (get_elem?-get_or g.types k 0 (omega (arith, h.fits_tags)) ∙ ap some tag)
