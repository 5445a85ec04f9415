-- ===== src/Parser/Attributes/Printed.antt =====
-- The attributes of a class file as the format describes them, and that parseAttributes reads them. In
-- the file an attribute has the index of its name and the length of the rest, before its contents.
use cs_562_jvm.Parser.Attributes.{
  ExceptionTable, read_handlers, parse_attribute, Name, read_handler, parse_code, attributes_within,
  attributes_loop, Attribute, name_at, parse_attributes, constant_value_attribute,
  constant_value_name, code_attribute, code_name, signature_attribute, signature_name,
  skipped_attribute, same, Attributes, nil, cons, sizeof_pointer,
}
use cs_562_jvm.Base.{
  ℕ, suc, zero, Bool, true, false, length, ◌≤◌, ◌≡◌, refl, List, [], ◌∷◌, ◌++◌, ◌+◌, max, some, sym,
  ◌∙◌, arith, ◌*◌,
}
use cs_562_jvm.Parser.{done, stray}
use cs_562_jvm.Parser.Reads.{put2, put4, readu2-put2, readu4-put4, read_bytes-append}
use cs_562_jvm.Parser.Pool.{ConstantPool}
use cs_562_jvm.Parser.Attributes.Depth.{parse_attributes-deeper}

-- Each begins with the index of the name; the length before the contents of the three that are known
-- is whatever the file has there.
mutual
  pub data Item : Type 0 where
    constant_value_item : ℕ → ℕ → ℕ → Item
    code_item : ℕ → ℕ → ℕ → ℕ → List ℕ → List ExceptionTable → Items → Item
    signature_item : ℕ → ℕ → ℕ → Item
    other_item : ℕ → Name → List ℕ → Item

  pub data Items : Type 0 where
    end : Items
    item : Item → Items → Items

abbrev pub print_handlers : List ExceptionTable → List ℕ → List ℕ
print_handlers [] bytes = bytes
print_handlers (h ∷ hs) bytes =
    put2 h.start_pc
      (put2 h.end_pc (put2 h.handler_pc (put2 h.catch_type (print_handlers hs bytes))))

abbrev pub count : Items → ℕ
count end = 0
count (item i is) = suc (count is)

abbrev mutual
  pub print_item : Item → List ℕ → List ℕ
  print_item (constant_value_item name n value) bytes = put2 name (put4 n (put2 value bytes))
  print_item (code_item name n stack locals code handlers is) bytes = put2 name (
      put4 n (
        put2 stack (
          put2 locals (
            put4 (length code) (
              code
              ++ put2 (length handlers)
                  (print_handlers handlers (put2 (count is) (print_items is bytes))))))))
  print_item (signature_item name n value) bytes = put2 name (put4 n (put2 value bytes))
  print_item (other_item name text contents) bytes =
      put2 name (put4 (length contents) (contents ++ bytes))

  pub print_items : Items → List ℕ → List ℕ
  print_items end bytes = bytes
  print_items (item i is) bytes = print_item i (print_items is bytes)

abbrev mutual
  pub attribute_of : Item → Attribute
  attribute_of (constant_value_item name n value) =
      constant_value_attribute constant_value_name value
  attribute_of (code_item name n stack locals code handlers is) =
      code_attribute code_name stack locals (length code) code (length handlers) handlers (count is)
        (attributes_of is)
  attribute_of (signature_item name n value) = signature_attribute signature_name value
  attribute_of (other_item name text contents) = skipped_attribute text

  pub attributes_of : Items → Attributes
  attributes_of end = nil
  attributes_of (item i is) = cons (attribute_of i) (attributes_of is)

abbrev mutual
  pub depth_item : Item → ℕ
  depth_item (constant_value_item name n value) = 0
  depth_item (code_item name n stack locals code handlers is) = depth_items is
  depth_item (signature_item name n value) = 0
  depth_item (other_item name text contents) = 0

  pub depth_items : Items → ℕ
  depth_items end = 1
  depth_items (item i is) = max (suc (depth_item i)) (depth_items is)

module _ (pool : ConstantPool) where
  abbrev mutual
    -- the pool has the name of each attribute at its index
    pub ItemIsNamed : Item → Type 0
    ItemIsNamed (constant_value_item name n value) = name_at pool name ≡ some constant_value_name
    ItemIsNamed (code_item name n stack locals code handlers is) =
        (name_at pool name ≡ some code_name) × ItemsAreNamed is
    ItemIsNamed (signature_item name n value) = name_at pool name ≡ some signature_name
    ItemIsNamed (other_item name text contents) =
        (name_at pool name ≡ some text)
        × (same text constant_value_name ≡ false)
        × (same text code_name ≡ false)
        × (same text signature_name ≡ false)

    pub ItemsAreNamed : Items → Type 0
    ItemsAreNamed end = Unit
    ItemsAreNamed (item i is) = ItemIsNamed i × ItemsAreNamed is

read_handlers-print_handlers :
    (hs : List ExceptionTable) (bytes : List ℕ)
    → read_handlers (length hs) (print_handlers hs bytes) ≡ done hs bytes
unfolding read_handlers read_handler
read_handlers-print_handlers [] bytes = refl
read_handlers-print_handlers (h ∷ hs) bytes =
    rw
      (
        readu2-put2 h.start_pc,
        readu2-put2 h.end_pc,
        readu2-put2 h.handler_pc,
        readu2-put2 h.catch_type,
        read_handlers-print_handlers hs bytes,
      )
      refl

module _ (mallocs : ℕ → Bool) (room : (n : ℕ) → mallocs n ≡ true) (pool : ConstantPool) where
  mutual
    unfolding parse_attribute parse_code attributes_within attributes_loop

    item_lem :
        (i : Item) (d : ℕ) (bytes : List ℕ)
        → ItemIsNamed pool i
        → depth_item i ≤ d
        → parse_attribute mallocs pool
            (attributes_within mallocs pool (λ k. stray) d)
            (print_item i bytes)
          ≡ done (attribute_of i) bytes
    item_lem (constant_value_item name n value) d bytes h l =
        rw (readu2-put2 name, h, readu4-put4 n, room, readu2-put2 value) refl
    item_lem (code_item name n stack locals code handlers is) d bytes h l =
        rw
          (
            readu2-put2 name,
            h.0,
            readu4-put4 n,
            room 56,
            readu2-put2 stack,
            readu2-put2 locals,
            readu4-put4 (length code),
            room (length code),
            read_bytes-append code _ (length code) refl,
          )
          (rw
            (
              readu2-put2 (length handlers),
              room (8 * length handlers),
              read_handlers-print_handlers handlers,
              readu2-put2 (count is),
              room (sizeof_pointer * count is),
              items_lem is d bytes h.1 l,
            )
            refl)
    item_lem (signature_item name n value) d bytes h l =
        rw (readu2-put2 name, h, readu4-put4 n, room, readu2-put2 value) refl
    item_lem (other_item name text contents) d bytes h l =
        rw
          (
            readu2-put2 name,
            h.0,
            readu4-put4 (length contents),
            h.1,
            h.2,
            h.3,
            room,
            read_bytes-append contents bytes (length contents) refl,
          )
          refl

    items_lem :
        (is : Items) (d : ℕ) (bytes : List ℕ)
        → ItemsAreNamed pool is
        → depth_items is ≤ d
        → attributes_within mallocs pool (λ k. stray) d (count is) (print_items is bytes)
          ≡ done (attributes_of is) bytes
    items_lem end zero bytes h l = absurd (omega (arith, l))
    items_lem (item i is) zero bytes h l = absurd (omega (arith, l))
    items_lem end (suc d) bytes h l = refl
    items_lem (item i is) (suc d) bytes h l =
        rw
          (
            item_lem i d (print_items is bytes) h.0 (omega (arith, l)),
            items_lem is (suc d) bytes h.1 (omega (arith, l)),
          )
          refl

  -- When malloc finds room, parseAttributes reads the printed form of any attributes, code attributes
  -- with attributes of their own included: it gives their contents in order, and goes on behind the last
  -- of them. Of the length of an attribute only that of an unknown one is used.
  pub parse_attributes-print_items :
      (is : Items) (bytes : List ℕ)
      → ItemsAreNamed pool is
      → parse_attributes mallocs pool (count is) (print_items is bytes)
        ≡ done (attributes_of is) bytes
  parse_attributes-print_items is bytes h =
      let d = depth_items is + suc (length (print_items is bytes)) in
      sym (
        parse_attributes-deeper mallocs pool (λ k. stray) (count is) d (print_items is bytes)
          (omega arith))
      ∙ items_lem is d bytes h (omega arith)
