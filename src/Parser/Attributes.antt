-- ===== src/Parser/Attributes.antt =====
-- Attributes (classfile.h, parseAttributes in attributes.c). What the failing paths free is not
-- modelled.
pub mod Depth
pub mod Printed
use cs_562_jvm.Base.{
  ℕ, suc, zero, ◌*◌, ◌==◌, Bool, true, false, List, [], ◌∷◌, Option, none, some, if◌then◌else◌,
  get_elem?, length,
}
use cs_562_jvm.Classfile.{Name}
use cs_562_jvm.Parser.{
  Outcome, undefined, Parser, pure, stray, need, readu2, readu4, read_bytes, ◌>>=◌, ◌>>◌,
}
use cs_562_jvm.Parser.Pool.{ConstantPool, ConstantInfo, utf8_info, sizeof_pointer}

pub record ExceptionTable : Type 0 where
  pub start_pc : ℕ
  pub end_pc : ℕ
  pub handler_pc : ℕ
  pub catch_type : ℕ

-- The structs of the union attribute_info. A code attribute has maxStack, maxLocals, codeLength, code,
-- exceptionTableLength, exceptionHandlers, attributeCount and attributes behind its name.
mutual
  pub data Attribute : Type 0 where
    constant_value_attribute : Name → ℕ → Attribute
    code_attribute :
        Name → ℕ → ℕ → ℕ → List ℕ → ℕ → List ExceptionTable → ℕ → Attributes → Attribute
    signature_attribute : Name → ℕ → Attribute
    skipped_attribute : Name → Attribute

  pub data Attributes : Type 0 where
    nil : Attributes
    cons : Attribute → Attributes → Attributes

-- the string that begins at the first byte
abbrev pub until_nul : List ℕ → Name
until_nul [] = []
until_nul (c ∷ chars) = let rest = until_nul chars in if c == 0 then [] else c ∷ rest

abbrev pub chars_of : Option (Option ConstantInfo) → Option Name
chars_of (some (some (utf8_info tag n chars))) = some (until_nul chars)
chars_of entry = none

-- `class->constantPool[index]->utf8Info.chars`, of an entry that is a utf8Info
unfoldable pub name_at : ConstantPool → ℕ → Option Name
name_at pool index = chars_of (get_elem? pool index)

abbrev pub lift {ℓ} : {A : Type ℓ} → Option A → Parser A
lift none bytes = undefined
lift (some a) bytes = pure a bytes

-- `strcmp(…) == 0`
abbrev pub same : Name → Name → Bool
same [] [] = true
same [] (d ∷ ds) = false
same (c ∷ cs) [] = false
same (c ∷ cs) (d ∷ ds) = let rest = same cs ds in if c == d then rest else false

abbrev pub constant_value_name : Name
constant_value_name =
    b'C' ∷ b'o' ∷ b'n' ∷ b's' ∷ b't' ∷ b'a' ∷ b'n' ∷ b't' ∷ b'V' ∷ b'a' ∷ b'l' ∷ b'u' ∷ b'e' ∷ []

abbrev pub code_name : Name
code_name = b'C' ∷ b'o' ∷ b'd' ∷ b'e' ∷ []

abbrev pub signature_name : Name
signature_name = b'S' ∷ b'i' ∷ b'g' ∷ b'n' ∷ b'a' ∷ b't' ∷ b'u' ∷ b'r' ∷ b'e' ∷ []

unfoldable pub read_handler : Parser ExceptionTable
read_handler = do
  start_pc ← readu2
  end_pc ← readu2
  handler_pc ← readu2
  catch_type ← readu2
  pure (record {
    start_pc = start_pc;
    end_pc = end_pc;
    handler_pc = handler_pc;
    catch_type = catch_type;
  })

-- the loop over the exception table, with `n` rounds left
unfoldable pub read_handlers : ℕ → Parser (List ExceptionTable)
read_handlers zero = pure []
read_handlers (suc n) = do
  handler ← read_handler
  handlers ← read_handlers n
  pure (handler ∷ handlers)

-- `mallocs n` is whether malloc and calloc find n bytes; `nested` is parseAttributes, called for the
-- attributes of a code attribute.
module _ (mallocs : ℕ → Bool) where
  unfoldable pub parse_code : (ℕ → Parser Attributes) → Name → Parser Attribute
  parse_code nested name = do
    need (mallocs 56)
    max_stack ← readu2
    max_locals ← readu2
    code_length ← readu4
    need (mallocs code_length)
    code ← read_bytes code_length
    exception_table_length ← readu2
    need (mallocs (8 * exception_table_length))
    handlers ← read_handlers exception_table_length
    attribute_count ← readu2
    need (mallocs (sizeof_pointer * attribute_count))
    attributes ← nested attribute_count
    pure (
        code_attribute name max_stack max_locals code_length code exception_table_length handlers
          attribute_count attributes)

  abbrev pub parse_constant_value : Name → Parser Attribute
  parse_constant_value name = do
    need (mallocs 16)
    constant_index ← readu2
    pure (constant_value_attribute name constant_index)

  abbrev pub parse_signature : Name → Parser Attribute
  parse_signature name = do
    need (mallocs 16)
    signature_index ← readu2
    pure (signature_attribute name signature_index)

  abbrev pub parse_skipped : ℕ → Name → Parser Attribute
  parse_skipped attribute_length name = do
    need (mallocs 8)
    skipped ← read_bytes attribute_length
    pure (skipped_attribute name)

  -- the chain of ifs
  abbrev pub parse_named : (ℕ → Parser Attributes) → ℕ → Name → Parser Attribute
  parse_named nested attribute_length name =
      if same name constant_value_name
      then parse_constant_value name
      else if same name code_name
      then parse_code nested name
      else if same name signature_name
      then parse_signature name
      else parse_skipped attribute_length name

  module _ (pool : ConstantPool) where
    -- the body of the loop
    unfoldable pub parse_attribute : (ℕ → Parser Attributes) → Parser Attribute
    parse_attribute nested = do
      name_index ← readu2
      name ← lift (name_at pool name_index)
      attribute_length ← readu4
      parse_named nested attribute_length name

    -- the loop, with `n` rounds left
    unfoldable pub attributes_loop : (ℕ → Parser Attributes) → ℕ → Parser Attributes
    attributes_loop nested zero = pure nil
    attributes_loop nested (suc n) = do
      attribute ← parse_attribute nested
      attributes ← attributes_loop nested n
      pure (cons attribute attributes)

    -- with code attributes nested less than `depth` deep; `cut` stands for a call that is nested deeper
    unfoldable pub attributes_within : (ℕ → Parser Attributes) → ℕ → ℕ → Parser Attributes
    attributes_within cut zero n = cut n
    attributes_within cut (suc depth) n = attributes_loop (attributes_within cut depth) n

    -- no call is as deep as the number of bytes
    unfoldable pub parse_attributes : ℕ → Parser Attributes
    parse_attributes n bytes = attributes_within (λ k. stray) (suc (length bytes)) n bytes
