-- ===== src/Tracing/Small.antt =====
-- How much of a value is left in a trace.
use test_analyst_agent.Common.{ℕ, zero, suc, ◌+◌, ◌≤◌, String, first_letters, arith}
use Prim.Native.String.{◌∷◌ as cons_char, [] as empty}
use test_analyst_agent.Tracing.{
  Value, Items, Fields, text, list, dict, scalar, no_items, item, no_fields, entry, max_text,
  max_rows, mask, mask_items, mask_fields, json_text,
}

abbrev pub text_length : String → ℕ
text_length empty = 0
text_length (cons_char c s) = 1 + text_length s

abbrev pub items_length : Items → ℕ
items_length no_items = 0
items_length (item x xs) = 1 + items_length xs

mutual
  -- No value that is a text is longer than 4000 characters and no list than 5 values, at any depth. The
  -- keys of a dictionary are no values: nothing is asked of them.
  pub Small : Value → Type 0
  Small (text s) = text_length s ≤ max_text
  Small (list xs) = (items_length xs ≤ max_rows) × AllSmall xs
  Small (dict fs) = FieldsSmall fs
  Small (scalar s) = Unit

  pub AllSmall : Items → Type 0
  AllSmall no_items = Unit
  AllSmall (item x xs) = Small x × AllSmall xs

  pub FieldsSmall : Fields → Type 0
  FieldsSmall no_fields = Unit
  FieldsSmall (entry key x fs) = Small x × FieldsSmall fs

length-first_letters : (n : ℕ) (s : String) → text_length (first_letters n s) ≤ n
length-first_letters zero s = omega arith
length-first_letters (suc n) empty = omega arith
length-first_letters (suc n) (cons_char c s) = omega (arith, length-first_letters n s)

module _ (hide_email hide_phone : String → String) (dumps : Value → String) where
  length-mask_items :
      (n : ℕ) (xs : Items) → items_length (mask_items hide_email hide_phone dumps n xs) ≤ n
  unfolding mask_items
  length-mask_items zero xs = omega arith
  length-mask_items (suc n) no_items = omega arith
  length-mask_items (suc n) (item x xs) = omega (arith, length-mask_items n xs)

  mutual
    unfolding mask mask_items mask_fields Small AllSmall FieldsSmall

    value-Small : (v : Value) → Small (mask hide_email hide_phone dumps v)
    value-Small (text s) = length-first_letters max_text (hide_phone (hide_email s))
    value-Small (list xs) = (length-mask_items max_rows xs, items-AllSmall max_rows xs)
    value-Small (dict fs) = fields-FieldsSmall fs
    value-Small (scalar s) = tt

    items-AllSmall : (n : ℕ) (xs : Items) → AllSmall (mask_items hide_email hide_phone dumps n xs)
    items-AllSmall zero xs = tt
    items-AllSmall (suc n) no_items = tt
    items-AllSmall (suc n) (item x xs) = (value-Small x, items-AllSmall n xs)

    fields-FieldsSmall : (fs : Fields) → FieldsSmall (mask_fields hide_email hide_phone dumps fs)
    fields-FieldsSmall no_fields = tt
    fields-FieldsSmall (entry key x fs) = (value-Small x, fields-FieldsSmall fs)

  -- What mask leaves of a value has no value that is a text longer than 4000 characters and no list of
  -- more than 5 values, at any depth; of the keys of dictionaries, which mask keeps whole, this says
  -- nothing. The text of it that a span carries is at most 8000 characters long, keys included.
  pub mask-Small :
      (v : Value)
      → Small (mask hide_email hide_phone dumps v)
        × (text_length (json_text hide_email hide_phone dumps v) ≤ 8000)
  unfolding json_text
  mask-Small v =
      (value-Small v, length-first_letters 8000 (dumps (mask hide_email hide_phone dumps v)))
