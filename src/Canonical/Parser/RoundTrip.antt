-- ===== src/Canonical/Parser/RoundTrip.antt =====
-- pkg/iscp/canonical/canonical.go: the tokens of a value, and ParseStrict on them.
use mathlib.Core.List.{append_assoc}
use iscp.Prelude.{
  ℕ, zero, suc, ◌+◌, ◌*◌, ◌≤◌, ◌≡◌, refl, String, true, false, Option, none, some, List, [], ◌∷◌,
  ◌++◌, string_eq, length, length-append, contains, arith,
}
use iscp.Errors.{ok}
use iscp.Canonical.{
  Value, null, boolean, str, num, arr, obj, Items, nil, cons, Fields, end, field, in_range,
  items_in_range, fields_in_range, format_int,
}
use iscp.Canonical.Parser.{
  Token, open_object, close_object, open_array, close_array, null_token, bool_token, text_token,
  number_token, parse_value, parse_fields, parse_items, parse_tokens, add_item, ends,
}
use iscp.Canonical.Parser.Numbers.{parse_number-format_int}

-- The tokens of the JSON text of a value.
unfoldable mutual
  unfolding format_int

  pub value_tokens : Value → List Token
  value_tokens null = null_token ∷ []
  value_tokens (boolean b) = bool_token b ∷ []
  value_tokens (str s) = text_token s ∷ []
  value_tokens (num i) = number_token (format_int i) ∷ []
  value_tokens (arr xs) = open_array ∷ items_tokens xs
  value_tokens (obj fs) = open_object ∷ fields_tokens fs

  pub items_tokens : Items → List Token
  items_tokens nil = close_array ∷ []
  items_tokens (cons x xs) = value_tokens x ++ items_tokens xs

  pub fields_tokens : Fields → List Token
  fields_tokens end = close_object ∷ []
  fields_tokens (field k v fs) = text_token k ∷ value_tokens v ++ fields_tokens fs

-- No object has a key twice.
abbrev mutual
  pub HasDistinctKeys : Value → Type 0
  HasDistinctKeys null = Unit
  HasDistinctKeys (boolean b) = Unit
  HasDistinctKeys (str s) = Unit
  HasDistinctKeys (num i) = Unit
  HasDistinctKeys (arr xs) = ItemsDistinct xs
  HasDistinctKeys (obj fs) = FieldsDistinct [] fs

  pub ItemsDistinct : Items → Type 0
  ItemsDistinct nil = Unit
  ItemsDistinct (cons x xs) = HasDistinctKeys x × ItemsDistinct xs

  pub FieldsDistinct : List String → Fields → Type 0
  FieldsDistinct seen end = Unit
  FieldsDistinct seen (field k v fs) =
      (contains seen k ≡ false) × HasDistinctKeys v × FieldsDistinct (k ∷ seen) fs

-- The fuel that a value takes.
mutual
  need : Value → ℕ
  need null = 1
  need (boolean b) = 1
  need (str s) = 1
  need (num i) = 1
  need (arr xs) = suc (items_need xs)
  need (obj fs) = suc (fields_need fs)

  items_need : Items → ℕ
  items_need nil = 1
  items_need (cons x xs) = suc (need x + items_need xs)

  fields_need : Fields → ℕ
  fields_need end = 1
  fields_need (field k v fs) = suc (need v + fields_need fs)

mutual
  unfolding need items_need fields_need value_tokens items_tokens fields_tokens

  need-length : (v : Value) → need v + 1 ≤ 2 * length (value_tokens v)
  need-length null = ground arith
  need-length (boolean b) = ground arith
  need-length (str s) = ground arith
  need-length (num i) = ground arith
  need-length (arr xs) = ground (arith, items_need-length xs)
  need-length (obj fs) = ground (arith, fields_need-length fs)

  items_need-length : (xs : Items) → items_need xs ≤ 2 * length (items_tokens xs)
  items_need-length nil = ground arith
  items_need-length (cons x xs) =
      ground (
        arith,
        need-length x,
        items_need-length xs,
        length-append (value_tokens x) (items_tokens xs),
      )

  fields_need-length : (fs : Fields) → fields_need fs ≤ 2 * length (fields_tokens fs)
  fields_need-length end = ground arith
  fields_need-length (field k v fs) = ground (
    arith,
    need-length v,
    fields_need-length fs,
    length-append (value_tokens v) (fields_tokens fs),
  )

-- A list item is no closing bracket.
abbrev one_item : ℕ → Option (Value × List Token) → Option (Items × List Token)
one_item f read = elim read [ none ↦ none | some r ↦ add_item r.0 (parse_items f r.1) ]

parse_items-value_tokens :
    (f : ℕ) (x : Value) (ts : List Token)
    → parse_items (suc f) (value_tokens x ++ ts) ≡ one_item f (parse_value f (value_tokens x ++ ts))
unfolding parse_items value_tokens
parse_items-value_tokens f null ts = refl
parse_items-value_tokens f (boolean b) ts = refl
parse_items-value_tokens f (str s) ts = refl
parse_items-value_tokens f (num i) ts = refl
parse_items-value_tokens f (arr xs) ts = refl
parse_items-value_tokens f (obj fs) ts = refl

mutual
  unfolding need items_need fields_need value_tokens items_tokens fields_tokens parse_value in_range

  parses :
      (f : ℕ) (v : Value) (rest : List Token)
      → need v ≤ f
      → in_range v ≡ true
      → HasDistinctKeys v
      → parse_value f (value_tokens v ++ rest) ≡ some (v, rest)
  parses zero null rest n r d = absurd (ground arith)
  parses zero (boolean b) rest n r d = absurd (ground arith)
  parses zero (str s) rest n r d = absurd (ground arith)
  parses zero (num i) rest n r d = absurd (ground arith)
  parses zero (arr xs) rest n r d = absurd (ground arith)
  parses zero (obj fs) rest n r d = absurd (ground arith)
  parses (suc f) null rest n r d = refl
  parses (suc f) (boolean b) rest n r d = refl
  parses (suc f) (str s) rest n r d = refl
  parses (suc f) (num i) rest n r d = rw (parse_number-format_int i r) refl
  parses (suc f) (arr xs) rest n r d = rw (items_parse f xs rest (omega (arith, n)) r d) refl
  parses (suc f) (obj fs) rest n r d = rw (fields_parse f [] fs rest (omega (arith, n)) r d) refl

  items_parse :
      (f : ℕ) (xs : Items) (rest : List Token)
      → items_need xs ≤ f
      → items_in_range xs ≡ true
      → ItemsDistinct xs
      → parse_items f (items_tokens xs ++ rest) ≡ some (xs, rest)
  items_parse zero nil rest n r d = absurd (ground arith)
  items_parse zero (cons x xs) rest n r d = absurd (ground arith)
  items_parse (suc f) nil rest n r d = refl
  items_parse (suc f) (cons x xs) rest n r d =
      let first = parses f x (items_tokens xs ++ rest) (omega (arith, n)) (ground arith) d.0 in
      let others = items_parse f xs rest (omega (arith, n)) (ground arith) d.1 in
      rw (append_assoc, parse_items-value_tokens, first, others) refl

  fields_parse :
      (f : ℕ) (seen : List String) (fs : Fields) (rest : List Token)
      → fields_need fs ≤ f
      → fields_in_range fs ≡ true
      → FieldsDistinct seen fs
      → parse_fields f seen (fields_tokens fs ++ rest) ≡ some (fs, rest)
  fields_parse zero seen end rest n r d = absurd (ground arith)
  fields_parse zero seen (field k v fs) rest n r d = absurd (ground arith)
  fields_parse (suc f) seen end rest n r d = refl
  fields_parse (suc f) seen (field k v fs) rest n r d =
      let first = parses f v (fields_tokens fs ++ rest) (omega (arith, n)) (ground arith) d.1 in
      let others = fields_parse f (k ∷ seen) fs rest (omega (arith, n)) (ground arith) d.2 in
      rw (append_assoc, first, d.0, others) refl

-- Strict parsing of the tokens of a value whose numbers are 64-bit integers and whose objects have
-- no key twice gives the value back, also where stray closing brackets follow, which it accepts.
pub parse_tokens-value_tokens :
    (v : Value) (rest : List Token)
    → in_range v ≡ true
    → HasDistinctKeys v
    → ends rest ≡ true
    → parse_tokens (value_tokens v ++ rest) ≡ ok v
unfolding parse_tokens
parse_tokens-value_tokens v rest r d e =
    let enough = need-length v in
    let fits : need v ≤ 2 * length (value_tokens v ++ rest) =
      omega (arith, enough, length-append (value_tokens v) rest) in
    rw (parses (2 * length (value_tokens v ++ rest)) v rest fits r d, e) refl
