-- ===== src/Canonical/Parser/Soundness.antt =====
-- pkg/iscp/canonical/canonical.go: ParseStrict on any tokens.
use iscp.Prelude.{
  ℕ, zero, suc, ◌≡◌, refl, String, true, false, Option, none, some, List, [], ◌∷◌, Bool-cases, inl,
  inr, nat_eq, ◌==◌, contains, length, ◌*◌, string_eq, if◌then◌else◌, Bytes, arith,
}
use iscp.Prelude.Int.{ℤ}
use iscp.Errors.{ok}
use iscp.Canonical.{Value, Items, Fields, is_int64, in_range, items_in_range, fields_in_range}
use iscp.Canonical.Parser.{
  Token, open_object, close_object, open_array, close_array, null_token, malformed, bool_token,
  text_token, number_token, parse_value, parse_fields, parse_items, parse_number, parse_int,
  parse_tokens, add_item, add_field, array_value, object_value, number_value, checked_int64,
  negated, counted, digits_of, ends, strict,
}
use iscp.Canonical.Parser.RoundTrip.{HasDistinctKeys, ItemsDistinct, FieldsDistinct}

checked_int64-some : (o : Option ℤ) (i : ℤ) → checked_int64 o ≡ some i → is_int64 i ≡ true
checked_int64-some none i h = cc
checked_int64-some (some j) i h = ground arith

parse_int-some : (s : Bytes) (i : ℤ) → parse_int s ≡ some i → is_int64 i ≡ true
unfolding parse_int
parse_int-some [] i h = cc
parse_int-some (b ∷ bs) i h =
    checked_int64-some
      (if b == b'-'
        then negated (digits_of bs)
        else (if b == b'+' then counted (digits_of bs) else counted (digits_of (b ∷ bs))))
      i h

parse_number-some : (s : Bytes) (i : ℤ) → parse_number s ≡ some i → is_int64 i ≡ true
unfolding parse_number
parse_number-some s i h = parse_int-some s i (ground arith)

-- A value in range with no key twice.
abbrev pub IsStrict : Value → Type 0
IsStrict v = (in_range v ≡ true) × HasDistinctKeys v

-- What was read, if anything, is so.
abbrev ReadsStrict : Option (Value × List Token) → Type 0
ReadsStrict none = Unit
ReadsStrict (some (v, ts)) = IsStrict v

abbrev ReadsItems : Option (Items × List Token) → Type 0
ReadsItems none = Unit
ReadsItems (some (xs, ts)) = (items_in_range xs ≡ true) × ItemsDistinct xs

abbrev ReadsFields : List String → Option (Fields × List Token) → Type 0
ReadsFields seen none = Unit
ReadsFields seen (some (fs, ts)) = (fields_in_range fs ≡ true) × FieldsDistinct seen fs

object_value-ReadsStrict :
    (read : Option (Fields × List Token)) → ReadsFields [] read → ReadsStrict (object_value read)
unfolding in_range
object_value-ReadsStrict none h = tt
object_value-ReadsStrict (some (fs, ts)) h = h

array_value-ReadsStrict :
    (read : Option (Items × List Token)) → ReadsItems read → ReadsStrict (array_value read)
unfolding in_range
array_value-ReadsStrict none h = tt
array_value-ReadsStrict (some (xs, ts)) h = h

number_value-ReadsStrict :
    (read : Option ℤ) (ts : List Token)
    → ((i : ℤ) → read ≡ some i → is_int64 i ≡ true)
    → ReadsStrict (number_value read ts)
unfolding in_range
number_value-ReadsStrict none ts h = tt
number_value-ReadsStrict (some i) ts h = (h i refl, tt)

add_item-ReadsItems :
    (v : Value) (read : Option (Items × List Token))
    → IsStrict v
    → ReadsItems read
    → ReadsItems (add_item v read)
unfolding in_range
add_item-ReadsItems v none s h = tt
add_item-ReadsItems v (some (xs, ts)) s h = (ground (arith, s.0, h.0), (s.1, h.1))

add_field-ReadsFields :
    (seen : List String) (k : String) (v : Value) (read : Option (Fields × List Token))
    → contains seen k ≡ false
    → IsStrict v
    → ReadsFields (k ∷ seen) read
    → ReadsFields seen (add_field k v read)
unfolding in_range
add_field-ReadsFields seen k v none c s h = tt
add_field-ReadsFields seen k v (some (fs, ts)) c s h = (ground (arith, s.0, h.0), (c, s.1, h.1))

next_item-ReadsItems :
    (f : ℕ) (read : Option (Value × List Token))
    → ReadsStrict read
    → ((ts : List Token) → ReadsItems (parse_items f ts))
    → ReadsItems (elim read [ none ↦ none | some r ↦ add_item r.0 (parse_items f r.1) ])
next_item-ReadsItems f none s h = tt
next_item-ReadsItems f (some (v, ts)) s h = add_item-ReadsItems v (parse_items f ts) s (h ts)

next_field-ReadsFields :
    (f : ℕ) (seen : List String) (k : String) (read : Option (Value × List Token))
    → ReadsStrict read
    → ((ts : List Token) → ReadsFields (k ∷ seen) (parse_fields f (k ∷ seen) ts))
    → ReadsFields seen (elim read [
      | none ↦ none
      | some r ↦
          let rest = parse_fields f (k ∷ seen) r.1 in
          if contains seen k then none else add_field k r.0 rest
    ])
next_field-ReadsFields f seen k none s h = tt
next_field-ReadsFields f seen k (some (v, ts)) s h = elim (Bool-cases (contains seen k)) [
  | inl twice ↦ rw twice tt
  | inr once ↦ rw once (add_field-ReadsFields seen k v (parse_fields f (k ∷ seen) ts) once s (h ts))
]

mutual
  unfolding parse_value in_range

  reads_value : (f : ℕ) (ts : List Token) → ReadsStrict (parse_value f ts)
  reads_value zero ts = tt
  reads_value (suc f) [] = tt
  reads_value (suc f) (close_object ∷ ts) = tt
  reads_value (suc f) (close_array ∷ ts) = tt
  reads_value (suc f) (malformed ∷ ts) = tt
  reads_value (suc f) (null_token ∷ ts) = (refl, tt)
  reads_value (suc f) (bool_token b ∷ ts) = (refl, tt)
  reads_value (suc f) (text_token s ∷ ts) = (refl, tt)
  reads_value (suc f) (number_token s ∷ ts) =
      number_value-ReadsStrict (parse_number s) ts (parse_number-some s)
  reads_value (suc f) (open_object ∷ ts) =
      object_value-ReadsStrict (parse_fields f [] ts) (reads_fields f [] ts)
  reads_value (suc f) (open_array ∷ ts) =
      array_value-ReadsStrict (parse_items f ts) (reads_items f ts)

  reads_items : (f : ℕ) (ts : List Token) → ReadsItems (parse_items f ts)
  reads_items zero ts = tt
  reads_items (suc f) [] = tt
  reads_items (suc f) (close_array ∷ ts) = (refl, tt)
  reads_items (suc f) (close_object ∷ ts) = tt
  reads_items (suc f) (open_object ∷ ts) =
      next_item-ReadsItems f _ (reads_value f (open_object ∷ ts)) (reads_items f)
  reads_items (suc f) (open_array ∷ ts) =
      next_item-ReadsItems f _ (reads_value f (open_array ∷ ts)) (reads_items f)
  reads_items (suc f) (malformed ∷ ts) =
      next_item-ReadsItems f _ (reads_value f (malformed ∷ ts)) (reads_items f)
  reads_items (suc f) (null_token ∷ ts) =
      next_item-ReadsItems f _ (reads_value f (null_token ∷ ts)) (reads_items f)
  reads_items (suc f) (bool_token b ∷ ts) =
      next_item-ReadsItems f _ (reads_value f (bool_token b ∷ ts)) (reads_items f)
  reads_items (suc f) (text_token s ∷ ts) =
      next_item-ReadsItems f _ (reads_value f (text_token s ∷ ts)) (reads_items f)
  reads_items (suc f) (number_token s ∷ ts) =
      next_item-ReadsItems f _ (reads_value f (number_token s ∷ ts)) (reads_items f)

  reads_fields :
      (f : ℕ) (seen : List String) (ts : List Token) → ReadsFields seen (parse_fields f seen ts)
  reads_fields zero seen ts = tt
  reads_fields (suc f) seen [] = tt
  reads_fields (suc f) seen (close_object ∷ ts) = (refl, tt)
  reads_fields (suc f) seen (text_token k ∷ ts) =
      next_field-ReadsFields f seen k (parse_value f ts) (reads_value f ts)
        (reads_fields f (k ∷ seen))
  reads_fields (suc f) seen (open_object ∷ ts) = tt
  reads_fields (suc f) seen (open_array ∷ ts) = tt
  reads_fields (suc f) seen (close_array ∷ ts) = tt
  reads_fields (suc f) seen (malformed ∷ ts) = tt
  reads_fields (suc f) seen (null_token ∷ ts) = tt
  reads_fields (suc f) seen (bool_token b ∷ ts) = tt
  reads_fields (suc f) seen (number_token s ∷ ts) = tt

strict-IsStrict :
    (read : Option (Value × List Token)) (v : Value)
    → ReadsStrict read
    → strict read ≡ ok v
    → IsStrict v
strict-IsStrict none v s h = cc
strict-IsStrict (some (w, ts)) v s h = elim (Bool-cases (ends ts)) [
  | inl last ↦ let same : w ≡ v = ground arith in rw same at s
  | inr more ↦ absurd (ground arith)
]

-- Whatever strict parsing accepts, of any tokens, has 64-bit integers as its only numbers and no
-- object with a key twice, at every depth.
pub parse_tokens-IsStrict : (ts : List Token) (v : Value) → parse_tokens ts ≡ ok v → IsStrict v
unfolding parse_tokens
parse_tokens-IsStrict ts v h =
    strict-IsStrict (parse_value (2 * length ts) ts) v (reads_value (2 * length ts) ts) h
