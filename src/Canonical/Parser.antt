-- ===== src/Canonical/Parser.antt =====
-- pkg/iscp/canonical/canonical.go: ParseStrict over the tokens of the standard JSON decoder.
pub mod Numbers
pub mod RoundTrip
pub mod Soundness
use iscp.Prelude.{
  ℕ, zero, suc, ◌+◌, ◌*◌, ◌-◌, String, Bool, true, false, not, ◌&&◌, ◌||◌, Option, none, some, List,
  [], ◌∷◌, if◌then◌else◌, string_eq, nat_eq, ◌==◌, ltb, leb, nat_beq, Bytes, length, contains,
}
use iscp.Prelude.Int.{ℤ, pos, negsuc}
use iscp.Errors.{Result, ok, err, new, wrap, canonical_invalid}
use iscp.Canonical.{
  Value, null, boolean, str, num, arr, obj, Items, nil, cons, Fields, end, field, is_int64,
}

-- What dec.Token gives, in order. The list ends where the input does; `malformed` is where the
-- decoder reports a syntax error. A number is its text, as bytes.
pub data Token : Type 0 where
  open_object close_object open_array close_array : Token
  null_token malformed : Token
  bool_token : Bool → Token
  text_token : String → Token
  number_token : Bytes → Token

abbrev pub is_float_byte : ℕ → Bool
is_float_byte b = b == b'.' || b == b'e' || b == b'E'

-- strings.ContainsAny(s, ".eE")
unfoldable pub has_float_byte : Bytes → Bool
has_float_byte [] = false
has_float_byte (b ∷ bs) = is_float_byte b || has_float_byte bs

-- len(s) > 1 && s[0] == '0'
abbrev pub leading_zero : Bytes → Bool
leading_zero [] = false
leading_zero (b ∷ []) = false
leading_zero (b ∷ c ∷ bs) = b == b'0'

-- strings.HasPrefix(s, "-0")
abbrev pub negative_zero : Bytes → Bool
negative_zero [] = false
negative_zero (b ∷ []) = false
negative_zero (b ∷ c ∷ bs) = b == b'-' && c == b'0'

unfoldable pub parse_digits : ℕ → Bytes → Option ℕ
parse_digits acc [] = some acc
parse_digits acc (b ∷ bs) =
    let rest = parse_digits (acc * 10 + (b - 48)) bs in if leb 48 b && leb b 57 then rest else none

-- The integer of a sign and a size.
abbrev pub negated : Option ℕ → Option ℤ
negated none = none
negated (some zero) = some (pos zero)
negated (some (suc n)) = some (negsuc n)

abbrev pub counted : Option ℕ → Option ℤ
counted none = none
counted (some n) = some (pos n)

abbrev pub checked_int64 : Option ℤ → Option ℤ
checked_int64 none = none
checked_int64 (some i) = if is_int64 i then some i else none

abbrev pub digits_of : Bytes → Option ℕ
digits_of [] = none
digits_of (b ∷ bs) = parse_digits 0 (b ∷ bs)

-- strconv.ParseInt(s, 10, 64)
unfoldable pub parse_int : Bytes → Option ℤ
parse_int [] = none
parse_int (b ∷ bs) = checked_int64 (
    if b == b'-'
    then negated (digits_of bs)
    else (if b == b'+' then counted (digits_of bs) else counted (digits_of (b ∷ bs))))

unfoldable pub parse_number : Bytes → Option ℤ
unfolding has_float_byte parse_int
parse_number s = if has_float_byte s || leading_zero s || negative_zero s then none else parse_int s

abbrev pub number_value : Option ℤ → List Token → Option (Value × List Token)
number_value none ts = none
number_value (some i) ts = some (num i, ts)

abbrev pub object_value : Option (Fields × List Token) → Option (Value × List Token)
object_value none = none
object_value (some (fs, ts)) = some (obj fs, ts)

abbrev pub array_value : Option (Items × List Token) → Option (Value × List Token)
array_value none = none
array_value (some (xs, ts)) = some (arr xs, ts)

abbrev pub add_field : String → Value → Option (Fields × List Token) → Option (Fields × List Token)
add_field k v none = none
add_field k v (some (fs, ts)) = some (field k v fs, ts)

abbrev pub add_item : Value → Option (Items × List Token) → Option (Items × List Token)
add_item v none = none
add_item v (some (xs, ts)) = some (cons v xs, ts)

-- One unit of fuel for each token that is read and each end of a list.
unfoldable mutual
  unfolding parse_number

  pub parse_value : ℕ → List Token → Option (Value × List Token)
  parse_value zero ts = none
  parse_value (suc f) [] = none
  parse_value (suc f) (open_object ∷ ts) = object_value (parse_fields f [] ts)
  parse_value (suc f) (open_array ∷ ts) = array_value (parse_items f ts)
  parse_value (suc f) (close_object ∷ ts) = none
  parse_value (suc f) (close_array ∷ ts) = none
  parse_value (suc f) (malformed ∷ ts) = none
  parse_value (suc f) (null_token ∷ ts) = some (null, ts)
  parse_value (suc f) (bool_token b ∷ ts) = some (boolean b, ts)
  parse_value (suc f) (text_token s ∷ ts) = some (str s, ts)
  parse_value (suc f) (number_token s ∷ ts) = number_value (parse_number s) ts

  -- The keys that the object has so far.
  pub parse_fields : ℕ → List String → List Token → Option (Fields × List Token)
  parse_fields zero seen ts = none
  parse_fields (suc f) seen [] = none
  parse_fields (suc f) seen (close_object ∷ ts) = some (end, ts)
  parse_fields (suc f) seen (text_token k ∷ ts) = elim (parse_value f ts) [
    | none ↦ none
    | some read ↦
        let rest = parse_fields f (k ∷ seen) read.1 in
        if contains seen k then none else add_field k read.0 rest
  ]
  parse_fields (suc f) seen (open_object ∷ ts) = none
  parse_fields (suc f) seen (open_array ∷ ts) = none
  parse_fields (suc f) seen (close_array ∷ ts) = none
  parse_fields (suc f) seen (malformed ∷ ts) = none
  parse_fields (suc f) seen (null_token ∷ ts) = none
  parse_fields (suc f) seen (bool_token b ∷ ts) = none
  parse_fields (suc f) seen (number_token s ∷ ts) = none

  pub parse_items : ℕ → List Token → Option (Items × List Token)
  parse_items zero ts = none
  parse_items (suc f) [] = none
  parse_items (suc f) (close_array ∷ ts) = some (nil, ts)
  parse_items (suc f) (close_object ∷ ts) = none
  parse_items (suc f) (t ∷ ts) = elim (parse_value f (t ∷ ts)) [
    | none ↦ none
    | some read ↦ add_item read.0 (parse_items f read.1)
  ]

-- Nothing, or a closing bracket: dec.More says no to those, and then dec.Decode fails.
abbrev pub ends : List Token → Bool
ends [] = true
ends (close_object ∷ ts) = true
ends (close_array ∷ ts) = true
ends (t ∷ ts) = false

abbrev pub strict : Option (Value × List Token) → Result Value
strict none = err (wrap canonical_invalid "invalid canonical json input")
strict (some (v, ts)) =
    if ends ts then ok v else err (new canonical_invalid "unexpected trailing json value")

unfoldable pub parse_tokens : List Token → Result Value
unfolding parse_value
parse_tokens ts = strict (parse_value (2 * length ts) ts)
