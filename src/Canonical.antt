-- ===== src/Canonical.antt =====
-- pkg/iscp/canonical/canonical.go: canonical JSON and the input of every signature.
pub mod Parser
pub mod Raw
pub mod TopLevel
pub mod Order
use Prim.Native.Char.{code}
use iscp.Prelude.{
  ℕ, zero, suc, ◌+◌, ◌/◌, ◌%◌, ◌^◌, String, Bool, true, false, not, contains, ◌&&◌, ◌||◌, List, [],
  ◌∷◌, ◌++◌, map, if◌then◌else◌, string_eq, nat_eq, ◌==◌, ltb, Bytes, to_bytes, string_lt,
}
use iscp.Prelude.Int.{ℤ, pos, negsuc}
use iscp.Prelude.Sort.{insertion_sort}
use iscp.Errors.{Result, ok, err, new, wrap, canonical_invalid, ◌>>=◌}

mutual
  pub data Value : Type 0 where
    null : Value
    boolean : Bool → Value
    str : String → Value
    num : ℤ → Value
    arr : Items → Value
    obj : Fields → Value

  pub data Fields : Type 0 where
    end : Fields
    field : String → Value → Fields → Fields

  pub data Items : Type 0 where
    nil : Items
    cons : Value → Items → Items

abbrev pub fields : List (String × Value) → Fields
fields [] = end
fields ((k, v) ∷ fs) = field k v (fields fs)

abbrev pub strings : List String → Items
strings [] = nil
strings (s ∷ ss) = cons (str s) (strings ss)

-- strconv.FormatInt, with one digit for each round of fuel: a number has no more digits than its
-- value plus one.
decimal_fuel : ℕ → ℕ → Bytes
decimal_fuel zero n = []
decimal_fuel (suc f) n =
    let rest = decimal_fuel f (n / 10) in
    if ltb n 10 then (48 + n) ∷ [] else rest ++ (48 + n % 10) ∷ []

unfoldable pub format_int : ℤ → Bytes
unfolding decimal_fuel
format_int (pos n) = decimal_fuel (suc n) n
format_int (negsuc n) = b'-' ∷ decimal_fuel (suc (suc n)) (suc n)

hex_digit : ℕ → ℕ
hex_digit n = if ltb n 10 then 48 + n else 87 + n

-- json.Marshal of a text, one character at a time.
quote_char : ℕ → Bytes → Bytes
unfolding hex_digit
quote_char c raw =
    if c == b'"' || c == b'\\'
    then b'\\' ∷ c ∷ []
    else if c == 8
    then b'\\' ∷ b'b' ∷ []
    else if c == 12
    then b'\\' ∷ b'f' ∷ []
    else if c == 10
    then b'\\' ∷ b'n' ∷ []
    else if c == 13
    then b'\\' ∷ b'r' ∷ []
    else if c == 9
    then b'\\' ∷ b't' ∷ []
    else if ltb c 32 || c == b'<' || c == b'>' || c == b'&'
    then b'\\' ∷ b'u' ∷ b'0' ∷ b'0' ∷ hex_digit (c / 16) ∷ hex_digit (c % 16) ∷ []
    else if c == 0x2028 || c == 0x2029
    then b'\\' ∷ b'u' ∷ b'2' ∷ b'0' ∷ b'2' ∷ hex_digit (c % 16) ∷ []
    else raw

quote_chars : String → Bytes
unfolding quote_char
quote_chars String.[] = []
quote_chars (String.◌∷◌ c s) =
    quote_char (code c) (to_bytes (String.◌∷◌ c String.[])) ++ quote_chars s

unfoldable pub quote : String → Bytes
unfolding quote_chars to_bytes
quote s = b'"' ∷ quote_chars s ++ b'"' ∷ []

abbrev pub Written : Type 0
Written = String × Bytes

unfoldable pub key_before : Written → Written → Bool
key_before (j, v) (k, w) = string_lt j k

-- What stands after the first member or item, each behind a comma.
abbrev pub joined : List Bytes → Bytes
joined [] = []
joined (b ∷ bs) = b',' ∷ b ++ joined bs

abbrev pub join : List Bytes → Bytes
join [] = []
join (b ∷ bs) = b ++ joined bs

abbrev pub member : Written → Bytes
member (k, v) = quote k ++ b':' ∷ v

unfoldable pub write_members : List Written → Bytes
write_members ms = b'{' ∷ join (map member (insertion_sort key_before ms)) ++ b'}' ∷ []

unfoldable mutual
  pub write_canonical : Value → Bytes
  write_canonical null = to_bytes "null"
  write_canonical (boolean true) = to_bytes "true"
  write_canonical (boolean false) = to_bytes "false"
  write_canonical (str s) = quote s
  write_canonical (num n) = format_int n
  write_canonical (arr xs) = b'[' ∷ join (write_items xs) ++ b']' ∷ []
  write_canonical (obj fs) = write_members (write_fields fs)

  pub write_items : Items → List Bytes
  write_items nil = []
  write_items (cons x xs) = write_canonical x ∷ write_items xs

  pub write_fields : Fields → List Written
  write_fields end = []
  write_fields (field k v fs) = (k, write_canonical v) ∷ write_fields fs

-- strconv.ParseInt(s, 10, 64) succeeds.
abbrev pub is_int64 : ℤ → Bool
is_int64 (pos n) = ltb n (2 ^ 63)
is_int64 (negsuc n) = ltb n (2 ^ 63)

unfoldable mutual
  pub in_range : Value → Bool
  in_range (num n) = is_int64 n
  in_range (arr xs) = items_in_range xs
  in_range (obj fs) = fields_in_range fs
  in_range null = true
  in_range (boolean b) = true
  in_range (str s) = true

  pub items_in_range : Items → Bool
  items_in_range nil = true
  items_in_range (cons x xs) = in_range x && items_in_range xs

  pub fields_in_range : Fields → Bool
  fields_in_range end = true
  fields_in_range (field k v fs) = in_range v && fields_in_range fs

-- No object of the value has a key twice; `seen` are the keys that the object had before.
unfoldable mutual
  pub has_distinct_keys : Value → Bool
  has_distinct_keys (arr xs) = items_distinct xs
  has_distinct_keys (obj fs) = fields_distinct [] fs
  has_distinct_keys null = true
  has_distinct_keys (boolean b) = true
  has_distinct_keys (str s) = true
  has_distinct_keys (num n) = true

  pub items_distinct : Items → Bool
  items_distinct nil = true
  items_distinct (cons x xs) = has_distinct_keys x && items_distinct xs

  pub fields_distinct : List String → Fields → Bool
  fields_distinct seen end = true
  fields_distinct seen (field k v fs) =
      not (contains seen k) && has_distinct_keys v && fields_distinct (k ∷ seen) fs

-- ParseStrict of a JSON text whose numbers are integers, as the value that the text stands for, in
-- which an object may have a key twice. Parser has ParseStrict over the tokens of any text.
unfoldable pub parse_strict : Value → Result Value
parse_strict v =
    if in_range v && has_distinct_keys v
    then ok v
    else err (wrap canonical_invalid "invalid canonical json input")

unfoldable pub delete : String → Fields → Fields
delete k end = end
delete k (field j v fs) = if j == k then delete k fs else field j v (delete k fs)

-- The object of a parsed value.
unfoldable pub as_object : Value → Result Fields
as_object (obj fs) = ok fs
as_object null = err (new canonical_invalid "signed object must be a json object")
as_object _ = err (new canonical_invalid "signed object must be a json object")

unfoldable pub marshal : Value → Result Bytes
unfolding parse_strict write_canonical
marshal input = do value ← parse_strict input; ok (write_canonical value)

abbrev pub signature_prefix : String
signature_prefix = "ISCP-V2-SIGNATURE\0"

unfoldable pub signature_input : String → Value → Result Bytes
unfolding parse_strict as_object delete write_canonical
signature_input object_type input = do
  value ← parse_strict input
  object ← as_object value
  ok (
      to_bytes signature_prefix
      ++ to_bytes object_type
      ++ 0 ∷ write_canonical (obj (delete "signature" object)))
