-- ===== src/Canonical/Raw.antt =====
-- pkg/iscp/canonical/canonical.go and the json.RawMessage members of signed objects: JSON texts as
-- bytes. The standard JSON library is a parameter.
use iscp.Prelude.{Bool, true, not, ◌&&◌, List, [], ◌∷◌, Bytes}
use iscp.Errors.{Result, ok, external, ◌>>=◌, reject_if}
use iscp.Canonical.{Value, null, write_canonical}
use iscp.Canonical.Parser.{Token, parse_tokens}

-- json.Valid, and the tokens that dec.Token gives.
pub record Json : Type 0 where
  pub is_valid : Bytes → Bool
  pub tokens : Bytes → List Token

-- Marshal
unfoldable pub marshal_tokens : List Token → Result Bytes
unfolding write_canonical parse_tokens
marshal_tokens ts = do value ← parse_tokens ts; ok (write_canonical value)

module _ (json : Json) where
  -- json.Marshal writes an empty member as null, and fails on one that is no JSON text. A nil member
  -- is not told from an empty one.
  abbrev is_member : Bytes → Bool
  is_member [] = true
  is_member (b ∷ bs) = json.is_valid (b ∷ bs)

  abbrev are_members : List Bytes → Bool
  are_members [] = true
  are_members (raw ∷ raws) = is_member raw && are_members raws

  -- json.Marshal of a struct fails exactly where one of its raw members does.
  unfoldable pub check_members : List Bytes → Result (Unit {0})
  check_members raws = reject_if (not (are_members raws)) external

  -- What ParseStrict reads of the member.
  unfoldable pub member_value : Bytes → Result Value
  unfolding parse_tokens
  member_value [] = ok null
  member_value (b ∷ bs) = parse_tokens (json.tokens (b ∷ bs))
