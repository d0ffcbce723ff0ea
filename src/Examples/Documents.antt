-- ===== src/Examples/Documents.antt =====
-- Canonical JSON documents.
use iscp.Prelude.{◌≡◌, refl, [], ◌∷◌, ◌++◌}
use iscp.Prelude.Int.{pos}
use iscp.Errors.{ok}
use text.Mathlib.TextEquality.{eq_iff}
use mathlib.Core.List.Perm
use iscp.Canonical.Order.{write_canonical_perm}
use iscp.Canonical.{write_canonical, write_fields, null, Value, num, obj, end, field, in_range}
use iscp.Canonical.Parser.{close_array, parse_tokens}
use iscp.Canonical.Parser.RoundTrip.{value_tokens, parse_tokens-value_tokens}
use iscp.Canonical.Parser.Soundness.{IsStrict, parse_tokens-IsStrict}
use iscp.Canonical.TopLevel.{reject_unknown_top_level, reject_unknown_top_level_iff}

abbrev document : Value
document = obj (field "a" (num (pos 5)) (field "b" (num (pos 120)) end))

-- A stray bracket after the document changes nothing.
parse_tokens-value_tokens_example :
    parse_tokens (value_tokens document ++ close_array ∷ []) ≡ ok document
unfolding in_range
parse_tokens-value_tokens_example =
    parse_tokens-value_tokens document (close_array ∷ []) refl (refl, tt, (refl, tt, tt)) refl

document_read : parse_tokens (value_tokens document ++ []) ≡ ok document
unfolding in_range
document_read = parse_tokens-value_tokens document [] refl (refl, tt, (refl, tt, tt)) refl

parse_tokens-IsStrict_example : IsStrict document
parse_tokens-IsStrict_example =
    parse_tokens-IsStrict (value_tokens document ++ []) document document_read

reject_unknown_top_level_iff_example :
    reject_unknown_top_level (value_tokens document ++ []) ("b" ∷ "a" ∷ []) ≡ ok tt
reject_unknown_top_level_iff_example =
    (reject_unknown_top_level_iff (value_tokens document ++ []) ("b" ∷ "a" ∷ [])).1
      (field "a" (num (pos 5)) (field "b" (num (pos 120)) end), document_read, (refl, (refl, tt)))

write_canonical_perm_example :
    write_canonical (obj (field "a" null (field "b" (num (pos 5)) end)))
    ≡ write_canonical (obj (field "b" (num (pos 5)) (field "a" null end)))
unfolding write_fields
write_canonical_perm_example =
    write_canonical_perm (field "a" null (field "b" (num (pos 5)) end))
      (field "b" (num (pos 5)) (field "a" null end))
      ((λ e. cc ((eq_iff "a" "b").1 e), tt), (tt, tt)) (Perm.swap _ _ _)
