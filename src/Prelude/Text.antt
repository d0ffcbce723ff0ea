-- ===== src/Prelude/Text.antt =====
-- Go strings as native texts (sequences of code points) and byte slices as lists of numbers.
use Prim.Native.Nat.{ℕ, ◌+◌, ◌/◌, ◌%◌}
use Prim.Native.Char.{code}
use Prim.Native.String.{String}
use Prim.Native.String
use mathlib.Core.Path.{◌≡◌, refl, ap₂}
use mathlib.Core.Logic.{◌≢◌}
use native.Mathlib.Omega.{arith}
use text.Mathlib.TextEquality.{Char-path}
use mathlib.Core.Bool.{not, Bool, true, false, ◌||◌, ◌&&◌}
use mathlib.Core.List.{List, [], ◌∷◌, ◌++◌}
use native.Mathlib.Decide.{ℕ_discrete}
use iscp.Prelude.Tests.{ltb, leb, nat_beq, if◌then◌else◌, ◌==◌, string_eq}

abbrev pub Bytes : Type 0
Bytes = List ℕ

infixr 66 ◌+++◌
abbrev pub ◌+++◌ : String → String → String
◌+++◌ = String.◌++◌

-- The bytes of one code point in UTF-8.
utf8_char : ℕ → Bytes
utf8_char c =
    if ltb c 0x80
    then c ∷ []
    else if ltb c 0x800
    then (0xC0 + c / 64) ∷ (0x80 + c % 64) ∷ []
    else if ltb c 0x10000
    then (0xE0 + c / 4096) ∷ (0x80 + c / 64 % 64) ∷ (0x80 + c % 64) ∷ []
    else (0xF0 + c / 262144) ∷ (0x80 + c / 4096 % 64) ∷ (0x80 + c / 64 % 64) ∷ (0x80 + c % 64) ∷ []

-- []byte(s)
unfoldable pub to_bytes : String → Bytes
unfolding utf8_char
to_bytes String.[] = []
to_bytes (String.◌∷◌ c s) = utf8_char (code c) ++ to_bytes s

-- unicode.IsSpace
abbrev pub is_space : ℕ → Bool
is_space c =
    (leb 9 c && leb c 13)
    || nat_beq c 32
    || nat_beq c 0x85
    || nat_beq c 0xA0
    || nat_beq c 0x1680
    || (leb 0x2000 c && leb c 0x200A)
    || nat_beq c 0x2028
    || nat_beq c 0x2029
    || nat_beq c 0x202F
    || nat_beq c 0x205F
    || nat_beq c 0x3000

-- strings.TrimSpace(s) == ""
unfoldable pub is_blank : String → Bool
is_blank String.[] = true
is_blank (String.◌∷◌ c s) = is_space (code c) && is_blank s

-- The text without the white space at its end.
unfoldable pub trim_right : String → String
trim_right String.[] = String.[]
trim_right (String.◌∷◌ c s) =
    let rest = trim_right s in
    if is_space (code c) && rest == "" then String.[] else String.◌∷◌ c rest

unfoldable pub trim_left : String → String
trim_left String.[] = String.[]
trim_left (String.◌∷◌ c s) =
    let rest = trim_left s in if is_space (code c) then rest else String.◌∷◌ c s

-- strings.TrimSpace
unfoldable pub trim_space : String → String
trim_space s = trim_right (trim_left s)

-- s < t: the order of the bytes is that of the code points.
unfoldable pub string_lt : String → String → Bool
string_lt s String.[] = false
string_lt String.[] (String.◌∷◌ d t) = true
string_lt (String.◌∷◌ c s) (String.◌∷◌ d t) =
    ltb (code c) (code d) || (nat_beq (code c) (code d) && string_lt s t)

-- Of two texts, one comes first.
pub string_lt-flip : (s t : String) → s ≢ t → string_lt s t ≡ not (string_lt t s)
unfolding string_lt
string_lt-flip String.[] String.[] n = absurd (n refl)
string_lt-flip String.[] (String.◌∷◌ d t) n = refl
string_lt-flip (String.◌∷◌ c s) String.[] n = refl
string_lt-flip (String.◌∷◌ c s) (String.◌∷◌ d t) n = elim (ℕ_discrete (code c) (code d)) [
  | yes e ↦
      let rest = string_lt-flip s t (λ st. n (ap₂ (λ x y. String.◌∷◌ x y) (Char-path c d e) st)) in
      ground arith
  | no ne ↦ ground arith
]

pub string_lt_negative_trans :
    (s t u : String) → string_lt t s ≡ false → string_lt u t ≡ false → string_lt u s ≡ false
unfolding string_lt
string_lt_negative_trans String.[] t u h k = refl
string_lt_negative_trans (String.◌∷◌ c s) String.[] u h k = cc
string_lt_negative_trans (String.◌∷◌ c s) (String.◌∷◌ d t) String.[] h k = cc
string_lt_negative_trans (String.◌∷◌ c s) (String.◌∷◌ d t) (String.◌∷◌ e u) h k =
    ground (arith, string_lt_negative_trans s t u)
