-- ===== src/Canonical/Order.antt =====
-- pkg/iscp/canonical/canonical.go: writeCanonical of objects that differ in the order of their fields.
use mathlib.Core.Logic.{∥∥₁_elim}
use mathlib.Core.List.{Permᴰ}
use iscp.Prelude.{
  ◌≡◌, ◌≢◌, string_lt-flip, string_lt_negative_trans, false, not, List, [], ◌∷◌, ◌++◌, map, Perm,
  All, Bytes-set,
}
use iscp.Prelude.Sort.Unique.{AllApart, sort-permᴰ}
use iscp.Canonical.{
  Fields, obj, Written, key_before, write_members, join, member, write_fields, write_canonical,
}

key_before_negative_trans :
    (x y z : Written) → key_before y x ≡ false → key_before z y ≡ false → key_before z x ≡ false
unfolding key_before
key_before_negative_trans x y z = string_lt_negative_trans x.0 y.0 z.0

-- No two of the members have the same key.
abbrev pub HasDistinctMembers : List Written → Type 0
HasDistinctMembers [] = Unit
HasDistinctMembers (m ∷ ms) = All (λ n. m.0 ≢ n.0) ms × HasDistinctMembers ms

apart :
    (m : Written) (ms : List Written)
    → All (λ n. m.0 ≢ n.0) ms
    → All (λ n. key_before m n ≡ not (key_before n m)) ms
unfolding key_before
apart m [] h = tt
apart m (n ∷ ns) h = (string_lt-flip m.0 n.0 h.0, apart m ns h.1)

members-AllApart :
    (ms : List Written) → HasDistinctMembers ms → AllApart key_before key_before_negative_trans ms
members-AllApart [] h = tt
members-AllApart (m ∷ ms) h = (apart m ms h.0, members-AllApart ms h.1)

write_members-permᴰ :
    (ms ns : List Written)
    → HasDistinctMembers ms
    → Permᴰ ms ns
    → write_members ms ≡ write_members ns
unfolding write_members
write_members-permᴰ ms ns h p = λ i.
    b'{'
      ∷ join
          (map member (sort-permᴰ key_before key_before_negative_trans p (members-AllApart ms h) i))
    ++ b'}' ∷ []

-- Two objects whose fields are the same with the same canonical values in any order, with no key
-- twice, have the same canonical JSON.
pub write_canonical_perm :
    (fs gs : Fields)
    → HasDistinctMembers (write_fields fs)
    → Perm (write_fields fs) (write_fields gs)
    → write_canonical (obj fs) ≡ write_canonical (obj gs)
unfolding write_canonical
write_canonical_perm fs gs h p =
    ∥∥₁_elim p (Bytes-set _ _) (write_members-permᴰ (write_fields fs) (write_fields gs) h)
