-- ===== src/Server/Keyring/Rotation.antt =====
-- pkg/server/keyring/keyring.go: the ring before and after Rotate.
use mathlib.Core.Option
use iscp.Prelude.{
  String, ◌≡◌, inl, inr, true, false, some, ◌==◌, string_eq, if◌then◌else◌, arith, Option-cases,
}
use text.Mathlib.TextEquality.{eq_iff}
use text.Mathlib.TextPositions.{eq_refl}
use iscp.Errors.{ok}
use iscp.Prelude.Map
use iscp.Prelude.Map.{Map, get-put, get-map_values, pick-some, pick-none}
use iscp.Server.Keyring.{next, active, Key, Ring, is_active, active_key, get_key, retire, rotate}

-- At most one key of the ring is active.
abbrev pub HasOneActive : Ring → Type 0
HasOneActive r =
    (i j : String) (k l : Key)
    → Map.get r i ≡ some k
    → Map.get r j ≡ some l
    → is_active k ≡ true
    → is_active l ≡ true
    → i ≡ j

-- A rotation that succeeds found the named key waiting to be next; that key is then active, and of
-- every other name the ring has what it had, with an active key retired.
rotate-exact :
    (r r' : Ring) (id j : String)
    → rotate r id ≡ ok r'
    → (key : Key) × (Map.get r id ≡ some key)
      × (key.state ≡ next)
      × (Map.get r' j ≡ (
          if id == j
          then some (record key { state = active })
          else Option.map retire (Map.get r j)))
unfolding rotate
rotate-exact r r' id j h = elim (Option-cases (Map.get r id)) [
  | inl missing ↦ absurd (ground arith)
  | inr (key, found) ↦ (
    key,
    found,
    ground arith,
    ground (
      arith,
      get-put (Map.map_values retire r) id j (record key { state = active }),
      get-map_values retire r j,
    ),
  )
]

retire-is_active : (k : Key) → is_active (retire k) ≡ false
unfolding retire
retire-is_active k = ground arith

rotate-active :
    (r r' : Ring) (id j : String) (k : Key)
    → rotate r id ≡ ok r'
    → Map.get r' j ≡ some k
    → is_active k ≡ true
    → j ≡ id
rotate-active r r' id j k h got live =
    let (key, found, waiting, entry) = rotate-exact r r' id j h in
    elim (Option-cases (Map.get r j)) [
      | inl missing ↦ ground (arith, eq_iff id j, entry)
      | inr (old, at) ↦ ground (arith, eq_iff id j, entry, retire-is_active old)
    ]

-- Whatever the ring held, after a rotation that succeeds at most one key is active, and the key to
-- sign with is the named one, as it was but active.
pub active_key-rotate :
    (r r' : Ring) (id : String)
    → rotate r id ≡ ok r'
    → HasOneActive r'
      × ((key : Key) × (Map.get r id ≡ some key)
          × (active_key r' ≡ ok (record key { state = active })))
unfolding active_key
active_key-rotate r r' id h =
    let (key, found, waiting, entry) = rotate-exact r r' id id h in
    let at : Map.get r' id ≡ some (record key { state = active }) =
      ground (arith, entry, eq_refl id) in
    (
      λ i j k l gi gj ai aj.
          ground (arith, rotate-active r r' id i k h gi ai, rotate-active r r' id j l h gj aj),
      (
        key,
        found,
        elim (Option-cases (Map.pick is_active r')) [
          | inl none_left ↦ absurd (
              ground
                (arith, pick-none is_active r' id (record key { state = active }) none_left at))
          | inr (v, picked) ↦
              let (j, got, live) = pick-some is_active r' v picked in
              let same : j ≡ id = rotate-active r r' id j v h got live in
              let got' : Map.get r' id ≡ some v = rw same at got in ground (arith, picked, at, got')
        ],
      ),
    )

-- A key that could be read before a rotation that succeeds can be read after it, with the same id and
-- public key.
pub get_key-rotate :
    (r r' : Ring) (id j : String) (k : Key)
    → rotate r id ≡ ok r'
    → get_key r j ≡ ok k
    → (k' : Key) × (get_key r' j ≡ ok k') × (k'.public ≡ k.public) × (k'.id ≡ k.id)
unfolding get_key retire
get_key-rotate r r' id j k h got =
    let (key, found, waiting, entry) = rotate-exact r r' id j h in
    elim (Option-cases (Map.get r j)) [
      | inl missing ↦ absurd (ground arith)
      | inr (old, at) ↦ (
        if id == j then record key { state = active } else retire k,
        ground (arith, eq_iff id j, entry, found, at),
        ground (arith, eq_iff id j, found, at),
        ground (arith, eq_iff id j, found, at),
      )
    ]
