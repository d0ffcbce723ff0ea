-- ===== src/Server/Replay/Uses.antt =====
-- pkg/server/replay/replay.go: Use, once and over a list of uses.
use iscp.Prelude.{
  ℕ, ◌≤◌, ◌<◌, String, ◌≡◌, true, false, not, ◌&&◌, some, List, [], ◌∷◌, ltb, ◌==◌, nat_eq,
  string_eq, if◌then◌else◌, arith, All,
}
use text.Mathlib.TextEquality.{eq_iff}
use text.Mathlib.TextPositions.{eq_refl}
use iscp.Prelude.Map
use iscp.Prelude.Map.{get-put, get-filter, get-empty}
use iscp.Server.Replay.{Cache, is_held, sweep, use_key}

held-sweep :
    (now : ℕ) (c : Cache) (key : String)
    → is_held now (Map.get (sweep now c.items) key) ≡ is_held now (Map.get c.items key)
unfolding sweep
held-sweep now c key = ground (arith, get-filter (λ exp. not (ltb exp now)) c.items key)

-- A key is taken exactly when no entry for it is still running, and it is then held until its own
-- expiry; a refusal leaves every running entry as it was, and so does a use of another key.
pub use_key-exact :
    (key : String) (expires_at now : ℕ) (c : Cache)
    → let (c', used) = use_key key expires_at now c in
      (used ≡ not (is_held now (Map.get c.items key)))
      × ((j : String) (t : ℕ)
          → now ≤ t
          → is_held t (Map.get c'.items j)
            ≡ (if (key == j) && used then ltb t expires_at else is_held t (Map.get c.items j)))
unfolding use_key sweep
use_key-exact key expires_at now c =
    let live = λ (exp : ℕ). not (ltb exp now) in
    let items = Map.filter live c.items in
    (
      ground (arith, get-filter live c.items key),
      λ j t le. ground (
        arith,
        get-filter live c.items key,
        get-filter live c.items j,
        get-put items key j expires_at,
        eq_iff key j,
      ),
    )

-- A use of some key, with the expiry and the time of the call.
abbrev pub Use : Type 0
Use = String × ℕ × ℕ

unfoldable pub run : Cache → List Use → Cache
run c [] = c
run c ((key, expires_at, now) ∷ us) = run (use_key key expires_at now c).0 us

abbrev pub HeldFor : (key : String) (e : ℕ) → Cache → Type 0
HeldFor key e c = Map.get c.items key ≡ some e

pub HeldFor-use_key :
    (key : String) (e : ℕ) (c : Cache) (j : String) (exp now : ℕ)
    → HeldFor key e c
    → now < e
    → HeldFor key e (use_key j exp now c).0
unfolding use_key sweep
HeldFor-use_key key e c j exp now h lt =
    let live = λ (t : ℕ). not (ltb t now) in
    ground (
      arith,
      get-filter live c.items key,
      get-put (Map.filter live c.items) j key exp,
      eq_iff j key,
    )

HeldFor-run :
    (key : String) (e : ℕ) (us : List Use) (c : Cache)
    → HeldFor key e c
    → All (λ u. u.2 < e) us
    → HeldFor key e (run c us)
unfolding run
HeldFor-run key e [] c h w = h
HeldFor-run key e ((j, exp, now) ∷ us) c h w =
    HeldFor-run key e us (use_key j exp now c).0 (HeldFor-use_key key e c j exp now h w.0) w.1

pub HeldFor-used :
    (key : String) (expires_at now : ℕ) (c : Cache)
    → (use_key key expires_at now c).1 ≡ true
    → HeldFor key expires_at (use_key key expires_at now c).0
unfolding use_key sweep
HeldFor-used key expires_at now c h = ground (
  arith,
  get-put (Map.filter (λ (t : ℕ). not (ltb t now)) c.items) key key expires_at,
  eq_refl key,
)

-- Once a key was taken, it is refused for as long as its proof lasts, whatever else is used in
-- between and with whatever expiry it comes back.
pub use_key-replay :
    (key : String) (expires_at now : ℕ) (c : Cache) (us : List Use) (again later : ℕ)
    → (use_key key expires_at now c).1 ≡ true
    → All (λ u. u.2 < expires_at) us
    → later < expires_at
    → (use_key key again later (run (use_key key expires_at now c).0 us)).1 ≡ false
use_key-replay key expires_at now c us again later taken w lt =
    let c' = run (use_key key expires_at now c).0 us in
    let held = HeldFor-run key expires_at us _ (HeldFor-used key expires_at now c taken) w in
    ground (arith, (use_key-exact key again later c').0, held)
