-- ===== src/Server/RateLimit/Window.antt =====
-- pkg/server/ratelimit/ratelimit.go: Allow, once and over a list of requests.
use iscp.Prelude.{
  ℕ, suc, ◌+◌, ◌≤◌, ◌<◌, String, ◌≡◌, ap, ◌&&◌, List, [], ◌∷◌, ltb, ◌==◌, nat_eq, string_eq,
  if◌then◌else◌, arith, All,
}
use text.Mathlib.TextEquality.{eq_iff}
use text.Mathlib.TextPositions.{eq_refl}
use iscp.Prelude.Int.{ℤ, pos_part}
use iscp.Prelude.Map
use iscp.Prelude.Map.{get-put, get-empty}
use iscp.Server.RateLimit.{Counter, Limiter, new, or_zero, current, charge, allow}

-- No counter has counted past the limit.
abbrev pub IsBounded : Limiter → Type 0
IsBounded l = (key : String) → (or_zero (Map.get l.counters key)).count ≤ pos_part l.limit

-- A request gets through exactly when its window has room, it is counted in that window if it gets
-- through, and the counters of other keys stay as they were.
pub allow-exact :
    (l : Limiter) (key : String) (now : ℕ)
    → let (l', allowed) = allow l key now in
      (allowed ≡ ltb (current l key now).count (pos_part l.limit))
      × ((j : String)
          → or_zero (Map.get l'.counters j) ≡ (
              if key == j
              then record {
                count = (current l key now).count + (if allowed then 1 else 0);
                reset = (current l key now).reset;
              }
              else or_zero (Map.get l.counters j)))
unfolding allow
allow-exact l key now = (
  ground arith,
  λ j. ground (arith, get-put l.counters key j (charge l.limit (current l key now)).0),
)

-- The requests of `key` that get through, of a list of requests of any clients.
pub admitted : String → Limiter → List (String × ℕ) → ℕ
admitted key l [] = 0
admitted key l ((j, now) ∷ rs) =
    let rest = admitted key (allow l j now).0 rs in
    if j == key && (allow l j now).1 then suc rest else rest

-- Every request of the list comes before the window that ends at `reset` is over.
abbrev pub Within : ℕ → List (String × ℕ) → Type 0
Within reset rs = All (λ r. r.1 ≤ reset) rs

allow-Within :
    (key : String) (l : Limiter) (j : String) (now : ℕ)
    → let c = or_zero (Map.get l.counters key) in
      let (l', allowed) = allow l j now in
      let c' = or_zero (Map.get l'.counters key) in
      c.count ≤ pos_part l.limit
      → 0 < c.reset
      → now ≤ c.reset
      → (c'.reset ≡ c.reset)
        × (l'.limit ≡ l.limit)
        × (c'.count ≤ pos_part l.limit)
        × (c'.count ≡ c.count + (if j == key && allowed then 1 else 0))
unfolding allow
allow-Within key l j now full set within =
    ground (arith, get-put l.counters j key (charge l.limit (current l j now)).0, eq_iff j key)

-- Between the first request that finds a window and its end, at most the limit gets through,
-- whatever other clients do in between.
admitted-Within :
    (key : String) (l : Limiter) (rs : List (String × ℕ))
    → let c = or_zero (Map.get l.counters key) in
      c.count ≤ pos_part l.limit
      → 0 < c.reset
      → Within c.reset rs
      → c.count + admitted key l rs ≤ pos_part l.limit
unfolding admitted
admitted-Within key l [] full set w = omega arith
admitted-Within key l ((j, now) ∷ rs) full set w =
    let (same, limit, fits, count) = allow-Within key l j now full set w.0 in
    let rest =
      admitted-Within key (allow l j now).0 rs (omega (arith, ap pos_part limit)) (omega arith)
        (rw same w.1) in
    ground (arith, ap pos_part limit, rest)

allow-new :
    (limit : ℤ) (window : ℕ) (key : String) (now : ℕ)
    → 0 < window
    → let (l, allowed) = allow (new limit window) key now in
      let c = or_zero (Map.get l.counters key) in
      (c.count ≡ (if allowed then 1 else 0))
      × (c.count ≤ pos_part limit)
      × (c.reset ≡ now + window)
      × (l.limit ≡ limit)
unfolding allow new
allow-new limit window key now h =
    let fresh = charge limit (record { count = 0; reset = now + window }) in
    ground (
      arith,
      get-empty {V = Counter} key,
      get-put {V = Counter} Map.empty key key fresh.0,
      eq_refl key,
    )

-- A new limiter with a positive window lets at most `limit` requests of a client through, from the
-- client's first request until the window that it starts is over, however the requests of other
-- clients fall in between.
pub admitted-le-limit :
    (limit : ℤ) (window : ℕ) (key : String) (now : ℕ) (rs : List (String × ℕ))
    → 0 < window
    → Within (now + window) rs
    → admitted key (new limit window) ((key, now) ∷ rs) ≤ pos_part limit
unfolding admitted
admitted-le-limit limit window key now rs h w =
    let (count, fits, reset, kept) = allow-new limit window key now h in
    let rest =
      admitted-Within key (allow (new limit window) key now).0 rs (omega (arith, ap pos_part kept))
        (omega arith) (rw reset w) in
    ground (arith, ap pos_part kept, rest, eq_refl key)
