-- ===== src/Server/RateLimit.antt =====
-- pkg/server/ratelimit/ratelimit.go: a fixed window of requests for each client key.
pub mod Window
use iscp.Prelude.{
  ℕ, ◌+◌, ◌≤◌, ◌<◌, String, ◌≡◌, Bool, true, false, ◌||◌, Option, none, some, ltb, leb, ◌==◌,
  nat_eq, string_eq, if◌then◌else◌,
}
use iscp.Prelude.Int.{ℤ, pos, leb_ℤ}
use iscp.Prelude.Map
use iscp.Prelude.Map.{Map}

pub record Counter : Type 0 where
  pub count : ℕ
  pub reset : ℕ

-- The window is a positive duration in nanoseconds.
pub record Limiter : Type 0 where
  pub limit : ℤ
  pub window : ℕ
  pub counters : Map String Counter

unfoldable pub new : ℤ → ℕ → Limiter
new limit window = record { limit = limit; window = window; counters = Map.empty }

-- A missing key reads as the zero counter.
abbrev pub or_zero : Option Counter → Counter
or_zero none = record { count = 0; reset = 0 }
or_zero (some c) = c

-- The counter that a request at `now` meets: a fresh one, if there is none or its window is over.
unfoldable pub current : Limiter → String → ℕ → Counter
current l key now =
    let c = or_zero (Map.get l.counters key) in
    if c.reset == 0 || ltb c.reset now then record { count = 0; reset = now + l.window } else c

-- The counter that the request leaves, and whether it gets through.
unfoldable pub charge : ℤ → Counter → Counter × Bool
charge limit c =
    if leb_ℤ limit (pos c.count) then (c, false) else (record c { count = c.count + 1 }, true)

unfoldable pub allow : Limiter → String → ℕ → Limiter × Bool
unfolding current charge
allow l key now =
    let (c, allowed) = charge l.limit (current l key now) in
    (record l { counters = Map.put l.counters key c }, allowed)
