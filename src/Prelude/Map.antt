-- ===== src/Prelude/Map.antt =====
-- Go maps as association lists, sealed behind their laws.
use mathlib.Core.Logic.{inl, inr}
use iscp.Prelude.Tests.{Bool-cases, Eq, ◌==◌, if◌then◌else◌}
use mathlib.Core.Path.{◌≡◌, refl}
use mathlib.Core.Bool.{Bool, true, false}
use mathlib.Core.Option.{Option, none, some}
use mathlib.Core.Option
use mathlib.Core.List.{List, [], ◌∷◌}
use native.Mathlib.Omega.{arith}

pub record Map {ℓ κ} (K : Type ℓ) (V : Type κ) : Type (ℓ ⊔ κ) where
  entries : List (K × V)

abbrev pub keep_if {κ} : {V : Type κ} → (V → Bool) → Option V → Option V
keep_if p none = none
keep_if p (some v) = if p v then some v else none

module _ {ℓ κ} {K : Type ℓ} {V : Type κ} ⦃e : Eq K⦄ where
  find : K → List (K × V) → Option V
  find k [] = none
  find k ((j, v) ∷ m) = if j == k then some v else find k m

  without : K → List (K × V) → List (K × V)
  without k [] = []
  without k ((j, v) ∷ m) = let rest = without k m in if j == k then rest else (j, v) ∷ rest

  -- A hidden entry does not come back when the one before it is dropped.
  kept : (V → Bool) → List (K × V) → List (K × V)
  unfolding without
  kept p [] = []
  kept p ((j, v) ∷ m) = let rest = without j (kept p m) in if p v then (j, v) ∷ rest else rest

  find-without :
      (k j : K) (m : List (K × V)) → find j (without k m) ≡ (if k == j then none else find j m)
  unfolding find without
  find-without k j [] = ground arith
  find-without k j ((i, v) ∷ m) =
      ground (arith, find-without k j m, e.beq_iff i k, e.beq_iff i j, e.beq_iff k j)

  find-kept : (p : V → Bool) (k : K) (m : List (K × V)) → find k (kept p m) ≡ keep_if p (find k m)
  unfolding find kept
  find-kept p k [] = refl
  find-kept p k ((j, v) ∷ m) =
      ground (arith, find-kept p k m, find-without j k (kept p m), e.beq_iff j k)

  mapped : (V → V) → List (K × V) → List (K × V)
  mapped f [] = []
  mapped f ((j, v) ∷ m) = (j, f v) ∷ mapped f m

  find-mapped :
      (f : V → V) (k : K) (m : List (K × V)) → find k (mapped f m) ≡ Option.map f (find k m)
  unfolding find mapped
  find-mapped f k [] = refl
  find-mapped f k ((j, v) ∷ m) = ground (arith, find-mapped f k m)

  -- make(map[K]V)
  pub empty : Map K V
  empty = record { entries = [] }

  -- m[k] with its presence
  pub get : Map K V → K → Option V
  unfolding find
  get m k = find k m.entries

  -- m[k] = v
  pub put : Map K V → K → V → Map K V
  unfolding without
  put m k v = record { entries = (k, v) ∷ without k m.entries }

  -- for k, v := range m { if !p(v) { delete(m, k) } }
  pub filter : (V → Bool) → Map K V → Map K V
  unfolding kept
  filter p m = record { entries = kept p m.entries }

  -- for k, v := range m { m[k] = f(v) }
  pub map_values : (V → V) → Map K V → Map K V
  unfolding mapped
  map_values f m = record { entries = mapped f m.entries }

  pub get-put :
      (m : Map K V) (k j : K) (v : V) → get (put m k v) j ≡ (if k == j then some v else get m j)
  unfolding get put
  get-put m k j v = ground (arith, find-without k j m.entries)

  pub get-filter : (p : V → Bool) (m : Map K V) (k : K) → get (filter p m) k ≡ keep_if p (get m k)
  unfolding get filter
  get-filter p m k = find-kept p k m.entries

  pub get-map_values :
      (f : V → V) (m : Map K V) (k : K) → get (map_values f m) k ≡ Option.map f (get m k)
  unfolding get map_values
  get-map_values f m k = find-mapped f k m.entries

  -- Each key once, with the entry that is seen.
  visible : List (K × V) → List (K × V)
  unfolding without
  visible [] = []
  visible ((j, v) ∷ m) = (j, v) ∷ without j (visible m)

  first : (V → Bool) → List (K × V) → Option V
  first p [] = none
  first p ((j, v) ∷ m) = if p v then some v else first p m

  -- for _, v := range m { if p(v) { return v } }
  pub pick : (V → Bool) → Map K V → Option V
  unfolding first visible
  pick p m = first p (visible m.entries)

  abbrev Distinct : List (K × V) → Type κ
  Distinct [] = Unit
  Distinct ((j, v) ∷ m) = (find j m ≡ none) × Distinct m

  Distinct-without : (k : K) (m : List (K × V)) → Distinct m → Distinct (without k m)
  unfolding without
  Distinct-without k [] h = tt
  Distinct-without k ((j, v) ∷ m) h = ground (arith, Distinct-without k m h.1, find-without k j m)

  find-visible : (k : K) (m : List (K × V)) → find k (visible m) ≡ find k m
  unfolding find visible
  find-visible k [] = refl
  find-visible k ((j, v) ∷ m) = ground (arith, find-visible k m, find-without j k (visible m))

  visible-Distinct : (m : List (K × V)) → Distinct (visible m)
  unfolding visible
  visible-Distinct [] = tt
  visible-Distinct ((j, v) ∷ m) = (
    rw find-without (ground (arith, e.beq_iff j j)),
    Distinct-without j (visible m) (visible-Distinct m),
  )

  first-some :
      (p : V → Bool) (m : List (K × V)) (v : V)
      → Distinct m
      → first p m ≡ some v
      → (k : K) × (find k m ≡ some v) × (p v ≡ true)
  unfolding first find
  first-some p [] v d h = cc
  first-some p ((j, w) ∷ m) v d h = elim (Bool-cases (p w)) [
    | inl hit ↦ (j, ground (arith, e.beq_iff j j), ground arith)
    | inr miss ↦
        let (k, found, good) = first-some p m v d.1 (rw (miss, first) at h) in
        (k, ground (arith, e.beq_iff j k), good)
  ]

  first-none :
      (p : V → Bool) (m : List (K × V)) (k : K) (v : V)
      → first p m ≡ none
      → find k m ≡ some v
      → p v ≡ false
  unfolding first find
  first-none p [] k v h f = cc
  first-none p ((j, w) ∷ m) k v h f = ground (arith, first-none p m k v)

  pub pick-some :
      (p : V → Bool) (m : Map K V) (v : V)
      → pick p m ≡ some v
      → (k : K) × (get m k ≡ some v) × (p v ≡ true)
  unfolding get pick
  pick-some p m v h =
      let (k, found, good) = first-some p (visible m.entries) v (visible-Distinct m.entries) h in
      (k, rw find-visible at found, good)

  pub pick-none :
      (p : V → Bool) (m : Map K V) (k : K) (v : V)
      → pick p m ≡ none
      → get m k ≡ some v
      → p v ≡ false
  unfolding get pick
  pick-none p m k v h f = first-none p (visible m.entries) k v h (rw find-visible f)

pub get-empty {ℓ κ} :
    {K : Type ℓ} {V : Type κ} ⦃e : Eq K⦄ (k : K) → get (empty {K = K} {V = V}) k ≡ none
unfolding get empty find
get-empty k = refl

pub ruleset map_laws = (get-empty, get-put, get-filter, get-map_values)
