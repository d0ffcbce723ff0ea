-- ===== src/Prelude/Sort/Unique.antt =====
-- Lists that are rearrangements of one another sort to the same list, if no two elements tie.
use mathlib.Core.Path.{◌≡◌, refl, ◌∙◌}
use mathlib.Core.Bool.{Bool, false, not}
use mathlib.Core.List.{List, [], ◌∷◌, Permᴰ}
use native.Mathlib.Omega.{arith}
use iscp.Prelude.Lists.{All}
use iscp.Prelude.Sort.{insert, insertion_sort, All-permᴰ}

module _ {A : Type 0} (less : A → A → Bool)
    (trans : (x y z : A) → less y x ≡ false → less z y ≡ false → less z x ≡ false) where
  -- Of the two, one goes first.
  abbrev pub Apart : A → A → Type 0
  Apart x y = less x y ≡ not (less y x)

  insert_comm :
      (x y : A) (zs : List A)
      → Apart x y
      → insert less x (insert less y zs) ≡ insert less y (insert less x zs)
  unfolding insert
  insert_comm x y [] a = ground (arith, a)
  insert_comm x y (z ∷ zs) a = ground (arith, a, insert_comm x y zs a, trans x y z, trans y x z)

  -- No two elements tie.
  abbrev pub AllApart : List A → Type 0
  AllApart [] = Unit
  AllApart (x ∷ xs) = All (Apart x) xs × AllApart xs

  Apart-sym : (x y : A) → Apart x y → Apart y x
  Apart-sym x y a = ground (arith, a)

  All-Apart : {a b : A} (ys : List A) → a ≡ b → All (Apart a) ys → All (Apart b) ys
  All-Apart ys e h = rw e at h

  Apart-swap : {a b c d : A} → a ≡ d → b ≡ c → Apart a b → Apart c d
  Apart-swap {a} {b} e f h = rw (e, f) at (Apart-sym a b h)

  AllApart-permᴰ : {xs ys : List A} → Permᴰ xs ys → AllApart xs → AllApart ys
  AllApart-permᴰ Permᴰ.nil h = h
  AllApart-permᴰ (Permᴰ.cons e p) h = (All-Apart _ e (All-permᴰ _ p h.0), AllApart-permᴰ p h.1)
  AllApart-permᴰ (Permᴰ.swap d e) h =
      ((Apart-swap d e h.0.0, All-Apart _ e h.1.0), (All-Apart _ d h.0.1, h.1.1))
  AllApart-permᴰ (Permᴰ.trans p q) h = AllApart-permᴰ q (AllApart-permᴰ p h)

  pub sort-permᴰ :
      {xs ys : List A} → Permᴰ xs ys → AllApart xs → insertion_sort less xs ≡ insertion_sort less ys
  unfolding insertion_sort
  sort-permᴰ Permᴰ.nil h = refl
  sort-permᴰ (Permᴰ.cons e p) h = λ i. insert less (e i) (sort-permᴰ p h.1 i)
  sort-permᴰ (Permᴰ.swap {l = l} d e) h =
      insert_comm _ _ (insertion_sort less l) h.0.0
      ∙ (λ i. insert less (e i) (insert less (d i) (insertion_sort less l)))
  sort-permᴰ (Permᴰ.trans p q) h = sort-permᴰ p h ∙ sort-permᴰ q (AllApart-permᴰ p h)
