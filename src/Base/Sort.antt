-- ===== src/Base/Sort.antt =====
-- Python's stable `sorted(xs, key=...)`, `min(xs, key=...)` and `max(xs, key=...)`, over the strict
-- order of the keys.
use Prim.Native.Nat.{ℕ, ◌+◌}
use mathlib.Core.Path.{◌≡◌}
use mathlib.Core.Bool.{Bool}
use mathlib.Core.List.{List, [], ◌∷◌}
use native.Mathlib.Omega.{arith}
use chumma.Base.Tests.{if◌then◌else◌}
use chumma.Base.Lists.{sum_of, All}

module _ {A : Type 0} (lt : A → A → Bool) where
  -- Before the first element that is not smaller, so equal keys keep their order.
  unfoldable pub insert_by : A → List A → List A
  insert_by x [] = x ∷ []
  insert_by x (y ∷ ys) = if lt y x then y ∷ insert_by x ys else x ∷ y ∷ ys

  unfoldable pub sort_by : List A → List A
  unfolding insert_by
  sort_by [] = []
  sort_by (x ∷ xs) = insert_by x (sort_by xs)

  -- The first of the smallest (greatest) of `best` and the elements of the list.
  unfoldable pub min_from : A → List A → A
  min_from best [] = best
  min_from best (x ∷ xs) = min_from (if lt x best then x else best) xs

  unfoldable pub max_from : A → List A → A
  max_from best [] = best
  max_from best (x ∷ xs) = max_from (if lt best x then x else best) xs

  sum_of-insert_by :
      (f : A → ℕ) (x : A) (ys : List A) → sum_of f (insert_by x ys) ≡ f x + sum_of f ys
  unfolding insert_by
  sum_of-insert_by f x [] = omega arith
  sum_of-insert_by f x (y ∷ ys) = ground (arith, sum_of-insert_by f x ys)

  pub sum_of-sort_by : (f : A → ℕ) (xs : List A) → sum_of f (sort_by xs) ≡ sum_of f xs
  unfolding sort_by
  sum_of-sort_by f [] = omega arith
  sum_of-sort_by f (x ∷ xs) = omega (arith, sum_of-insert_by f x (sort_by xs), sum_of-sort_by f xs)

  All-insert_by : (P : A → Type 0) (x : A) (ys : List A) → P x → All P ys → All P (insert_by x ys)
  unfolding insert_by
  All-insert_by P x [] p h = (p, tt)
  All-insert_by P x (y ∷ ys) p h = ground (arith, All-insert_by P x ys p h.1)

  pub All-sort_by : (P : A → Type 0) (xs : List A) → All P xs → All P (sort_by xs)
  unfolding sort_by
  All-sort_by P [] h = tt
  All-sort_by P (x ∷ xs) h = All-insert_by P x (sort_by xs) h.0 (All-sort_by P xs h.1)

  pub All-min_from : (P : A → Type 0) (b : A) (xs : List A) → P b → All P xs → P (min_from b xs)
  unfolding min_from
  All-min_from P b [] p h = p
  All-min_from P b (x ∷ xs) p h = All-min_from P (if lt x b then x else b) xs (ground arith) h.1

  pub All-max_from : (P : A → Type 0) (b : A) (xs : List A) → P b → All P xs → P (max_from b xs)
  unfolding max_from
  All-max_from P b [] p h = p
  All-max_from P b (x ∷ xs) p h = All-max_from P (if lt b x then x else b) xs (ground arith) h.1
