-- ===== src/Fulfillment/Choice.antt =====
-- What every way to choose the warehouses promises: it takes them from the given ones, each at most
-- once, and what the chosen ones lack of a product, all the given ones lack too.
use chumma.Base.{
  subst, ℕ, zero, suc, ◌+◌, ◌-◌, ◌≤◌, ◌≡◌, refl, ◌⊎◌, inl, inr, Bool, true, not, ◌&&◌, Option, none,
  some, List, [], ◌∷◌, map, arith, leb, if◌then◌else◌, Bool-cases, Option-cases, length, keep_if,
  find_first, sum_of, All, All-append,
}
use chumma.Base.Sort.{All-min_from, sort_by, min_from, All-sort_by}
use chumma.Fulfillment.{WarehouseInfo, Strategy, Availability, get_avail, key_lt}
use chumma.Fulfillment.Select.{
  least, is_forced, choose, choose_single, Demand, combinations, subset_lt, stock_of, covers,
  covers_alone, find_subset, relevant, or_else, choose_exhaustive, greedy_loop, choose_greedy,
  is_greedy, choose_several,
}
use chumma.Fulfillment.Demand.{demand_at, covers_le, covers_alone_le, relevant_stock}
use chumma.Fulfillment.Greedy.{Enough, greedy_loop-Enough, greedy_loop_part}

-- Nothing that is summed over the identifiers grows.
abbrev pub IsPart : List WarehouseInfo → List WarehouseInfo → Type 0
IsPart c ws = (g : ℕ → ℕ) → sum_of (λ w. g w.warehouse_id) c ≤ sum_of (λ w. g w.warehouse_id) ws

IsPart-refl : (ws : List WarehouseInfo) → IsPart ws ws
IsPart-refl ws g = omega arith

pub sum_of-keep_if {ℓ} :
    {A : Type ℓ} (f : A → ℕ) (p : A → Bool) (xs : List A) → sum_of f (keep_if p xs) ≤ sum_of f xs
sum_of-keep_if f p [] = omega arith
sum_of-keep_if f p (x ∷ xs) = ground (arith, sum_of-keep_if f p xs)

keep_if_passes :
    (p : WarehouseInfo → Bool) (xs : List WarehouseInfo) → All (λ v. p v ≡ true) (keep_if p xs)
keep_if_passes p [] = tt
keep_if_passes p (x ∷ xs) = ground (arith, keep_if_passes p xs)

min_from-le-sum :
    (lt : WarehouseInfo → WarehouseInfo → Bool) (f : WarehouseInfo → ℕ) (b : WarehouseInfo)
    (xs : List WarehouseInfo)
    → f (min_from lt b xs) ≤ f b + sum_of f xs
unfolding min_from
min_from-le-sum lt f b [] = omega arith
min_from-le-sum lt f b (x ∷ xs) = ground (arith, min_from-le-sum lt f (if lt x b then x else b) xs)

All-map-cons :
    (f : WarehouseInfo → ℕ) (n : ℕ) (w : WarehouseInfo) (xs : List (List WarehouseInfo))
    → All (λ s. sum_of f s ≤ n) xs
    → All (λ s. sum_of f s ≤ f w + n) (map (◌∷◌ w) xs)
All-map-cons f n w [] h = tt
All-map-cons f n w (s ∷ xs) h = (omega arith, All-map-cons f n w xs h.1)

All-weaken :
    (f : WarehouseInfo → ℕ) (n m : ℕ) (xs : List (List WarehouseInfo))
    → n ≤ m
    → All (λ s. sum_of f s ≤ n) xs
    → All (λ s. sum_of f s ≤ m) xs
All-weaken f n m [] h a = tt
All-weaken f n m (s ∷ xs) h a = (omega arith, All-weaken f n m xs h a.1)

combinations_part :
    (f : WarehouseInfo → ℕ) (ws : List WarehouseInfo) (k : ℕ)
    → All (λ s. sum_of f s ≤ sum_of f ws) (combinations ws k)
unfolding combinations
combinations_part f [] zero = (omega arith, tt)
combinations_part f (w ∷ ws) zero = (omega arith, tt)
combinations_part f [] (suc k) = tt
combinations_part f (w ∷ ws) (suc k) =
    All-append _ _ _ (All-map-cons f (sum_of f ws) w _ (combinations_part f ws k))
      (All-weaken f _ _ _ (omega arith) (combinations_part f ws (suc k)))

-- What a search finds passed the test, and is one of the list.
find_first_found :
    (P : List WarehouseInfo → Type 0) (p : List WarehouseInfo → Bool)
    (xs : List (List WarehouseInfo)) (s : List WarehouseInfo)
    → All P xs
    → find_first p xs ≡ some s
    → P s × (p s ≡ true)
find_first_found P p [] s a e = cc
find_first_found P p (x ∷ xs) s a e = ground (arith, find_first_found P p xs s a.1)

from_first :
    (o r : Option (List WarehouseInfo)) (s : List WarehouseInfo)
    → (elim o [ some c ↦ some c | none ↦ r ]) ≡ some s
    → (o ≡ some s) ⊎ (r ≡ some s)
from_first (some c) r s e = inl e
from_first none r s e = inr e

module _ (av : Availability) where
  pub find_subset_found :
      (f : WarehouseInfo → ℕ) (ws : List WarehouseInfo) (total : Demand) (k left : ℕ)
      (s : List WarehouseInfo)
      → find_subset av ws total k left ≡ some s
      → (sum_of f s ≤ sum_of f ws) × (covers av total s ≡ true)
  unfolding find_subset
  find_subset_found f ws total k zero s e = cc
  find_subset_found f ws total k (suc left) s e =
      let sized = sort_by subset_lt (combinations ws k) in
      elim (from_first (find_first (covers av total) sized) _ s e) [
        | inl here ↦
            find_first_found (λ c. sum_of f c ≤ sum_of f ws) (covers av total) sized s
              (All-sort_by subset_lt (λ c. sum_of f c ≤ sum_of f ws) _ (combinations_part f ws k))
              here
        | inr later ↦ find_subset_found f ws total (k + 1) left s later
      ]

  -- A part that covers the demand lacks nothing.
  covering-Enough :
      (p : ℕ) (total : Demand) (c ws : List WarehouseInfo)
      → demand_at p total ≤ stock_of av p c
      → IsPart c ws
      → Enough av p total c (stock_of av p ws)
  covering-Enough p total c ws h part = omega (arith, part (λ i. get_avail av i p))

  relevant-IsPart : (ws : List WarehouseInfo) (total : Demand) → IsPart (relevant av ws total) ws
  relevant-IsPart ws total g = sum_of-keep_if (λ (w : WarehouseInfo). g w.warehouse_id) _ ws

  relevant-Enough :
      (p : ℕ) (ws : List WarehouseInfo) (total : Demand)
      → Enough av p total (relevant av ws total) (stock_of av p ws)
  relevant-Enough p ws total = ground (arith, relevant_stock av p total ws)

  -- What both promises are, together.
  pub record IsGoodChoice (ws : List WarehouseInfo) (total : Demand) (c : List WarehouseInfo)
      : Type 0 where
    pub part : IsPart c ws
    pub enough : (p : ℕ) → Enough av p total c (stock_of av p ws)

  or_else_good :
      (ws : List WarehouseInfo) (total : Demand) (c : List WarehouseInfo)
      → IsGoodChoice ws total c
      → IsGoodChoice ws total (or_else c ws)
  or_else_good ws total [] h = record { part = IsPart-refl ws; enough = λ p. refl }
  or_else_good ws total (w ∷ c) h = h

  module _ (ws : List WarehouseInfo) (total : Demand) where
    exhaustive_found :
        (s : List WarehouseInfo)
        → find_subset av ws total 2 (length ws - 1) ≡ some s
        → s ≡ choose_exhaustive av ws total
    unfolding choose_exhaustive
    exhaustive_found s e = rw (e, choose_exhaustive)

    exhaustive_fallback :
        find_subset av ws total 2 (length ws - 1) ≡ none
        → or_else (relevant av ws total) ws ≡ choose_exhaustive av ws total
    unfolding choose_exhaustive
    exhaustive_fallback e = rw (e, choose_exhaustive)

    found_good :
        (s : List WarehouseInfo)
        → find_subset av ws total 2 (length ws - 1) ≡ some s
        → IsGoodChoice ws total s
    found_good s e =
        let part = λ (g : ℕ → ℕ).
          (find_subset_found (λ w. g w.warehouse_id) ws total 2 (length ws - 1) s e).0 in
        let covered = (find_subset_found (λ w. 0) ws total 2 (length ws - 1) s e).1 in
        record {
          part = part;
          enough = λ p. covering-Enough p total s ws (covers_le av p total s covered) part;
        }

    exhaustive_good : IsGoodChoice ws total (choose_exhaustive av ws total)
    exhaustive_good = elim (Option-cases (find_subset av ws total 2 (length ws - 1))) [
      | inl e ↦ subst (IsGoodChoice ws total) (exhaustive_fallback e) (
          or_else_good ws total (relevant av ws total)
            (record { part = relevant-IsPart ws total; enough = λ p. relevant-Enough p ws total }))
      | inr (s, e) ↦ subst (IsGoodChoice ws total) (exhaustive_found s e) (found_good s e)
    ]

  greedy_good :
      (ws : List WarehouseInfo) (total : Demand) → IsGoodChoice ws total (choose_greedy av ws total)
  unfolding choose_greedy
  greedy_good ws total = or_else_good ws total (greedy_loop av (length ws) total ws []) (record {
    part = λ g. omega (arith, greedy_loop_part av g (length ws) total ws []);
    enough = λ p.
        omega (
          arith,
          greedy_loop-Enough av p (length ws) total total ws [] (omega arith) (omega arith),
        );
  })

  several_good :
      (ws : List WarehouseInfo) (total : Demand) (force : Option Strategy)
      → IsGoodChoice ws total (choose_several av ws total force).0
  unfolding choose_several
  several_good ws total force = elim (Bool-cases (leb (length ws) 6 && not (is_greedy force))) [
    | inl e ↦ rw e (exhaustive_good ws total)
    | inr e ↦ rw e (greedy_good ws total)
  ]

  single_good :
      (ws candidates : List WarehouseInfo) (total : Demand) (w : WarehouseInfo)
      → All (λ v. covers_alone av total v ≡ true) (w ∷ candidates)
      → ((f : WarehouseInfo → ℕ) → sum_of f (w ∷ candidates) ≤ sum_of f ws)
      → IsGoodChoice ws total (min_from key_lt w candidates ∷ [])
  single_good ws candidates total w covering le =
      let best = min_from key_lt w candidates in
      let part : IsPart (best ∷ []) ws = λ g.
        let f = λ (v : WarehouseInfo). g v.warehouse_id in
        omega (arith, le f, min_from-le-sum key_lt f w candidates) in
      let covered =
        All-min_from key_lt (λ v. covers_alone av total v ≡ true) w candidates covering.0
          covering.1 in
      record {
        part = part;
        enough = λ p.
            covering-Enough p total (best ∷ []) ws
              (omega (arith, covers_alone_le av p total best covered)) part;
      }

  single_choice :
      (ws : List WarehouseInfo) (total : Demand) (c : List WarehouseInfo)
      → All (λ v. covers_alone av total v ≡ true) c
      → ((f : WarehouseInfo → ℕ) → sum_of f c ≤ sum_of f ws)
      → (least c ≡ []) ⊎ IsGoodChoice ws total (least c)
  single_choice ws total [] covering le = inl refl
  single_choice ws total (w ∷ rest) covering le = inr (single_good ws rest total w covering le)

  good_of_cons :
      (ws : List WarehouseInfo) (total : Demand) (w : WarehouseInfo) (c : List WarehouseInfo)
      → (w ∷ c ≡ []) ⊎ IsGoodChoice ws total (w ∷ c)
      → IsGoodChoice ws total (w ∷ c)
  good_of_cons ws total w c (inl e) = cc
  good_of_cons ws total w c (inr h) = h

  choose_by_single :
      (ws : List WarehouseInfo) (total : Demand) (force : Option Strategy) (c : List WarehouseInfo)
      → c ≡ choose_single av ws total
      → (c ≡ []) ⊎ IsGoodChoice ws total c
      → IsGoodChoice ws total (choose av ws total force).0
  unfolding choose
  choose_by_single ws total force [] e h = elim (Bool-cases (is_forced force)) [
    | inl f ↦ rw f (several_good ws total force)
    | inr f ↦ rw (f, ← e) (several_good ws total force)
  ]
  choose_by_single ws total force (w ∷ c) e h = elim (Bool-cases (is_forced force)) [
    | inl f ↦ rw f (several_good ws total force)
    | inr f ↦ rw (f, ← e) (good_of_cons ws total w c h)
  ]

  -- However the warehouses are chosen, they are a part of the given ones, and lack no more.
  pub choose_good :
      (ws : List WarehouseInfo) (total : Demand) (force : Option Strategy)
      → IsGoodChoice ws total (choose av ws total force).0
  choose_good ws total force = choose_by_single ws total force (choose_single av ws total) refl (
      unfold choose_single in
      single_choice ws total (keep_if (covers_alone av total) ws)
        (keep_if_passes (covers_alone av total) ws)
        (λ f. sum_of-keep_if f (covers_alone av total) ws))
