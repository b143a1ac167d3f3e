-- ===== src/Fulfillment/Select.antt =====
-- app/guardian/fulfillment.py: the choice of the warehouses.
use Prim.Native.Nat.{min}
use chumma.Base.{
  ℕ, zero, suc, ◌+◌, ◌-◌, Bool, true, false, not, ◌&&◌, Option, none, some, List, [], ◌∷◌, ◌++◌,
  map, ltb, leb, ◌==◌, if◌then◌else◌, length, keep_if, any, all, find_first, sum_of,
}
use chumma.Base.Int.{ℤ, pos, ◌+ℤ◌, ltb_ℤ}
use chumma.Base.Decimal.{Decimal, dec, lt_dec, sum_from}
use chumma.Base.Sort.{sort_by, min_from, max_from}
use chumma.Fulfillment.{
  WarehouseInfo, Strategy, full_coverage, exhaustive, greedy, Availability, get_avail, key_lt,
  same_warehouse,
}

abbrev pub Demand : Type 0
Demand = List (ℕ × ℕ)

-- `itertools.combinations(xs, k)`
unfoldable pub combinations {ℓ} : {A : Type ℓ} → List A → ℕ → List (List A)
combinations xs zero = [] ∷ []
combinations [] (suc k) = []
combinations (x ∷ xs) (suc k) = map (◌∷◌ x) (combinations xs k) ++ combinations xs (suc k)

-- The sums that key a subset, `sum(w.shipping_cost_weight for w in s)` and `sum(w.priority ...)`.
unfoldable pub subset_cost : List WarehouseInfo → Decimal
subset_cost s = sum_from (dec 0 0) (map (λ w. w.shipping_cost_weight) s)

unfoldable pub subset_priority : List WarehouseInfo → ℤ
unfolding ◌+ℤ◌
subset_priority [] = pos 0
subset_priority (w ∷ s) = w.priority +ℤ subset_priority s

unfoldable pub subset_lt : List WarehouseInfo → List WarehouseInfo → Bool
unfolding subset_cost subset_priority
subset_lt s t =
    if lt_dec (subset_cost s) (subset_cost t)
    then true
    else if lt_dec (subset_cost t) (subset_cost s)
    then false
    else ltb_ℤ (subset_priority s) (subset_priority t)

-- `pool.remove(w)`
unfoldable pub remove_first : WarehouseInfo → List WarehouseInfo → List WarehouseInfo
unfolding same_warehouse
remove_first w [] = []
remove_first w (v ∷ vs) = if same_warehouse v w then vs else v ∷ remove_first w vs

-- `xs if xs else ys`
abbrev pub or_else : List WarehouseInfo → List WarehouseInfo → List WarehouseInfo
or_else [] ys = ys
or_else (x ∷ xs) ys = x ∷ xs

abbrev pub is_forced : Option Strategy → Bool
is_forced (some greedy) = true
is_forced (some exhaustive) = true
is_forced _ = false

abbrev pub is_greedy : Option Strategy → Bool
is_greedy (some greedy) = true
is_greedy _ = false

-- `[min(xs, key=...)]`, or no warehouse.
abbrev pub least : List WarehouseInfo → List WarehouseInfo
least [] = []
least (w ∷ ws) = min_from key_lt w ws ∷ []

-- `any(rem > 0 for rem in remaining.values())`
abbrev pub has_remaining : Demand → Bool
has_remaining = any (λ e. ltb 0 e.1)

module _ (av : Availability) where
  -- The stock of a product in some warehouses.
  abbrev pub stock_of : ℕ → List WarehouseInfo → ℕ
  stock_of pid = sum_of (λ w. get_avail av w.warehouse_id pid)

  -- `can_cover`, of one warehouse and of a subset.
  abbrev pub covers_alone : Demand → WarehouseInfo → Bool
  covers_alone total w = all (λ e. leb e.1 (get_avail av w.warehouse_id e.0)) total

  abbrev pub covers : Demand → List WarehouseInfo → Bool
  covers total s = all (λ e. leb e.1 (stock_of e.0 s)) total

  -- The loop over the sizes k, with `left` of them to go.
  unfoldable pub find_subset : List WarehouseInfo → Demand → ℕ → ℕ → Option (List WarehouseInfo)
  find_subset ws total k zero = none
  find_subset ws total k (suc left) =
      let rest = find_subset ws total (k + 1) left in
      elim (find_first (covers total) (sort_by subset_lt (combinations ws k))) [
        | some s ↦ some s
        | none ↦ rest
      ]

  -- The warehouses that hold some of the demand.
  abbrev pub relevant : List WarehouseInfo → Demand → List WarehouseInfo
  relevant ws total =
      keep_if (λ w. any (λ (e : ℕ × ℕ). ltb 0 (get_avail av w.warehouse_id e.0)) total) ws

  unfoldable pub choose_exhaustive : List WarehouseInfo → Demand → List WarehouseInfo
  choose_exhaustive ws total = elim (find_subset ws total 2 (length ws - 1)) [
    | some s ↦ s
    | none ↦ or_else (relevant ws total) ws
  ]

  abbrev pub coverage_gain : Demand → WarehouseInfo → ℕ
  coverage_gain remaining w = sum_of (λ e. min (get_avail av w.warehouse_id e.0) e.1) remaining

  -- The order of the keys `(coverage_gain(w), -float(w.shipping_cost_weight), -w.priority)`. The
  -- weights stand in a Numeric(10, 2) column, whose values a float tells apart and orders.
  unfoldable pub gain_lt : Demand → WarehouseInfo → WarehouseInfo → Bool
  gain_lt remaining v w =
      if ltb (coverage_gain remaining v) (coverage_gain remaining w)
      then true
      else if ltb (coverage_gain remaining w) (coverage_gain remaining v)
      then false
      else if lt_dec w.shipping_cost_weight v.shipping_cost_weight
      then true
      else if lt_dec v.shipping_cost_weight w.shipping_cost_weight
      then false
      else ltb_ℤ w.priority v.priority

  -- `remaining[pid] -= min(...)` for each product.
  abbrev pub take_from : WarehouseInfo → Demand → Demand
  take_from w = map (λ (p, d). (p, d - min (get_avail av w.warehouse_id p) d))

  -- The `while` loop, with fuel; each round takes one warehouse out of the pool.
  unfoldable pub greedy_loop :
      ℕ → Demand → List WarehouseInfo → List WarehouseInfo → List WarehouseInfo
  greedy_loop zero remaining pool selected = selected
  greedy_loop (suc f) remaining [] selected = selected
  greedy_loop (suc f) remaining (w ∷ ws) selected =
      let best = max_from (gain_lt remaining) w ws in
      let rest =
        greedy_loop f (take_from best remaining) (remove_first best (w ∷ ws))
          (selected ++ best ∷ []) in
      if not (has_remaining remaining)
      then selected
      else if coverage_gain remaining best == 0
      then selected
      else rest

  unfoldable pub choose_greedy : List WarehouseInfo → Demand → List WarehouseInfo
  choose_greedy ws total = or_else (greedy_loop (length ws) total ws []) ws

  -- The full-coverage check: the least of the warehouses that cover the demand alone.
  unfoldable pub choose_single : List WarehouseInfo → Demand → List WarehouseInfo
  choose_single ws total = least (keep_if (covers_alone total) ws)

  unfoldable pub choose_several :
      List WarehouseInfo → Demand → Option Strategy → List WarehouseInfo × Strategy
  choose_several ws total force =
      if leb (length ws) 6 && not (is_greedy force)
      then (choose_exhaustive ws total, exhaustive)
      else (choose_greedy ws total, greedy)

  -- The chosen warehouses and the strategy.
  unfoldable pub choose :
      List WarehouseInfo → Demand → Option Strategy → List WarehouseInfo × Strategy
  choose ws total force =
      if is_forced force then choose_several ws total force else elim (choose_single ws total) [
        | [] ↦ choose_several ws total force
        | w ∷ rest ↦ (w ∷ rest, full_coverage)
      ]
