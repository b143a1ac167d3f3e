-- ===== src/Fulfillment.antt =====
-- app/guardian/fulfillment.py: the multi-warehouse fulfillment plan. This file has the data and the
-- comparisons; `Allocate` the allocation loop, `Select` the choice of warehouses and `Plan` the
-- whole function. The proofs are in the modules beside them.
-- `availability` is a function of a product and a warehouse, `none` where a key is missing.
pub mod Allocate
pub mod Select
pub mod Plan
pub mod Conserve
pub mod Coverage
pub mod Demand
pub mod Greedy
pub mod Choice
pub mod Guarantees
use text.Mathlib.Text.{◌==◌ as str_eq}
use chumma.Base.{
  ℕ, ◌+◌, String, Bool, true, false, not, ◌&&◌, Option, none, some, List, [], ◌∷◌, ltb, ◌==◌,
  if◌then◌else◌,
}
use chumma.Base.Int.{ℤ, pos_part, ltb_ℤ, eqb_ℤ}
use chumma.Base.Decimal.{Decimal, lt_dec, eq_dec}

pub record StockableLine : Type 0 where
  pub line_id : ℕ
  pub product_id : ℕ
  pub requested_qty : ℤ

pub record WarehouseInfo : Type 0 where
  pub warehouse_id : ℕ
  pub name : String
  pub shipping_cost_weight : Decimal
  pub priority : ℤ
  pub active : Bool

pub record PlanAllocation : Type 0 where
  pub line_id : ℕ
  pub product_id : ℕ
  pub warehouse_id : Option ℕ
  pub requested_qty : ℕ
  pub allocated_qty : ℕ
  pub backorder_qty : ℕ
  pub shipping_cost : Decimal

pub data Strategy : Type 0 where
  no_stockable_items no_active_warehouses full_coverage exhaustive greedy : Strategy

-- `FulfillmentCalculationResult`, with the identifiers that `algorithm_notes` lists.
pub record FulfillmentResult : Type 0 where
  pub strategy : Strategy
  pub estimated_shipments : ℕ
  pub estimated_shipping_cost : Decimal
  pub allocations : List PlanAllocation
  pub backorders : List PlanAllocation
  pub considered_warehouse_ids : List ℕ
  pub chosen_warehouse_ids : List ℕ
  pub used_warehouse_ids : List ℕ

abbrev pub Availability : Type 0
Availability = ℕ → ℕ → Option ℤ

-- `max(0, availability.get(pid, {}).get(wid, 0))`
unfoldable pub get_avail : Availability → ℕ → ℕ → ℕ
get_avail av wid pid = elim (av pid wid) [ none ↦ 0 | some q ↦ pos_part q ]

-- The quantity of a line that passed `requested_qty > 0`.
abbrev pub qty : StockableLine → ℕ
qty l = pos_part l.requested_qty

abbrev pub is_positive : StockableLine → Bool
is_positive l = ltb 0 (qty l)

-- `total_demand`, in the order of insertion.
unfoldable pub add_demand : ℕ → ℕ → List (ℕ × ℕ) → List (ℕ × ℕ)
add_demand p q [] = (p, q) ∷ []
add_demand p q ((r, d) ∷ rest) = if p == r then (r, d + q) ∷ rest else (r, d) ∷ add_demand p q rest

unfoldable pub demand_from : List (ℕ × ℕ) → List StockableLine → List (ℕ × ℕ)
unfolding add_demand
demand_from acc [] = acc
demand_from acc (l ∷ ls) = demand_from (add_demand l.product_id (qty l) acc) ls

-- The order of the keys `(w.shipping_cost_weight, w.priority, w.warehouse_id)`.
unfoldable pub key_lt : WarehouseInfo → WarehouseInfo → Bool
key_lt v w =
    if lt_dec v.shipping_cost_weight w.shipping_cost_weight
    then true
    else if lt_dec w.shipping_cost_weight v.shipping_cost_weight
    then false
    else if ltb_ℤ v.priority w.priority
    then true
    else if ltb_ℤ w.priority v.priority
    then false
    else ltb v.warehouse_id w.warehouse_id

-- The comparison of two dataclass values, for `pool.remove`.
unfoldable pub same_warehouse : WarehouseInfo → WarehouseInfo → Bool
same_warehouse v w =
    (v.warehouse_id == w.warehouse_id)
    && str_eq v.name w.name
    && eq_dec v.shipping_cost_weight w.shipping_cost_weight
    && eqb_ℤ v.priority w.priority
    && (if v.active then w.active else not w.active)
