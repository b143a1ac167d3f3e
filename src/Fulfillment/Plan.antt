-- ===== src/Fulfillment/Plan.antt =====
-- app/guardian/fulfillment.py: `calculate_fulfillment_plan`.
use chumma.Base.{
  ℕ, Bool, Option, none, some, List, [], ◌∷◌, ◌++◌, map, ◌==◌, if◌then◌else◌, length, keep_if, any,
}
use chumma.Base.Decimal.{Decimal, dec, sum_from}
use chumma.Base.Sort.{sort_by}
use chumma.Fulfillment.{
  StockableLine, WarehouseInfo, PlanAllocation, FulfillmentResult, Strategy, no_stockable_items,
  no_active_warehouses, Availability, get_avail, qty, is_positive, demand_from, key_lt,
}
use chumma.Fulfillment.Allocate.{Stock, backorder, allocate_lines}
use chumma.Fulfillment.Select.{Demand, choose}

abbrev pub valid_lines : List StockableLine → List StockableLine
valid_lines = keep_if is_positive

abbrev pub active_of : List WarehouseInfo → List WarehouseInfo
active_of = keep_if (λ w. w.active)

abbrev pub total_demand : List StockableLine → Demand
total_demand lines = demand_from [] (valid_lines lines)

abbrev pub initial_stock : Availability → Stock
initial_stock av wid pid = get_avail av wid pid

-- `warehouses_used`, a set of identifiers: each once, in the order of its first allocation.
abbrev contains_id : ℕ → List ℕ → Bool
contains_id i = any (λ j. i == j)

unfoldable pub used_ids : List ℕ → List PlanAllocation → List ℕ
used_ids seen [] = seen
used_ids seen (a ∷ rest) =
    used_ids
      (elim a.warehouse_id [
        | none ↦ seen
        | some i ↦ if contains_id i seen then seen else seen ++ i ∷ []
      ])
      rest

-- `wh_map[wid].shipping_cost_weight`, where the last of equal identifiers stands in the map.
abbrev weight_of : List WarehouseInfo → ℕ → Decimal
weight_of [] i = dec 0 2
weight_of (w ∷ ws) i =
    if any (λ v. v.warehouse_id == i) ws
    then weight_of ws i
    else if w.warehouse_id == i
    then w.shipping_cost_weight
    else dec 0 2

-- `sum(...) if warehouses_used else Decimal("0.00")`
abbrev shipping_total : List Decimal → Decimal
shipping_total [] = dec 0 2
shipping_total (c ∷ cs) = sum_from (dec 0 0) (c ∷ cs)

abbrev pub empty_plan : Strategy → List PlanAllocation → FulfillmentResult
empty_plan s b = record {
  strategy = s;
  estimated_shipments = 0;
  estimated_shipping_cost = dec 0 2;
  allocations = [];
  backorders = b;
  considered_warehouse_ids = [];
  chosen_warehouse_ids = [];
  used_warehouse_ids = [];
}

-- The plan over valid lines and sorted active warehouses, neither empty.
unfoldable pub plan_over :
    List StockableLine → List WarehouseInfo → Availability → Option Strategy → FulfillmentResult
plan_over lines ws av force =
    let (chosen, strategy) = choose av ws (demand_from [] lines) force in
    let by_key = sort_by key_lt chosen in
    let (allocs, backs, left) = allocate_lines lines by_key (initial_stock av) in
    let used = used_ids [] allocs in
    record {
      strategy = strategy;
      estimated_shipments = length used;
      estimated_shipping_cost = shipping_total (map (weight_of by_key) used);
      allocations = allocs;
      backorders = backs;
      considered_warehouse_ids = map (λ w. w.warehouse_id) ws;
      chosen_warehouse_ids = map (λ w. w.warehouse_id) by_key;
      used_warehouse_ids = used;
    }

-- The early return without active warehouses.
unfoldable pub plan_active :
    List StockableLine → List WarehouseInfo → Availability → Option Strategy → FulfillmentResult
plan_active lines [] av force =
    empty_plan no_active_warehouses (map (λ v. backorder v (qty v)) lines)
plan_active lines (w ∷ ws) av force = plan_over lines (sort_by key_lt (w ∷ ws)) av force

-- The early return without valid lines.
unfoldable pub plan_valid :
    List StockableLine → List WarehouseInfo → Availability → Option Strategy → FulfillmentResult
plan_valid [] ws av force = empty_plan no_stockable_items []
plan_valid (l ∷ ls) ws av force = plan_active (l ∷ ls) ws av force

unfoldable pub calculate_fulfillment_plan :
    List StockableLine → List WarehouseInfo → Availability → Option Strategy → FulfillmentResult
calculate_fulfillment_plan lines warehouses av force =
    plan_valid (valid_lines lines) (active_of warehouses) av force
