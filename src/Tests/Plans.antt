-- ===== src/Tests/Plans.antt =====
-- The fulfillment plan of app/guardian/fulfillment.py on small orders.
use chumma.Base.{
  ℕ, ◌+◌, ◌-◌, ◌≤◌, ◌≡◌, refl, true, none, some, List, [], ◌∷◌, arith, ◌==◌, if◌then◌else◌,
}
use chumma.Base.Int.{pos}
use chumma.Base.Decimal.{dec}
use chumma.Fulfillment.{StockableLine, WarehouseInfo, Availability, get_avail}
use chumma.Fulfillment.Plan.{calculate_fulfillment_plan, active_of}
use chumma.Fulfillment.Select.{stock_of}
use chumma.Fulfillment.Guarantees.{plan_capacity, plan_conserves, plan_backorder}
use chumma.Fulfillment.Conserve.{requested_of, allocated_of, backordered_of, allocated_at}
use chumma.Fulfillment.Coverage.{IsDistinct}

-- Ten of product 100 and four of product 200, the first in two lines.
abbrev order : List StockableLine
order =
    record { line_id = 1; product_id = 100; requested_qty = pos 6 }
    ∷ record { line_id = 2; product_id = 200; requested_qty = pos 4 }
    ∷ record { line_id = 3; product_id = 100; requested_qty = pos 4 }
    ∷ []

abbrev warehouse : ℕ → WarehouseInfo
warehouse id = record {
  warehouse_id = id;
  name = "W";
  shipping_cost_weight = dec 100 2;
  priority = pos 1;
  active = true;
}

abbrev warehouses : List WarehouseInfo
warehouses = warehouse 1 ∷ warehouse 2 ∷ []

-- Seven and two of product 100, one and five of product 200.
abbrev stock : Availability
stock product id =
    if product == 100
    then (if id == 1 then some (pos 7) else some (pos 2))
    else if id == 1
    then some (pos 1)
    else some (pos 5)

plan_capacity_example :
    allocated_at 1 100 (calculate_fulfillment_plan order warehouses stock none).allocations
    ≤ get_avail stock 1 100
plan_capacity_example = plan_capacity order warehouses stock none 1 100

plan_conserves_example :
    allocated_of 100 (calculate_fulfillment_plan order warehouses stock none).allocations
      + backordered_of 100 (calculate_fulfillment_plan order warehouses stock none).backorders
    ≡ requested_of 100 order
plan_conserves_example = plan_conserves order warehouses stock none 100

warehouses-IsDistinct : IsDistinct warehouses
warehouses-IsDistinct i = ground arith

plan_backorder_example :
    backordered_of 100 (calculate_fulfillment_plan order warehouses stock none).backorders
    ≡ requested_of 100 order - stock_of stock 100 (active_of warehouses)
plan_backorder_example = plan_backorder order warehouses stock none 100 warehouses-IsDistinct

-- One of product 100 is missing.
one_missing : requested_of 100 order - stock_of stock 100 (active_of warehouses) ≡ 1
unfolding get_avail
one_missing = refl
