-- ===== src/Fulfillment/Allocate.antt =====
-- app/guardian/fulfillment.py: the loop that allocates each line to the chosen warehouses.
use Prim.Native.Nat.{min}
use chumma.Base.{ℕ, ◌-◌, ◌&&◌, none, some, List, [], ◌∷◌, ◌++◌, ltb, ◌==◌, if◌then◌else◌}
use chumma.Base.Decimal.{dec}
use chumma.Fulfillment.{StockableLine, WarehouseInfo, PlanAllocation, qty}

-- `current_avail[wid][pid]`; the loop reads the keys of the chosen warehouses alone.
abbrev pub Stock : Type 0
Stock = ℕ → ℕ → ℕ

abbrev pub update : Stock → ℕ → ℕ → ℕ → Stock
update cur wid pid v i p = if (i == wid) && (p == pid) then v else cur i p

abbrev pub allocation : StockableLine → WarehouseInfo → ℕ → PlanAllocation
allocation l w n = record {
  line_id = l.line_id;
  product_id = l.product_id;
  warehouse_id = some w.warehouse_id;
  requested_qty = n;
  allocated_qty = n;
  backorder_qty = 0;
  shipping_cost = w.shipping_cost_weight;
}

abbrev pub backorder : StockableLine → ℕ → PlanAllocation
backorder l n = record {
  line_id = l.line_id;
  product_id = l.product_id;
  warehouse_id = none;
  requested_qty = n;
  allocated_qty = 0;
  backorder_qty = n;
  shipping_cost = dec 0 2;
}

-- One round of the inner loop: `alloc_qty` (0 where nothing is taken), the entry appended, and the
-- stock left.
unfoldable pub taken : ℕ → ℕ → ℕ
taken here needed = if ltb 0 here && ltb 0 needed then min needed here else 0

unfoldable pub entry : StockableLine → WarehouseInfo → ℕ → ℕ → List PlanAllocation
entry l w here needed =
    if ltb 0 here && ltb 0 needed then allocation l w (taken here needed) ∷ [] else []

unfoldable pub stock_after : StockableLine → WarehouseInfo → Stock → ℕ → Stock
stock_after l w cur needed =
    let here = cur w.warehouse_id l.product_id in
    if ltb 0 here && ltb 0 needed
    then update cur w.warehouse_id l.product_id (here - taken here needed)
    else cur

-- The inner loop over the warehouses, from `needed`: the allocations, the stock left and what is
-- still needed.
unfoldable pub allocate_line :
    StockableLine → List WarehouseInfo → Stock → ℕ → List PlanAllocation × Stock × ℕ
allocate_line l [] cur needed = ([], cur, needed)
allocate_line l (w ∷ ws) cur needed =
    let here = cur w.warehouse_id l.product_id in
    let left = stock_after l w cur needed in
    let still = needed - taken here needed in
    let rest = allocate_line l ws left still in
    if still == 0
    then (entry l w here needed, left, still)
    else (entry l w here needed ++ rest.0, rest.1, rest.2)

-- The outer loop over the lines: the allocations, the backorders and the stock left.
unfoldable pub allocate_lines :
    List StockableLine
    → List WarehouseInfo
    → Stock
    → List PlanAllocation × List PlanAllocation × Stock
allocate_lines [] ws cur = ([], [], cur)
allocate_lines (l ∷ ls) ws cur =
    let (allocs, left, needed) = allocate_line l ws cur (qty l) in
    let rest = allocate_lines ls ws left in
    let missing = if ltb 0 needed then backorder l needed ∷ [] else [] in
    (allocs ++ rest.0, missing ++ rest.1, rest.2)
