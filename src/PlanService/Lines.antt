-- ===== src/PlanService/Lines.antt =====
-- The quantities of the stored lines: the check constraint of app/models/fulfillment.py, under the
-- operations of app/services/fulfillment_service.py.
use chumma.Base.{
  ℕ, ◌+◌, ◌-◌, ◌≡◌, Bool, true, false, ◌&&◌, Option, List, [], ◌∷◌, ◌++◌, map, arith, ltb, ◌==◌,
  if◌then◌else◌, if-cases, All, All-append,
}
use chumma.Base.Sort.{sort_by}
use chumma.Fulfillment.Select.{choose}
use chumma.Fulfillment.{
  key_lt, demand_from, StockableLine, WarehouseInfo, PlanAllocation, FulfillmentResult, Strategy,
  Availability, qty,
}
use chumma.Fulfillment.Allocate.{
  Stock, entry, stock_after, taken, backorder, allocate_line, allocate_lines,
}
use chumma.Fulfillment.Plan.{
  valid_lines, active_of, initial_stock, plan_over, plan_active, plan_valid,
  calculate_fulfillment_plan,
}

-- What is requested is allocated or backordered.
abbrev pub IsEntry : PlanAllocation → Type 0
IsEntry a = a.allocated_qty + a.backorder_qty ≡ a.requested_qty

entry-IsEntry :
    (l : StockableLine) (w : WarehouseInfo) (here needed : ℕ) → All IsEntry (entry l w here needed)
unfolding entry
entry-IsEntry l w here needed =
    if-cases (All IsEntry) (ltb 0 here && ltb 0 needed) _ [] (λ _. (omega arith, tt)) (λ _. tt)

cut-IsEntry :
    (b : Bool) (xs ys : List PlanAllocation) (s t : Stock) (m n : ℕ)
    → All IsEntry xs
    → All IsEntry ys
    → All IsEntry
        (if◌then◌else◌ {A = List PlanAllocation × Stock × ℕ} b (xs, s, m) (xs ++ ys, t, n)).0
cut-IsEntry true xs ys s t m n h k = h
cut-IsEntry false xs ys s t m n h k = All-append IsEntry xs ys h k

line-IsEntry :
    (l : StockableLine) (ws : List WarehouseInfo) (cur : Stock) (needed : ℕ)
    → All IsEntry (allocate_line l ws cur needed).0
unfolding allocate_line
line-IsEntry l [] cur needed = tt
line-IsEntry l (w ∷ ws) cur needed =
    let here = cur w.warehouse_id l.product_id in
    let rest = allocate_line l ws (stock_after l w cur needed) (needed - taken here needed) in
    cut-IsEntry ((needed - taken here needed) == 0) (entry l w here needed) rest.0
      (stock_after l w cur needed) rest.1 (needed - taken here needed) rest.2
      (entry-IsEntry l w here needed)
      (line-IsEntry l ws (stock_after l w cur needed) (needed - taken here needed))

missing-IsEntry :
    (l : StockableLine) (n : ℕ) → All IsEntry (if ltb 0 n then backorder l n ∷ [] else [])
missing-IsEntry l n = if-cases (All IsEntry) (ltb 0 n) _ [] (λ _. (omega arith, tt)) (λ _. tt)

lines-IsEntry :
    (ls : List StockableLine) (ws : List WarehouseInfo) (cur : Stock)
    → All IsEntry (allocate_lines ls ws cur).0 × All IsEntry (allocate_lines ls ws cur).1
unfolding allocate_lines
lines-IsEntry [] ws cur = (tt, tt)
lines-IsEntry (l ∷ ls) ws cur =
    let (allocs, backs) = lines-IsEntry ls ws (allocate_line l ws cur (qty l)).1 in
    (
      All-append IsEntry (allocate_line l ws cur (qty l)).0
          (allocate_lines ls ws (allocate_line l ws cur (qty l)).1).0
          (line-IsEntry l ws cur (qty l)) allocs,
      All-append IsEntry
          (if ltb 0 (allocate_line l ws cur (qty l)).2
            then backorder l (allocate_line l ws cur (qty l)).2 ∷ []
            else [])
          (allocate_lines ls ws (allocate_line l ws cur (qty l)).1).1
          (missing-IsEntry l (allocate_line l ws cur (qty l)).2) backs,
    )

backorders-IsEntry : (ls : List StockableLine) → All IsEntry (map (λ v. backorder v (qty v)) ls)
backorders-IsEntry [] = tt
backorders-IsEntry (l ∷ ls) = (omega arith, backorders-IsEntry ls)

abbrev AreEntries : FulfillmentResult → Type 0
AreEntries r = All IsEntry r.allocations × All IsEntry r.backorders

over-AreEntries :
    (ls : List StockableLine) (vs : List WarehouseInfo) (av : Availability)
    (force : Option Strategy)
    → AreEntries (plan_over ls vs av force)
unfolding plan_over
over-AreEntries ls vs av force =
    lines-IsEntry ls (sort_by key_lt (choose av vs (demand_from [] ls) force).0) (initial_stock av)

active-AreEntries :
    (ls : List StockableLine) (vs : List WarehouseInfo) (av : Availability)
    (force : Option Strategy)
    → AreEntries (plan_active ls vs av force)
unfolding plan_active
active-AreEntries ls [] av force = (tt, backorders-IsEntry ls)
active-AreEntries ls (v ∷ vs) av force = over-AreEntries ls (sort_by key_lt (v ∷ vs)) av force

valid-AreEntries :
    (ls : List StockableLine) (vs : List WarehouseInfo) (av : Availability)
    (force : Option Strategy)
    → AreEntries (plan_valid ls vs av force)
unfolding plan_valid
valid-AreEntries [] vs av force = (tt, tt)
valid-AreEntries (l ∷ ls) vs av force = active-AreEntries (l ∷ ls) vs av force

-- Every entry of a computed plan.
pub plan-AreEntries :
    (lines : List StockableLine) (ws : List WarehouseInfo) (av : Availability)
    (force : Option Strategy)
    → AreEntries (calculate_fulfillment_plan lines ws av force)
unfolding calculate_fulfillment_plan
plan-AreEntries lines ws av force = valid-AreEntries (valid_lines lines) (active_of ws) av force
