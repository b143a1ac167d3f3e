-- ===== src/Fulfillment/Guarantees.antt =====
-- What `calculate_fulfillment_plan` promises, whatever the strategy.
use chumma.Base.{
  ℕ, ◌+◌, ◌-◌, ◌≤◌, ◌≡◌, refl, ◌∙◌, Option, List, [], ◌∷◌, map, arith, ◌==◌, if◌then◌else◌,
}
use chumma.Base.Sort.{sort_by, sum_of-sort_by}
use chumma.Fulfillment.{
  StockableLine, WarehouseInfo, FulfillmentResult, Strategy, Availability, get_avail, qty,
  demand_from, key_lt, no_stockable_items, no_active_warehouses,
}
use chumma.Fulfillment.Allocate.{backorder}
use chumma.Fulfillment.Select.{choose, stock_of}
use chumma.Fulfillment.Plan.{
  plan_active, plan_valid, active_of, valid_lines, initial_stock, empty_plan, plan_over,
  calculate_fulfillment_plan,
}
use chumma.Fulfillment.Conserve.{
  allocated_at, allocated_of, backordered_of, requested_of, allocate_lines_stock,
  allocate_lines_quantity,
}
use chumma.Fulfillment.Coverage.{IsDistinct, allocate_lines_backorder}
use chumma.Fulfillment.Demand.{demand_at-total}
use chumma.Fulfillment.Choice.{sum_of-keep_if, choose_good}

-- A statement about the plan holds if it holds on each of the three ways out of the function.
plan_cases :
    (P : FulfillmentResult → Type 0) (ls : List StockableLine) (ws : List WarehouseInfo)
    (av : Availability) (force : Option Strategy)
    → (ls ≡ [] → P (empty_plan no_stockable_items []))
    → (ws ≡ [] → P (empty_plan no_active_warehouses (map (λ v. backorder v (qty v)) ls)))
    → P (plan_over ls (sort_by key_lt ws) av force)
    → P (plan_valid ls ws av force)
unfolding plan_valid plan_active
plan_cases P [] ws av force no_lines no_warehouses over = no_lines refl
plan_cases P (l ∷ ls) [] av force no_lines no_warehouses over = no_warehouses refl
plan_cases P (l ∷ ls) (w ∷ ws) av force no_lines no_warehouses over = over

-- The quantities of a plan without warehouses.
all_backordered :
    (pid : ℕ) (ls : List StockableLine)
    → backordered_of pid (map (λ v. backorder v (qty v)) ls) ≡ requested_of pid ls
all_backordered pid [] = refl
all_backordered pid (l ∷ ls) = omega (arith, all_backordered pid ls)

requested_of-valid_lines :
    (pid : ℕ) (lines : List StockableLine)
    → requested_of pid (valid_lines lines) ≡ requested_of pid lines
requested_of-valid_lines pid [] = refl
requested_of-valid_lines pid (l ∷ lines) = ground (arith, requested_of-valid_lines pid lines)

module _ (lines : List StockableLine) (warehouses : List WarehouseInfo) (av : Availability)
    (force : Option Strategy) where
  abbrev plan : FulfillmentResult
  plan = calculate_fulfillment_plan lines warehouses av force

  abbrev candidates : List WarehouseInfo
  candidates = sort_by key_lt (active_of warehouses)

  abbrev chosen : List WarehouseInfo
  chosen = sort_by key_lt (choose av candidates (demand_from [] (valid_lines lines)) force).0

  -- No warehouse gives more of a product than its positive stock.
  pub plan_capacity : (wid pid : ℕ) → allocated_at wid pid plan.allocations ≤ get_avail av wid pid
  unfolding calculate_fulfillment_plan
  plan_capacity wid pid =
      plan_cases (λ r. allocated_at wid pid r.allocations ≤ get_avail av wid pid)
        (valid_lines lines) (active_of warehouses) av force (λ _. omega arith) (λ _. omega arith)
        (unfold plan_over in
          omega (arith, allocate_lines_stock wid pid (valid_lines lines) chosen (initial_stock av)))

  -- Of every product, what the lines request is allocated or backordered, no more and no less.
  pub plan_conserves :
      (pid : ℕ)
      → allocated_of pid plan.allocations + backordered_of pid plan.backorders
        ≡ requested_of pid lines
  unfolding calculate_fulfillment_plan
  plan_conserves pid = rw (← requested_of-valid_lines pid lines) (
      plan_cases
        (λ r.
          allocated_of pid r.allocations + backordered_of pid r.backorders
          ≡ requested_of pid (valid_lines lines))
        (valid_lines lines) (active_of warehouses) av force (λ e. rw e (omega arith))
        (λ _. omega (arith, all_backordered pid (valid_lines lines)))
        (unfold plan_over in
          allocate_lines_quantity pid (valid_lines lines) chosen (initial_stock av)))

  -- The chosen warehouses are as distinct as the given ones, and have the stock that matters.
  chosen-IsDistinct : IsDistinct warehouses → IsDistinct chosen
  chosen-IsDistinct d i =
      let g : ℕ → ℕ = λ j. if j == i then 1 else 0 in
      let f = λ (w : WarehouseInfo). g w.warehouse_id in
      let good = choose_good av candidates (demand_from [] (valid_lines lines)) force in
      omega (
        arith,
        sum_of-sort_by key_lt f (choose av candidates (demand_from [] (valid_lines lines)) force).0,
        good.part g,
        sum_of-sort_by key_lt f (active_of warehouses),
        sum_of-keep_if f (λ (w : WarehouseInfo). w.active) warehouses,
        d i,
      )

  chosen_stock :
      (pid : ℕ)
      → requested_of pid (valid_lines lines) - stock_of av pid chosen
        ≡ requested_of pid (valid_lines lines) - stock_of av pid (active_of warehouses)
  chosen_stock pid =
      let f = λ (w : WarehouseInfo). get_avail av w.warehouse_id pid in
      let good = choose_good av candidates (demand_from [] (valid_lines lines)) force in
      omega (
        arith,
        sum_of-sort_by key_lt f (choose av candidates (demand_from [] (valid_lines lines)) force).0,
        good.enough pid,
        demand_at-total pid (valid_lines lines),
        sum_of-sort_by key_lt f (active_of warehouses),
      )

  -- If the warehouses have different identifiers, what is backordered of a product is exactly what
  -- the stock of all active warehouses together lacks, whichever of them are chosen.
  pub plan_backorder :
      (pid : ℕ)
      → IsDistinct warehouses
      → backordered_of pid plan.backorders
        ≡ requested_of pid lines - stock_of av pid (active_of warehouses)
  unfolding calculate_fulfillment_plan
  plan_backorder pid d = rw (← requested_of-valid_lines pid lines) (
      plan_cases
        (λ r.
          backordered_of pid r.backorders
          ≡ requested_of pid (valid_lines lines) - stock_of av pid (active_of warehouses))
        (valid_lines lines) (active_of warehouses) av force (λ e. rw e (omega arith))
        (λ e. rw e (omega (arith, all_backordered pid (valid_lines lines))))
        (unfold plan_over in
          allocate_lines_backorder pid (valid_lines lines) chosen (initial_stock av)
            (chosen-IsDistinct d)
          ∙ chosen_stock pid))
