-- ===== src/Fulfillment/Coverage.antt =====
-- The allocation loop backorders no more than it must: what a product lacks is its demand less the
-- stock of the warehouses that the loop was given, if these have different identifiers.
use chumma.Base.{
  ◌++◌, true, false, ℕ, ◌+◌, ◌-◌, ◌≤◌, ◌<◌, ◌≡◌, refl, ◌∙◌, ◌≢◌, inl, inr, List, [], ◌∷◌, arith,
  ◌==◌, if◌then◌else◌, Bool-cases, sum_of, sum_of-append,
}
use mathlib.Core.Path.{subst}
use chumma.Fulfillment.{PlanAllocation, StockableLine, WarehouseInfo, qty}
use chumma.Fulfillment.Allocate.{entry, Stock, allocate_line, allocate_lines, taken, stock_after}
use chumma.Fulfillment.Conserve.{requested_of, backordered_of, taken-eq-min, missing_backordered}

abbrev pub count_id : ℕ → List WarehouseInfo → ℕ
count_id i = sum_of (λ w. if w.warehouse_id == i then 1 else 0)

-- No two warehouses share an identifier.
abbrev pub IsDistinct : List WarehouseInfo → Type 0
IsDistinct ws = (i : ℕ) → count_id i ws ≤ 1

-- The stock of a product that is left in some warehouses.
abbrev pub stock_left : Stock → ℕ → List WarehouseInfo → ℕ
stock_left cur pid = sum_of (λ w. cur w.warehouse_id pid)

IsDistinct-tail :
    (w : WarehouseInfo) (ws : List WarehouseInfo) → IsDistinct (w ∷ ws) → IsDistinct ws
IsDistinct-tail w ws h i = omega (arith, h i)

distinct_head :
    (w : WarehouseInfo) (ws : List WarehouseInfo)
    → IsDistinct (w ∷ ws)
    → count_id w.warehouse_id ws ≡ 0
distinct_head w ws h = ground (arith, h w.warehouse_id)

stock_after_self :
    (l : StockableLine) (w : WarehouseInfo) (cur : Stock) (needed pid : ℕ)
    → stock_after l w cur needed w.warehouse_id pid
      ≡ cur w.warehouse_id pid
        - (if l.product_id == pid then taken (cur w.warehouse_id l.product_id) needed else 0)
unfolding stock_after taken
stock_after_self l w cur needed pid = ground arith

stock_after_ne :
    (l : StockableLine) (w : WarehouseInfo) (cur : Stock) (needed i pid : ℕ)
    → w.warehouse_id ≢ i
    → stock_after l w cur needed i pid ≡ cur i pid
unfolding stock_after
stock_after_ne l w cur needed i pid h = ground arith

stock_left-stock_after :
    (l : StockableLine) (w : WarehouseInfo) (cur : Stock) (needed pid : ℕ) (ws : List WarehouseInfo)
    → count_id w.warehouse_id ws ≡ 0
    → stock_left (stock_after l w cur needed) pid ws ≡ stock_left cur pid ws
stock_left-stock_after l w cur needed pid [] h = refl
stock_left-stock_after l w cur needed pid (v ∷ ws) h = ground (
  arith,
  stock_after_ne l w cur needed v.warehouse_id pid,
  stock_left-stock_after l w cur needed pid ws,
)

-- The inner loop leaves a warehouse alone that it does not visit.
allocate_line_untouched :
    (i pid : ℕ) (l : StockableLine) (ws : List WarehouseInfo) (cur : Stock) (needed : ℕ)
    → count_id i ws ≡ 0
    → (allocate_line l ws cur needed).1 i pid ≡ cur i pid
unfolding allocate_line
allocate_line_untouched i pid l [] cur needed h = refl
allocate_line_untouched i pid l (w ∷ ws) cur needed h =
    let here = cur w.warehouse_id l.product_id in
    let still = needed - taken here needed in
    let same : stock_after l w cur needed i pid ≡ cur i pid =
      stock_after_ne l w cur needed i pid (ground arith) in
    elim (Bool-cases (still == 0)) [
      | inl e ↦ rw e same
      | inr e ↦ rw e (
          allocate_line_untouched i pid l ws (stock_after l w cur needed) still (ground arith)
          ∙ same)
    ]

-- What the inner loop does to the stock of its own product, and of any other.
abbrev LineDone :
    ℕ → StockableLine → List WarehouseInfo → Stock → ℕ → List PlanAllocation × Stock × ℕ → Type 0
LineDone pid l ws cur needed (_, left, missing) =
    (stock_left left pid ws + (if l.product_id == pid then needed - missing else 0)
      ≡ stock_left cur pid ws)
    × (missing ≤ needed)
    × (l.product_id ≡ pid → 0 < missing → stock_left left pid ws ≡ 0)

-- One round, by whether it is the last.
last_round :
    (l : StockableLine) (w : WarehouseInfo) (ws : List WarehouseInfo) (cur : Stock) (needed : ℕ)
    → let here = cur w.warehouse_id l.product_id in
      let still = needed - taken here needed in
      (still == 0) ≡ true
      → (entry l w here needed, stock_after l w cur needed, still)
        ≡ allocate_line l (w ∷ ws) cur needed
unfolding allocate_line
last_round l w ws cur needed e = rw e

next_round :
    (l : StockableLine) (w : WarehouseInfo) (ws : List WarehouseInfo) (cur : Stock) (needed : ℕ)
    → let here = cur w.warehouse_id l.product_id in
      let still = needed - taken here needed in
      (still == 0) ≡ false
      → let rest = allocate_line l ws (stock_after l w cur needed) still in
        (entry l w here needed ++ rest.0, rest.1, rest.2) ≡ allocate_line l (w ∷ ws) cur needed
unfolding allocate_line
next_round l w ws cur needed e = rw e

allocate_line_done :
    (pid : ℕ) (l : StockableLine) (ws : List WarehouseInfo) (cur : Stock) (needed : ℕ)
    → IsDistinct ws
    → LineDone pid l ws cur needed (allocate_line l ws cur needed)
allocate_line_done pid l [] cur needed d = unfold allocate_line in ground arith
allocate_line_done pid l (w ∷ ws) cur needed d =
    let here = cur w.warehouse_id l.product_id in
    let next = stock_after l w cur needed in
    let still = needed - taken here needed in
    let alone = distinct_head w ws d in
    let same = stock_left-stock_after l w cur needed pid ws alone in
    elim (Bool-cases (still == 0)) [
      | inl e ↦
          subst (LineDone pid l (w ∷ ws) cur needed) (last_round l w ws cur needed e)
            (ground (arith, taken-eq-min here needed, stock_after_self l w cur needed pid, same))
      | inr e ↦ subst (LineDone pid l (w ∷ ws) cur needed) (next_round l w ws cur needed e) (
          ground (
            arith,
            taken-eq-min here needed,
            stock_after_self l w cur needed pid,
            same,
            allocate_line_untouched w.warehouse_id pid l ws next still alone,
            allocate_line_done pid l ws next still (IsDistinct-tail w ws d),
          ))
    ]

-- What is backordered of a product is its demand less the stock.
pub allocate_lines_backorder :
    (pid : ℕ) (ls : List StockableLine) (ws : List WarehouseInfo) (cur : Stock)
    → IsDistinct ws
    → backordered_of pid (allocate_lines ls ws cur).1 ≡ requested_of pid ls - stock_left cur pid ws
unfolding allocate_lines
allocate_lines_backorder pid [] ws cur d = omega arith
allocate_lines_backorder pid (l ∷ ls) ws cur d =
    let (allocs, left, missing) = allocate_line l ws cur (qty l) in
    rw sum_of-append (
      ground (
        arith,
        allocate_line_done pid l ws cur (qty l) d,
        missing_backordered pid l missing,
        allocate_lines_backorder pid ls ws left d,
      ))
