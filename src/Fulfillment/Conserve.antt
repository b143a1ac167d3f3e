-- ===== src/Fulfillment/Conserve.antt =====
-- The allocation loop neither creates nor loses quantity: what a line asks for is allocated or
-- backordered, and no warehouse gives more of a product than it has.
use Prim.Native.Nat.{min}
use chumma.Base.{
  ltb, ℕ, ◌+◌, ◌-◌, ◌≡◌, inl, inr, Bool, false, ◌&&◌, none, some, List, [], ◌∷◌, arith, ◌==◌,
  if◌then◌else◌, Bool-cases, sum_of, sum_of-append,
}
use chumma.Fulfillment.{StockableLine, WarehouseInfo, PlanAllocation, qty}
use chumma.Fulfillment.Allocate.{
  backorder, allocate_lines, Stock, allocate_line, taken, entry, stock_after,
}

-- What is allocated of a product at a warehouse.
abbrev at_place : ℕ → ℕ → PlanAllocation → Bool
at_place wid pid a = elim a.warehouse_id [
  | none ↦ false
  | some i ↦ (i == wid) && (a.product_id == pid)
]

abbrev pub allocated_at : ℕ → ℕ → List PlanAllocation → ℕ
allocated_at wid pid = sum_of (λ a. if at_place wid pid a then a.allocated_qty else 0)

-- What is allocated, and what is backordered, of a product.
abbrev pub allocated_of : ℕ → List PlanAllocation → ℕ
allocated_of pid = sum_of (λ a. if a.product_id == pid then a.allocated_qty else 0)

abbrev pub backordered_of : ℕ → List PlanAllocation → ℕ
backordered_of pid = sum_of (λ a. if a.product_id == pid then a.backorder_qty else 0)

-- What the lines request of a product.
abbrev pub requested_of : ℕ → List StockableLine → ℕ
requested_of pid = sum_of (λ l. if l.product_id == pid then qty l else 0)

pub taken-eq-min : (here needed : ℕ) → taken here needed ≡ min needed here
unfolding taken
taken-eq-min here needed = ground arith

entry_stock :
    (wid pid : ℕ) (l : StockableLine) (w : WarehouseInfo) (cur : Stock) (needed : ℕ)
    → allocated_at wid pid (entry l w (cur w.warehouse_id l.product_id) needed)
        + stock_after l w cur needed wid pid
      ≡ cur wid pid
unfolding entry stock_after taken
entry_stock wid pid l w cur needed = ground arith

entry_allocated :
    (pid : ℕ) (l : StockableLine) (w : WarehouseInfo) (here needed : ℕ)
    → allocated_of pid (entry l w here needed)
      ≡ (if l.product_id == pid then taken here needed else 0)
unfolding entry taken
entry_allocated pid l w here needed = ground arith

pub allocate_line_stock :
    (wid pid : ℕ) (l : StockableLine) (ws : List WarehouseInfo) (cur : Stock) (needed : ℕ)
    → let (allocs, left, _) = allocate_line l ws cur needed in
      allocated_at wid pid allocs + left wid pid ≡ cur wid pid
unfolding allocate_line
allocate_line_stock wid pid l [] cur needed = omega arith
allocate_line_stock wid pid l (w ∷ ws) cur needed =
    let here = cur w.warehouse_id l.product_id in
    let still = needed - taken here needed in
    elim (Bool-cases (still == 0)) [
      | inl e ↦ rw e (entry_stock wid pid l w cur needed)
      | inr e ↦
          rw (e, sum_of-append)
            (omega (
              arith,
              entry_stock wid pid l w cur needed,
              allocate_line_stock wid pid l ws (stock_after l w cur needed) still,
            ))
    ]

pub allocate_line_quantity :
    (pid : ℕ) (l : StockableLine) (ws : List WarehouseInfo) (cur : Stock) (needed : ℕ)
    → let (allocs, _, missing) = allocate_line l ws cur needed in
      allocated_of pid allocs + (if l.product_id == pid then missing else 0)
      ≡ (if l.product_id == pid then needed else 0)
unfolding allocate_line
allocate_line_quantity pid l [] cur needed = omega arith
allocate_line_quantity pid l (w ∷ ws) cur needed =
    let here = cur w.warehouse_id l.product_id in
    let still = needed - taken here needed in
    elim (Bool-cases (still == 0)) [
      | inl e ↦ rw e (ground (arith, entry_allocated pid l w here needed, taken-eq-min here needed))
      | inr e ↦
          rw (e, sum_of-append)
            (ground (
              arith,
              entry_allocated pid l w here needed,
              taken-eq-min here needed,
              allocate_line_quantity pid l ws (stock_after l w cur needed) still,
            ))
    ]

-- What the outer loop adds for a line that still needs something.
pub missing_backordered :
    (pid : ℕ) (l : StockableLine) (n : ℕ)
    → backordered_of pid (if ltb 0 n then backorder l n ∷ [] else [])
      ≡ (if l.product_id == pid then n else 0)
missing_backordered pid l n = ground arith

pub allocate_lines_stock :
    (wid pid : ℕ) (ls : List StockableLine) (ws : List WarehouseInfo) (cur : Stock)
    → let (allocs, _, left) = allocate_lines ls ws cur in
      allocated_at wid pid allocs + left wid pid ≡ cur wid pid
unfolding allocate_lines
allocate_lines_stock wid pid [] ws cur = omega arith
allocate_lines_stock wid pid (l ∷ ls) ws cur = rw sum_of-append (
    omega (
      arith,
      allocate_line_stock wid pid l ws cur (qty l),
      allocate_lines_stock wid pid ls ws (allocate_line l ws cur (qty l)).1,
    ))

pub allocate_lines_quantity :
    (pid : ℕ) (ls : List StockableLine) (ws : List WarehouseInfo) (cur : Stock)
    → let (allocs, backs, _) = allocate_lines ls ws cur in
      allocated_of pid allocs + backordered_of pid backs ≡ requested_of pid ls
unfolding allocate_lines
allocate_lines_quantity pid [] ws cur = omega arith
allocate_lines_quantity pid (l ∷ ls) ws cur =
    let (allocs, left, needed) = allocate_line l ws cur (qty l) in
    rw (sum_of-append, sum_of-append)
      (omega (
        arith,
        allocate_line_quantity pid l ws cur (qty l),
        missing_backordered pid l needed,
        allocate_lines_quantity pid ls ws left,
      ))
