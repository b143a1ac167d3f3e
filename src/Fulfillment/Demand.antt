-- ===== src/Fulfillment/Demand.antt =====
-- The demand of each product, and what it means that warehouses cover it.
use chumma.Base.{
  ℕ, ◌+◌, ◌≤◌, ◌<◌, ◌≡◌, refl, inl, inr, true, false, List, [], ◌∷◌, arith, ltb, ◌==◌,
  if◌then◌else◌, Bool-cases, any,
}
use chumma.Fulfillment.{
  StockableLine, WarehouseInfo, Availability, get_avail, qty, add_demand, demand_from,
}
use chumma.Fulfillment.Select.{Demand, stock_of, covers, covers_alone, has_remaining, relevant}
use chumma.Fulfillment.Conserve.{requested_of}

-- The entry of a product, 0 where it has none.
abbrev pub demand_at : ℕ → Demand → ℕ
demand_at p [] = 0
demand_at p ((r, d) ∷ rest) = if r == p then d else demand_at p rest

demand_at-add_demand :
    (p q n : ℕ) (d : Demand)
    → demand_at p (add_demand q n d) ≡ demand_at p d + (if q == p then n else 0)
unfolding add_demand
demand_at-add_demand p q n [] = ground arith
demand_at-add_demand p q n ((r, m) ∷ rest) = ground (arith, demand_at-add_demand p q n rest)

demand_at-demand_from :
    (p : ℕ) (acc : Demand) (ls : List StockableLine)
    → demand_at p (demand_from acc ls) ≡ demand_at p acc + requested_of p ls
unfolding demand_from
demand_at-demand_from p acc [] = omega arith
demand_at-demand_from p acc (l ∷ ls) = omega (
  arith,
  demand_at-demand_from p (add_demand l.product_id (qty l) acc) ls,
  demand_at-add_demand p l.product_id (qty l) acc,
)

-- The dictionary `total_demand` holds what the lines request.
pub demand_at-total :
    (p : ℕ) (ls : List StockableLine) → demand_at p (demand_from [] ls) ≡ requested_of p ls
demand_at-total p ls = omega (arith, demand_at-demand_from p [] ls)

pub has_remaining-false : (p : ℕ) (d : Demand) → has_remaining d ≡ false → demand_at p d ≡ 0
has_remaining-false p [] h = refl
has_remaining-false p ((r, m) ∷ rest) h = ground (arith, has_remaining-false p rest)

module _ (av : Availability) where
  pub covers_le :
      (p : ℕ) (total : Demand) (s : List WarehouseInfo)
      → covers av total s ≡ true
      → demand_at p total ≤ stock_of av p s
  covers_le p [] s h = omega arith
  covers_le p ((r, m) ∷ rest) s h = ground (arith, covers_le p rest s)

  pub covers_alone_le :
      (p : ℕ) (total : Demand) (w : WarehouseInfo)
      → covers_alone av total w ≡ true
      → demand_at p total ≤ get_avail av w.warehouse_id p
  covers_alone_le p [] w h = omega arith
  covers_alone_le p ((r, m) ∷ rest) w h = ground (arith, covers_alone_le p rest w)

  -- A warehouse that holds none of the demand has no stock of a product in demand.
  irrelevant :
      (p : ℕ) (total : Demand) (w : WarehouseInfo)
      → any (λ (e : ℕ × ℕ). ltb 0 (get_avail av w.warehouse_id e.0)) total ≡ false
      → 0 < demand_at p total
      → get_avail av w.warehouse_id p ≡ 0
  irrelevant p [] w h pos = absurd (omega arith)
  irrelevant p ((r, m) ∷ rest) w h pos = ground (arith, irrelevant p rest w)

  pub relevant_stock :
      (p : ℕ) (total : Demand) (ws : List WarehouseInfo)
      → 0 < demand_at p total
      → stock_of av p (relevant av ws total) ≡ stock_of av p ws
  relevant_stock p total [] h = refl
  relevant_stock p total (w ∷ ws) h =
      elim (Bool-cases (any (λ (e : ℕ × ℕ). ltb 0 (get_avail av w.warehouse_id e.0)) total)) [
        | inl e ↦ rw e (omega (arith, relevant_stock p total ws h))
        | inr e ↦ rw e (omega (arith, relevant_stock p total ws h, irrelevant p total w e h))
      ]
