-- ===== src/Fulfillment/Greedy.antt =====
-- The greedy loop: it ends before its fuel does, takes each warehouse once, and stops only when
-- nothing in demand is left in the pool.
use native.Mathlib.Nat.{le_trans}
use text.Mathlib.TextPositions.{eq_refl}
use chumma.Base.{
  sum_of-append, ==_iff, subst, ◌++◌, ◌==◌, zero, suc, ◌-◌, false, length, All, ◌≤◌, ◌<◌,
  if◌then◌else◌, ℕ, ◌+◌, ◌≡◌, refl, inl, inr, Bool, true, List, [], ◌∷◌, arith, ==_refl, Bool-cases,
  any, sum_of,
}
use chumma.Base.Int.{ℤ, eqb_ℤ}
use chumma.Base.Decimal.{Decimal, eq_dec}
use chumma.Base.Sort.{max_from}
use chumma.Fulfillment.{get_avail, Availability, WarehouseInfo, same_warehouse}
use chumma.Fulfillment.Select.{
  has_remaining, stock_of, take_from, greedy_loop, gain_lt, coverage_gain, Demand, remove_first,
}
use chumma.Fulfillment.Demand.{has_remaining-false, demand_at}

eq_dec_refl : (a : Decimal) → eq_dec a a ≡ true
unfolding eq_dec
eq_dec_refl a = ==_refl _

eqb_ℤ_refl : (a : ℤ) → eqb_ℤ a a ≡ true
eqb_ℤ_refl a = ==_refl _

same_warehouse_refl : (w : WarehouseInfo) → same_warehouse w w ≡ true
unfolding same_warehouse
same_warehouse_refl w =
    rw (==_refl, eq_refl w.name, eq_dec_refl w.shipping_cost_weight, eqb_ℤ_refl w.priority)
      (ground arith)

same_warehouse_id :
    (v w : WarehouseInfo) → same_warehouse v w ≡ true → v.warehouse_id ≡ w.warehouse_id
unfolding same_warehouse
same_warehouse_id v w h = ground arith

abbrev has : WarehouseInfo → List WarehouseInfo → Bool
has w = any (λ v. same_warehouse v w)

has_skip :
    (c : Bool) (m b x : WarehouseInfo) (xs : List WarehouseInfo)
    → has m ((if c then x else b) ∷ xs) ≡ true
    → has m (b ∷ x ∷ xs) ≡ true
has_skip true m b x xs h = ground arith
has_skip false m b x xs h = ground arith

has-max_from :
    (lt : WarehouseInfo → WarehouseInfo → Bool) (b : WarehouseInfo) (xs : List WarehouseInfo)
    → has (max_from lt b xs) (b ∷ xs) ≡ true
unfolding max_from
has-max_from lt b [] = rw (same_warehouse_refl b) refl
has-max_from lt b (x ∷ xs) =
    has_skip (lt b x) _ b x xs (has-max_from lt (if lt b x then x else b) xs)

sum_of-remove_first :
    (g : ℕ → ℕ) (b : WarehouseInfo) (xs : List WarehouseInfo)
    → has b xs ≡ true
    → sum_of (λ w. g w.warehouse_id) (remove_first b xs) + g b.warehouse_id
      ≡ sum_of (λ w. g w.warehouse_id) xs
unfolding remove_first
sum_of-remove_first g b [] h = cc
sum_of-remove_first g b (x ∷ xs) h = elim (Bool-cases (same_warehouse x b)) [
  | inl e ↦ rw (e, ← same_warehouse_id x b e) (omega arith)
  | inr e ↦
      let tail : has b xs ≡ true = rw e at h in
      rw e (omega (arith, sum_of-remove_first g b xs tail))
]

length-remove_first :
    (b : WarehouseInfo) (xs : List WarehouseInfo)
    → has b xs ≡ true
    → length (remove_first b xs) + 1 ≡ length xs
unfolding remove_first
length-remove_first b [] h = cc
length-remove_first b (x ∷ xs) h = ground (arith, length-remove_first b xs)

module _ (av : Availability) where
  gain_step :
      (d : Demand) (b x : WarehouseInfo)
      → let next = coverage_gain av d (if gain_lt av d b x then x else b) in
        (coverage_gain av d b ≤ next) × (coverage_gain av d x ≤ next)
  unfolding gain_lt
  gain_step d b x = ground arith

  -- The greatest by the key has the greatest gain.
  gain-max_from :
      (d : Demand) (b : WarehouseInfo) (xs : List WarehouseInfo)
      → let top = coverage_gain av d (max_from (gain_lt av d) b xs) in
        (coverage_gain av d b ≤ top) × All (λ w. coverage_gain av d w ≤ top) xs
  unfolding max_from
  gain-max_from d b [] = (omega arith, tt)
  gain-max_from d b (x ∷ xs) =
      let (now, new) = gain_step d b x in
      let (up, rest) = gain-max_from d (if gain_lt av d b x then x else b) xs in
      (le_trans now up, (le_trans new up, rest))

  demand_at-take_from :
      (p : ℕ) (w : WarehouseInfo) (d : Demand)
      → demand_at p (take_from av w d) ≡ demand_at p d - get_avail av w.warehouse_id p
  demand_at-take_from p w [] = omega arith
  demand_at-take_from p w ((r, m) ∷ rest) = ground (arith, demand_at-take_from p w rest)

  -- Where nothing is gained, a product still in demand is not in stock.
  no_gain :
      (p : ℕ) (w : WarehouseInfo) (d : Demand)
      → coverage_gain av d w ≡ 0
      → 0 < demand_at p d
      → get_avail av w.warehouse_id p ≡ 0
  no_gain p w [] h pos = absurd (omega arith)
  no_gain p w ((r, m) ∷ rest) h pos = ground (arith, no_gain p w rest)

  abbrev AtGain : Demand → ℕ → WarehouseInfo → Type 0
  AtGain d n w = coverage_gain av d w ≤ n

  no_gain_pool :
      (p n : ℕ) (d : Demand) (ws : List WarehouseInfo)
      → n ≡ 0
      → All (AtGain d n) ws
      → 0 < demand_at p d
      → stock_of av p ws ≡ 0
  no_gain_pool p n d [] e h pos = refl
  no_gain_pool p n d (w ∷ ws) e h pos =
      omega (arith, no_gain p w d (omega arith) pos, no_gain_pool p n d ws e h.1 pos)

  -- The state of the loop: what remains of a product is its demand less the stock selected.
  abbrev pub Tracks : ℕ → Demand → Demand → List WarehouseInfo → Type 0
  Tracks p total remaining selected =
      demand_at p remaining ≡ demand_at p total - stock_of av p selected

  -- At the end what the selected warehouses lack, they and the pool together lack too.
  abbrev pub Enough : ℕ → Demand → List WarehouseInfo → ℕ → Type 0
  Enough p total chosen stock = demand_at p total - stock_of av p chosen ≡ demand_at p total - stock

  -- One round, by how it ends.
  module _ (f : ℕ) (remaining : Demand) (w : WarehouseInfo) (ws selected : List WarehouseInfo) where
    abbrev best_of : WarehouseInfo
    best_of = max_from (gain_lt av remaining) w ws

    round_done :
        has_remaining remaining ≡ false
        → selected ≡ greedy_loop av (suc f) remaining (w ∷ ws) selected
    unfolding greedy_loop
    round_done e = rw e

    round_no_gain :
        (coverage_gain av remaining best_of == 0) ≡ true
        → selected ≡ greedy_loop av (suc f) remaining (w ∷ ws) selected
    unfolding greedy_loop
    round_no_gain e = rw e (ground arith)

    round_next :
        has_remaining remaining ≡ true
        → (coverage_gain av remaining best_of == 0) ≡ false
        → greedy_loop av f
            (take_from av best_of remaining)
            (remove_first best_of (w ∷ ws))
            (selected ++ best_of ∷ [])
          ≡ greedy_loop av (suc f) remaining (w ∷ ws) selected
    unfolding greedy_loop
    round_next e e' = rw (e, e')

  pub greedy_loop-Enough :
      (p : ℕ) (f : ℕ) (total remaining : Demand) (pool selected : List WarehouseInfo)
      → length pool ≤ f
      → Tracks p total remaining selected
      → Enough p total
          (greedy_loop av f remaining pool selected)
          (stock_of av p selected + stock_of av p pool)
  greedy_loop-Enough p zero total remaining [] selected h t = unfold greedy_loop in omega arith
  greedy_loop-Enough p zero total remaining (w ∷ ws) selected h t = absurd (omega arith)
  greedy_loop-Enough p (suc f) total remaining [] selected h t = unfold greedy_loop in omega arith
  greedy_loop-Enough p (suc f) total remaining (w ∷ ws) selected h t =
      let best = best_of f remaining w ws selected in
      let pool = w ∷ ws in
      let stock = stock_of av p selected + stock_of av p pool in
      let in_pool = has-max_from (gain_lt av remaining) w ws in
      let goal = λ (c : List WarehouseInfo). Enough p total c stock in
      elim (Bool-cases (has_remaining remaining)) [
        | inr e ↦
            subst goal (round_done f remaining w ws selected e)
              (omega (arith, has_remaining-false p remaining e))
        | inl e ↦ elim (Bool-cases (coverage_gain av remaining best == 0)) [
          | inl e' ↦ subst goal (round_no_gain f remaining w ws selected e') (
              let none_left =
                no_gain_pool p (coverage_gain av remaining best) remaining pool ((==_iff _ _).0 e')
                  (gain-max_from remaining w ws) in
              ground (arith, none_left))
          | inr e' ↦ subst goal (round_next f remaining w ws selected e e') (
              let at_best = sum_of-remove_first (λ i. get_avail av i p) best pool in_pool in
              let shorter = length-remove_first best pool in_pool in
              let grown =
                sum_of-append (λ (v : WarehouseInfo). get_avail av v.warehouse_id p) selected
                  (best ∷ []) in
              omega (
                arith,
                at_best,
                grown,
                greedy_loop-Enough p f total (take_from av best remaining) (remove_first best pool)
                    (selected ++ best ∷ []) (omega (arith, shorter))
                    (omega (arith, grown, demand_at-take_from p best remaining)),
              ))
        ]
      ]

  -- The selected warehouses come from the pool, each at most once.
  pub greedy_loop_part :
      (g : ℕ → ℕ) (f : ℕ) (remaining : Demand) (pool selected : List WarehouseInfo)
      → sum_of (λ v. g v.warehouse_id) (greedy_loop av f remaining pool selected)
        ≤ sum_of (λ v. g v.warehouse_id) selected + sum_of (λ v. g v.warehouse_id) pool
  greedy_loop_part g zero remaining pool selected = unfold greedy_loop in omega arith
  greedy_loop_part g (suc f) remaining [] selected = unfold greedy_loop in omega arith
  greedy_loop_part g (suc f) remaining (w ∷ ws) selected =
      let total = λ (c : List WarehouseInfo). sum_of (λ v. g v.warehouse_id) c in
      let best = best_of f remaining w ws selected in
      let goal = λ (c : List WarehouseInfo). total c ≤ total selected + total (w ∷ ws) in
      elim (Bool-cases (has_remaining remaining)) [
        | inr e ↦ subst goal (round_done f remaining w ws selected e) (omega arith)
        | inl e ↦ elim (Bool-cases (coverage_gain av remaining best == 0)) [
          | inl e' ↦ subst goal (round_no_gain f remaining w ws selected e') (omega arith)
          | inr e' ↦ subst goal (round_next f remaining w ws selected e e') (
              omega (
                arith,
                sum_of-remove_first g best (w ∷ ws) (has-max_from (gain_lt av remaining) w ws),
                sum_of-append (λ (v : WarehouseInfo). g v.warehouse_id) selected (best ∷ []),
                greedy_loop_part g f (take_from av best remaining) (remove_first best (w ∷ ws))
                    (selected ++ best ∷ []),
              ))
        ]
      ]
