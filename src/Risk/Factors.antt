-- ===== src/Risk/Factors.antt =====
-- The factors that app/guardian/risk.py finds.
use chumma.Base.{
  ℕ, ◌-◌, Option, none, some, List, [], ◌∷◌, ◌++◌, map, ◌==◌, if◌then◌else◌, length, keep_if,
}
use chumma.Base.Int.{negsuc, ltb_ℤ}
use chumma.Base.Decimal.{
  Decimal, dec, ◌+ᵈ◌, ◌-ᵈ◌, ◌*ᵈ◌, ◌/ᵈ◌, lt_dec, eq_dec, min_dec, max_dec, sum_from, quantize_dec,
  of_ℕ,
}
use chumma.Enums.{RiskFactorType}
use chumma.Context.{DealLine, is_stockable, int_of}
use chumma.Risk.{
  weighted_overage, is_over, Source, discount_excess, RiskFactor, RiskSettings, LineOverage,
}

-- The variables of the loop over the violating lines.
pub record Shares : Type 0 where
  pub accum_contrib : Decimal
  pub highest_overage : Decimal
  pub max_line_entry : Option ℕ
  pub factors : List RiskFactor

module _ (s : RiskSettings) (excess sum_overage_weight : Decimal) (count : ℕ) where
  abbrev share_of : LineOverage → Decimal
  share_of o =
      if lt_dec (dec 0 0) sum_overage_weight
      then (o.overage *ᵈ o.weight) /ᵈ sum_overage_weight
      else dec 10 1 /ᵈ of_ℕ count

  abbrev pub add_share : LineOverage → Shares → Shares
  add_share o v =
      let contrib = quantize_dec (excess *ᵈ share_of o) 2 in
      let highest = lt_dec v.highest_overage o.overage in
      record {
        accum_contrib = v.accum_contrib +ᵈ contrib;
        highest_overage = if highest then o.overage else v.highest_overage;
        max_line_entry = if highest then some (length v.factors) else v.max_line_entry;
        factors =
            v.factors
            ++ record {
              factor_type = RiskFactorType.discount_excess;
              source_reference = Source.line o.line_id;
              raw_value = o.overage;
              weight = s.w_discount_max;
              contribution = contrib;
            }
              ∷ [];
      }

  unfoldable pub add_shares : List LineOverage → Shares → Shares
  add_shares [] v = v
  add_shares (o ∷ os) v = add_shares os (add_share o v)

-- `factors[i].contribution += diff`
unfoldable pub add_at : ℕ → Decimal → List RiskFactor → List RiskFactor
add_at i diff [] = []
add_at i diff (f ∷ fs) =
    if i == 0
    then record f { contribution = f.contribution +ᵈ diff } ∷ fs
    else f ∷ add_at (i - 1) diff fs

-- The rounding discrepancy goes onto the line with the highest overage.
unfoldable pub settle : Decimal → Shares → List RiskFactor
settle excess v =
    let diff = excess -ᵈ v.accum_contrib in
    if eq_dec diff (dec 0 0)
    then v.factors
    else elim v.max_line_entry [ none ↦ v.factors | some i ↦ add_at i diff v.factors ]

unfoldable pub discount_factors : RiskSettings → List LineOverage → List RiskFactor
discount_factors s os =
    let excess = discount_excess s os in
    let violating = keep_if is_over os in
    if lt_dec (dec 0 0) excess
    then settle excess (
        add_shares s excess (weighted_overage violating) (length violating) violating (record {
          accum_contrib = dec 0 2;
          highest_overage = record { coeff = negsuc 9; places = 1 };
          max_line_entry = none;
          factors = [];
        }))
    else []

-- The margin of the whole deal at the effective discounts, in percent.
unfoldable pub deal_margin_pct : List LineOverage → Decimal
deal_margin_pct os =
    let net =
      sum_from (dec 0 0) (map (λ o. o.list_amt *ᵈ (dec 1 0 -ᵈ o.effective /ᵈ dec 100 0)) os) in
    let cost = sum_from (dec 0 0) (map (λ o. o.cost_subtotal) os) in
    quantize_dec (if lt_dec (dec 0 0) net then (net -ᵈ cost) /ᵈ net *ᵈ dec 100 0 else dec 0 2) 2

unfoldable pub margin_factors : RiskSettings → Decimal → List RiskFactor
margin_factors s margin_pct =
    let gap = s.minimum_margin_pct -ᵈ margin_pct in
    if lt_dec margin_pct s.minimum_margin_pct
    then record {
      factor_type = RiskFactorType.margin_exposure;
      source_reference = Source.margin;
      raw_value = gap;
      weight = s.w_margin;
      contribution = min_dec s.margin_cap (quantize_dec (s.w_margin *ᵈ gap) 2);
    }
      ∷ []
    else []

-- The points of the lines so far and of one line more.
abbrev pub line_points : RiskSettings → DealLine → Decimal → Decimal
line_points s l points =
    if is_stockable l.product_type
    then (if ltb_ℤ l.available_qty (int_of l.qty)
        then max_dec points s.inv_backorder_points
        else if l.inventory_shortage
        then max_dec points s.inv_split_points
        else points)
    else points

unfoldable pub inventory_points : RiskSettings → Decimal → List DealLine → Decimal
inventory_points s points [] = points
inventory_points s points (l ∷ ls) = inventory_points s (line_points s l points) ls

unfoldable pub inventory_factors : RiskSettings → List DealLine → List RiskFactor
inventory_factors s ls =
    let points = min_dec s.inv_cap (inventory_points s (dec 0 2) ls) in
    if lt_dec (dec 0 0) points
    then record {
      factor_type = RiskFactorType.inventory_risk;
      source_reference = Source.inventory;
      raw_value = points;
      weight = dec 10 1;
      contribution = points;
    }
      ∷ []
    else []

abbrev pub negotiation_factors : RiskSettings → List RiskFactor
negotiation_factors s =
    if s.has_open_negotiation_counter
    then record {
      factor_type = RiskFactorType.negotiation_pressure;
      source_reference = Source.counter;
      raw_value = dec 10 1;
      weight = dec 50 1;
      contribution = dec 500 2;
    }
      ∷ []
    else []
