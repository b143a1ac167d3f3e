-- ===== src/Risk.antt =====
-- app/guardian/risk.py: the risk score of a deal and the approval that it requires. The texts and
-- the `detail` of the factors are left out. This file has the data and the
-- overages; `Factors` the factors and `Score` the whole function.
pub mod Factors
pub mod Score
pub mod Overages
pub mod Levels
pub mod Shares
pub mod Ceilings
use chumma.Base.{ℕ, Bool, false, none, some, List, [], ◌∷◌, map, if◌then◌else◌, length, keep_if}
use chumma.Base.Decimal.{
  Decimal, dec, ◌+ᵈ◌, ◌-ᵈ◌, ◌*ᵈ◌, ◌/ᵈ◌, lt_dec, min_dec, max_dec, sum_from, quantize_dec, of_ℕ,
}
use chumma.Base.Sort.{max_from}
use chumma.Enums.{ApprovalLevel, RiskFactorType, RiskSeverity}
use chumma.Context.{DealLine, DealContext, lookup}

-- `source_reference`
pub data Source : Type 0 where
  line : ℕ → Source
  margin inventory counter : Source

pub record RiskFactor : Type 0 where
  pub factor_type : RiskFactorType
  pub source_reference : Source
  pub raw_value : Decimal
  pub weight : Decimal
  pub contribution : Decimal

-- The texts AUTO_APPROVED, MANAGER_APPROVAL_REQUIRED and FINANCE_APPROVAL_REQUIRED.
pub data Decision : Type 0 where
  auto_approved manager_required finance_required : Decision

pub record RiskCalculationResult : Type 0 where
  pub risk_score : Decimal
  pub severity : RiskSeverity
  pub required_level : ApprovalLevel
  pub decision : Decision
  pub factors : List RiskFactor
  pub max_overage : Decimal
  pub weighted_overage : Decimal
  pub violation_ratio : Decimal
  pub margin_pct : Decimal
  pub minimum_margin_pct : Decimal

-- The parameters of `calculate_deal_risk` after the ceilings.
pub record RiskSettings : Type 0 where
  pub minimum_margin_pct : Decimal
  pub manager_threshold : Decimal
  pub finance_threshold : Decimal
  pub single_line_finance_pts : Decimal
  pub w_discount_max : Decimal
  pub w_discount_weighted : Decimal
  pub w_discount_ratio : Decimal
  pub discount_cap : Decimal
  pub w_margin : Decimal
  pub margin_cap : Decimal
  pub inv_split_points : Decimal
  pub inv_backorder_points : Decimal
  pub inv_cap : Decimal
  pub has_open_negotiation_counter : Bool

-- Their defaults.
abbrev pub default_settings : RiskSettings
default_settings = record {
  minimum_margin_pct = dec 2000 2;
  manager_threshold = dec 2000 2;
  finance_threshold = dec 5000 2;
  single_line_finance_pts = dec 1000 2;
  w_discount_max = dec 50 1;
  w_discount_weighted = dec 20 1;
  w_discount_ratio = dec 100 1;
  discount_cap = dec 600 1;
  w_margin = dec 30 1;
  margin_cap = dec 250 1;
  inv_split_points = dec 80 1;
  inv_backorder_points = dec 200 1;
  inv_cap = dec 200 1;
  has_open_negotiation_counter = false;
}

-- An entry of `line_overages`, with the fields of `line` that are read later.
pub record LineOverage : Type 0 where
  pub line_id : ℕ
  pub cost_subtotal : Decimal
  pub effective : Decimal
  pub ceiling : Decimal
  pub overage : Decimal
  pub list_amt : Decimal
  pub weight : Decimal

abbrev pub is_over : LineOverage → Bool
is_over o = lt_dec (dec 0 0) o.overage

-- The discount of a line with that of the order on top.
unfoldable pub effective_discount : Decimal → Decimal → Decimal
effective_discount order_pct line_pct =
    quantize_dec
      (if lt_dec (dec 0 0) order_pct
        then dec 100 0
          *ᵈ (dec 1 0 -ᵈ (dec 1 0 -ᵈ line_pct /ᵈ dec 100 0) *ᵈ (dec 1 0 -ᵈ order_pct /ᵈ dec 100 0))
        else line_pct)
      4

-- How far it exceeds the ceiling.
unfoldable pub overage_of : Decimal → Decimal → Decimal
overage_of eff ceiling = quantize_dec (max_dec (dec 0 2) (eff -ᵈ ceiling)) 4

-- `line_ceilings.get(line_id, default)`
abbrev pub ceiling_for : List (ℕ × Decimal) → Decimal → ℕ → Decimal
ceiling_for ceilings default id = elim (lookup id ceilings) [ none ↦ default | some c ↦ c ]

unfoldable pub line_overage :
    Decimal → Decimal → List (ℕ × Decimal) → Decimal → DealLine → LineOverage
line_overage order_pct default_ceiling ceilings total_list l =
    let ceiling = ceiling_for ceilings default_ceiling l.line_id in
    let eff = effective_discount order_pct l.discount_pct in
    let amount = l.qty *ᵈ l.price_unit in
    record {
      line_id = l.line_id;
      cost_subtotal = l.cost_subtotal;
      effective = eff;
      ceiling = ceiling;
      overage = overage_of eff ceiling;
      list_amt = amount;
      weight = if lt_dec (dec 0 0) total_list then amount /ᵈ total_list else dec 0 2;
    }

unfoldable pub line_overages : DealContext → List (ℕ × Decimal) → List LineOverage
line_overages ctx ceilings =
    map
      (line_overage ctx.order_discount_pct ctx.tier_default_ceiling ceilings
        (sum_from (dec 0 0) (map (λ l. l.qty *ᵈ l.price_unit) ctx.lines)))
      ctx.lines

-- `max((o["overage"] for o in os), default=Decimal("0.00"))`
unfoldable pub max_overage : List LineOverage → Decimal
max_overage [] = dec 0 2
max_overage (o ∷ os) = max_from lt_dec o.overage (map (λ p. p.overage) os)

-- `sum((o["overage"] * o["weight"] for o in os), Decimal("0.00"))`
unfoldable pub weighted_overage : List LineOverage → Decimal
weighted_overage os = sum_from (dec 0 2) (map (λ o. o.overage *ᵈ o.weight) os)

unfoldable pub violation_ratio : List LineOverage → Decimal
violation_ratio [] = dec 0 2
violation_ratio (o ∷ os) = of_ℕ (length (keep_if is_over (o ∷ os))) /ᵈ of_ℕ (length (o ∷ os))

unfoldable pub discount_excess : RiskSettings → List LineOverage → Decimal
discount_excess s os =
    quantize_dec
      (min_dec s.discount_cap (
        s.w_discount_max *ᵈ max_overage os
        +ᵈ s.w_discount_weighted *ᵈ weighted_overage os
        +ᵈ s.w_discount_ratio *ᵈ violation_ratio os))
      2
