-- ===== src/Risk/Score.antt =====
-- The score of app/guardian/risk.py, its severity and the level of approval.
use chumma.Base.{ℕ, ◌&&◌, ◌||◌, List, ◌++◌, map, if◌then◌else◌}
use chumma.Base.Decimal.{Decimal, dec, lt_dec, le_dec, eq_dec, min_dec, sum_from, quantize_dec}
use chumma.Enums.{ApprovalLevel, RiskSeverity}
use chumma.Context.{DealContext}
use chumma.Risk.{
  max_overage, violation_ratio, weighted_overage, max_overage, line_overages, RiskCalculationResult,
  RiskFactor, Decision, RiskSettings,
}
use chumma.Risk.Factors.{
  negotiation_factors, inventory_factors, margin_factors, discount_factors, deal_margin_pct,
}

unfoldable pub score_of : List RiskFactor → Decimal
score_of fs =
    min_dec (dec 10000 2) (quantize_dec (sum_from (dec 0 2) (map (λ f. f.contribution) fs)) 2)

unfoldable pub severity_of : RiskSettings → Decimal → RiskSeverity
severity_of s score =
    if lt_dec score s.manager_threshold
    then RiskSeverity.low
    else if le_dec score s.finance_threshold
    then RiskSeverity.medium
    else RiskSeverity.high

unfoldable pub level_of : RiskSettings → Decimal → Decimal → ApprovalLevel
level_of s overage score =
    if eq_dec overage (dec 0 0) && lt_dec score s.manager_threshold
    then ApprovalLevel.none
    else if lt_dec s.finance_threshold score || le_dec s.single_line_finance_pts overage
    then ApprovalLevel.manager_and_finance
    else ApprovalLevel.manager

-- `decision`, which the code assigns beside the level.
abbrev pub decision_of : ApprovalLevel → Decision
decision_of ApprovalLevel.none = Decision.auto_approved
decision_of ApprovalLevel.manager = Decision.manager_required
decision_of ApprovalLevel.manager_and_finance = Decision.finance_required

unfoldable pub calculate_deal_risk :
    DealContext → List (ℕ × Decimal) → RiskSettings → RiskCalculationResult
calculate_deal_risk ctx ceilings s =
    let os = line_overages ctx ceilings in
    let margin = deal_margin_pct os in
    let factors =
      discount_factors s os
      ++ margin_factors s margin
      ++ inventory_factors s ctx.lines
      ++ negotiation_factors s in
    let score = score_of factors in
    let level = level_of s (max_overage os) score in
    record {
      risk_score = score;
      severity = severity_of s score;
      required_level = level;
      decision = decision_of level;
      factors = factors;
      max_overage = max_overage os;
      weighted_overage = weighted_overage os;
      violation_ratio = violation_ratio os;
      margin_pct = margin;
      minimum_margin_pct = s.minimum_margin_pct;
    }
