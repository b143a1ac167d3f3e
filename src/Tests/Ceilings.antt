-- ===== src/Tests/Ceilings.antt =====
-- A deal whose discounts keep to their ceilings.
use chumma.Base.{◌≡◌, refl, true, [], All}
use chumma.Base.Decimal.{dec, lt_dec, le_dec}
use chumma.Base.Int.{◌*ℤ◌}
use chumma.Enums.{ApprovalLevel}
use chumma.Context.{DealContext}
use chumma.Risk.{RiskSettings, default_settings, effective_discount}
use chumma.Risk.Score.{calculate_deal_risk}
use chumma.Risk.Ceilings.{KeepsCeiling, kept_ceilings}
use chumma.Risk.Score.{score_of, level_of, severity_of}
use chumma.Base.Decimal.{
  quantize_dec, sum_from, ◌+ᵈ◌, ◌*ᵈ◌, ◌-ᵈ◌, ◌/ᵈ◌, digit_count, digits_below, eq_dec, fix,
  round_half_even, round_half_up,
}
use chumma.Risk.Factors.{
  discount_factors, add_at, add_shares, deal_margin_pct, inventory_factors, inventory_points,
  margin_factors, settle,
}
use chumma.Risk.{
  discount_excess, max_overage, line_overages, line_overage, overage_of, weighted_overage,
  violation_ratio,
}
use chumma.Base.Sort.{max_from}
use chumma.Base.Int.{◌+ℤ◌, ◌-ℤ◌}
use chumma.Context.{int_of}
use chumma.Tests.Rules.{context}

abbrev lenient : DealContext
lenient = record context { tier_default_ceiling = dec 2000 2 }

abbrev settings : RiskSettings
settings = record default_settings { manager_threshold = dec 4500 2 }

low_score :
    lt_dec (calculate_deal_risk lenient [] settings).risk_score settings.manager_threshold ≡ true
unfolding calculate_deal_risk lt_dec score_of quantize_dec sum_from discount_factors discount_excess
    ◌+ᵈ◌ ◌*ᵈ◌ max_overage line_overages max_from line_overage overage_of ◌-ᵈ◌ effective_discount
    ◌/ᵈ◌ weighted_overage digit_count digits_below eq_dec fix le_dec round_half_even round_half_up
    ◌*ℤ◌ ◌+ℤ◌ ◌-ℤ◌ int_of add_at add_shares deal_margin_pct inventory_factors inventory_points
    margin_factors settle level_of severity_of violation_ratio
low_score = refl

keeping : All (KeepsCeiling lenient []) lenient.lines
unfolding effective_discount le_dec lt_dec quantize_dec ◌*ᵈ◌ ◌-ᵈ◌ ◌/ᵈ◌ ◌*ℤ◌
keeping = (refl, (refl, (refl, tt)))

kept_ceilings_example :
    (calculate_deal_risk lenient [] settings).required_level ≡ ApprovalLevel.none
kept_ceilings_example = kept_ceilings lenient [] settings keeping low_score
