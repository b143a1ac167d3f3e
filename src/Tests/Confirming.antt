-- ===== src/Tests/Confirming.antt =====
-- A customer's confirmation, and an evaluation that an approval covers.
use chumma.Base.{ℕ, ◌≡◌, refl, false, none, some, [], ◌∷◌}
use chumma.Base.Decimal.{dec}
use chumma.Context.{DealContext}
use chumma.Context.Build.{build_deal_context}
use chumma.Enums.{RiskSeverity, TriggerType, ApprovalState, ApprovalLevel}
use chumma.Risk.{Decision}
use chumma.State.{RiskAssessment, Deal, World, ok}
use chumma.State.Tables.{find_deal}
use chumma.Material.Covered.{IsNoWorse}
use chumma.Approval.Effect.{state_of}
use chumma.Evaluation.{
  assess, has_open_counter, context_for, evaluate_deal, evaluate_from, find_assessment,
  apply_evaluation,
}
use chumma.Evaluation.Kept.{kept_approval}
use chumma.State.Tables.{record_audit_event}
use chumma.Routing.{
  apply_approval_routing, audit_superseded, invalidate_pending, request_manager, route,
}
use chumma.Evaluation.{is_covered, add_assessment, resolve_lines}
use chumma.Material.{is_covered_by_approved_assessment}
use chumma.Risk.Score.{calculate_deal_risk, level_of, score_of, severity_of}
use chumma.Base.Decimal.{
  eq_dec, quantize_dec, lt_dec, digit_count, digits_below, fix, le_dec, round_half_even,
  round_half_up, sum_from, ◌*ᵈ◌, ◌+ᵈ◌, ◌-ᵈ◌, ◌/ᵈ◌,
}
use chumma.Risk.{
  max_overage, line_overages, line_overage, overage_of, discount_excess, effective_discount,
  violation_ratio, weighted_overage,
}
use chumma.Context.Build.{
  context_of, ceiling_of, cost_total, cycle_total, line_context, line_subtotal, list_revenue,
  share_pct, tax_total, tier_of, untaxed_total,
}
use chumma.Base.Sort.{max_from}
use chumma.Base.Int.{◌*ℤ◌, ◌+ℤ◌, ◌-ℤ◌}
use chumma.Context.{int_of}
use chumma.Policy.{best_from, resolve_policy_for_line, score}
use chumma.Risk.Factors.{
  add_at, add_shares, deal_margin_pct, discount_factors, inventory_factors, inventory_points,
  margin_factors, settle,
}
use chumma.Tests.Governance.{start, deal}
use chumma.Tests.Evaluations.{selling, catalog, deal_context}

-- The approved assessment, of score 100 at both stages.
abbrev approved_assessment : RiskAssessment
approved_assessment = record {
  id = 3;
  deal_id = 1;
  severity = RiskSeverity.high;
  decision = Decision.finance_required;
  trigger_type = TriggerType.manual;
  calculated_at = 0;
  required_level = ApprovalLevel.manager_and_finance;
  risk_score = dec 10000 2;
}

abbrev approved_deal : Deal
approved_deal = record deal {
  approval_state = ApprovalState.approved;
  approved_assessment_id = some 3;
}

abbrev approved_world : World ℕ
approved_world = record start {
  deals = approved_deal ∷ [];
  assessments = approved_assessment ∷ [];
  requests = [];
}

abbrev kept_world : World ℕ
kept_world =
    apply_evaluation selling approved_deal (assess catalog deal_context false) TriggerType.manual
      (some 10) 9 approved_world

keeping :
    evaluate_deal selling catalog (some 1) none TriggerType.manual (some 10) 9 approved_world
    ≡ ok kept_world
unfolding evaluate_deal evaluate_from context_for build_deal_context
keeping = refl

approved_still : state_of 1 kept_world ≡ some ApprovalState.approved
unfolding state_of apply_evaluation record_audit_event apply_approval_routing is_covered
    is_covered_by_approved_assessment assess calculate_deal_risk level_of eq_dec max_overage
    line_overages context_of max_from line_overage overage_of quantize_dec lt_dec digit_count
    digits_below fix le_dec round_half_even round_half_up sum_from ◌*ᵈ◌ ◌+ᵈ◌ ◌-ᵈ◌ ◌/ᵈ◌ ◌*ℤ◌ ◌+ℤ◌
    ◌-ℤ◌ ceiling_of cost_total cycle_total line_context line_subtotal list_revenue share_pct
    tax_total tier_of untaxed_total int_of add_assessment resolve_lines best_from
    resolve_policy_for_line score add_at add_shares deal_margin_pct discount_factors
    inventory_factors inventory_points margin_factors settle score_of severity_of discount_excess
    effective_discount violation_ratio weighted_overage audit_superseded invalidate_pending
    request_manager route
approved_still = refl

kept_approval_example :
    (d : Deal) × (ctx : DealContext) × (a : RiskAssessment) × (find_deal 1 approved_world ≡ some d)
    × (context_for selling catalog d d.odoo_sale_order_id approved_world ≡ ok ctx)
    × (d.approval_state ≡ ApprovalState.approved)
    × (find_assessment d.approved_assessment_id approved_world ≡ some a)
    × (let r = assess catalog ctx (has_open_counter d.id approved_world) in
        IsNoWorse a r.required_level r.risk_score)
    × (kept_world.requests ≡ [])
kept_approval_example =
    kept_approval selling catalog 1 none TriggerType.manual (some 10) 9 approved_world kept_world
      keeping approved_still
