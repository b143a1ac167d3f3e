-- ===== src/Tests/Rules.antt =====
-- The policies and the next best action at concrete inputs.
use chumma.Base.{
  ◌+◌, ℕ, ◌≡◌, refl, ◌↔◌, ◌⊎◌, true, false, Option, none, some, List, [], ◌∷◌, keep_if,
}
use chumma.Base.Int.{◌-ℤ◌, ℤ, pos, negsuc}
use chumma.Base.Decimal.{lt_dec, dec}
use chumma.Enums.{TriggerType, Role, DealStatus, ApprovalState, NextBestActionType}
use chumma.Policy.{best_from, DiscountPolicy, resolve_policy_for_line, is_candidate, score}
use chumma.Policy.Best.{Dominates, resolve_best}
use chumma.Context.{DealLine, DealContext, ProductType}
use chumma.Material.{is_material_change}
use chumma.Material.Unchanged.{unchanged_context}
use chumma.Health.{HealthInput, calculate_deal_health, nothing}
use chumma.Health.Idle.{IsOpen, rested, idle_irrelevant}
use chumma.NextAction.{later_rules, DealFacts, is_cleared, determine_next_best_action}
use chumma.NextAction.Order.{awaiting_iff, closing_only, role_passes, is_closing}

abbrev policy : ℕ → Option ℕ → Option ℕ → DiscountPolicy
policy id category tier = record {
  id = id;
  odoo_company_id = 1;
  active = true;
  odoo_product_category_id = category;
  customer_tier_code = tier;
  max_discount_pct = dec 1000 2;
  minimum_margin_pct = none;
  manager_threshold = none;
  finance_threshold = none;
  single_line_finance_pts = none;
  priority = pos 10;
}

-- The policy for all, and the one for category 8 and tier 2.
abbrev policies : List DiscountPolicy
policies = policy 1 none none ∷ policy 2 (some 8) (some 2) ∷ []

most_specific : (resolve_policy_for_line policies 1 2 (some 8) (dec 500 2)).policy_id ≡ some 2
unfolding resolve_policy_for_line best_from score ◌-ℤ◌
most_specific = refl

resolve_best_example :
    let r = resolve_policy_for_line policies 1 2 (some 8) (dec 500 2) in
    let candidates = keep_if (is_candidate 1) policies in
    ((r.policy_id ≡ none)
      × (r.max_discount_pct ≡ dec 500 2)
      × Dominates 2 (some 8) (negsuc 0) candidates)
    ⊎ ((p : DiscountPolicy) × (s : ℤ) × (r.policy_id ≡ some p.id)
        × (r.max_discount_pct ≡ p.max_discount_pct)
        × (is_candidate 1 p ≡ true)
        × (score 2 (some 8) p ≡ some s)
        × Dominates 2 (some 8) s candidates)
resolve_best_example = resolve_best 2 (some 8) 1 (dec 500 2) policies

-- A deal at rest, of a given state and role.
abbrev facts : ApprovalState → Role → DealFacts
facts state role = record {
  approval_state = state;
  deal_status = DealStatus.draft;
  just_invalidated = false;
  open_negotiation_requests = 0;
  max_overage = dec 0 2;
  margin_exposure = dec 0 2;
  has_recommendation = false;
  fulfillment_plan_status = none;
  has_consolidatable_backorder = false;
  days_since_activity = 0;
  stalled_days = 7;
  customer_confirmed_pending = false;
  user_role = some role;
}

awaiting_iff_example :
    ((determine_next_best_action (facts ApprovalState.pending_finance Role.finance)).type
      ≡ NextBestActionType.awaiting_approver)
    ↔ (role_passes (some Role.finance) ApprovalState.pending_finance ≡ true)
awaiting_iff_example = awaiting_iff (facts ApprovalState.pending_finance Role.finance)

to_send :
    is_closing (determine_next_best_action (facts ApprovalState.approved Role.sales_rep)).type
    ≡ true
unfolding determine_next_best_action later_rules lt_dec
to_send = refl

closing_only_example :
    (is_cleared ApprovalState.approved ≡ true)
    × (false ≡ false)
    × ((facts ApprovalState.approved Role.sales_rep).open_negotiation_requests ≡ 0)
closing_only_example = closing_only (facts ApprovalState.approved Role.sales_rep) to_send

-- A deal idle for thirty days.
abbrev idle : DealStatus → HealthInput
idle status = record {
  deal_status = status;
  days_since_activity = dec 30 0;
  stalled_threshold_days = pos 7;
  days_pending_approval = nothing;
  anomaly_severity = none;
  has_slipping_delivery = false;
  has_backorder = false;
  has_warehouse_split = false;
  open_negotiation_requests = pos 0;
}

expired_not-IsOpen : ¬ IsOpen DealStatus.expired
expired_not-IsOpen h = h

idle_irrelevant_example :
    calculate_deal_health (rested (dec 0 0) (pos 7) (idle DealStatus.expired))
    ≡ calculate_deal_health (idle DealStatus.expired)
idle_irrelevant_example =
    idle_irrelevant (idle DealStatus.expired) (dec 0 0) (pos 7) expired_not-IsOpen

abbrev line : ℕ → DealLine
line id = record {
  line_id = id;
  product_id = 30 + id;
  category_id = 8;
  category_path = [];
  product_type = ProductType.stockable;
  qty = dec 3 0;
  price_unit = dec 1999 2;
  list_price = dec 1999 2;
  discount_pct = dec 125 1;
  unit_cost = dec 1000 2;
  subtotal = dec 5247 2;
  cost_subtotal = dec 3000 2;
  margin_amount = dec 2247 2;
  margin_pct = dec 4282 2;
  is_recurring = true;
  tax_rate_pct = dec 1800 2;
  available_qty = pos 2;
  inventory_shortage = true;
}

-- Two lines, one of them given twice.
abbrev pub context : DealContext
context = record {
  deal_id = some 5;
  odoo_sale_order_id = 70;
  partner_id = 9;
  tier_code = 2;
  tier_default_ceiling = dec 500 2;
  company_id = 1;
  user_id = 4;
  order_discount_pct = dec 5 0;
  amount_untaxed = dec 15741 2;
  amount_total = dec 18574 2;
  one_time_total = dec 0 2;
  recurring_first_cycle_total = dec 15741 2;
  total_cost = dec 9000 2;
  total_margin_amount = dec 6741 2;
  total_margin_pct = dec 4282 2;
  blended_discount_pct = dec 1250 2;
  lines = line 1 ∷ line 2 ∷ line 1 ∷ [];
  historical_rep_avg_discount = none;
  historical_rep_stddev = none;
  line_count = 3;
}

unchanged_context_example :
    is_material_change (some context) context TriggerType.stock_changed true ≡ (false, [])
unchanged_context_example = unchanged_context context TriggerType.stock_changed refl
