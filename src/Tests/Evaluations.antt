-- ===== src/Tests/Evaluations.antt =====
-- The risk and the evaluation of a deal at concrete inputs.
use chumma.Base.{
  ℕ, ◌≡◌, refl, ◌↔◌, inl, true, false, ◌&&◌, none, some, List, [], ◌∷◌, map, arith, ◌==◌,
  if◌then◌else◌, keep_if, All,
}
use chumma.Base.Decimal.{
  Decimal, dec, ◌+ᵈ◌, ◌-ᵈ◌, ◌*ᵈ◌, ◌/ᵈ◌, lt_dec, le_dec, sum_from, quantize_dec,
}
use chumma.Enums.{ApprovalLevel, ApprovalState, RiskSeverity, TriggerType}
use chumma.Context.{DealContext, ProductType}
use chumma.Context.Build.{build_deal_context, context_of, RawOrder, RawOrderLine}
use chumma.Risk.{
  default_settings, line_overages, line_overage, effective_discount, overage_of, discount_excess,
  is_over,
}
use chumma.Risk.Score.{calculate_deal_risk}
use chumma.Risk.Factors.{discount_factors}
use chumma.Risk.Overages.{IsWithinCeiling}
use chumma.Risk.Levels.{auto_approval_iff, severity_level, HasOverage, single_line_escalates}
use chumma.Risk.Shares.{sources, line_of, discount_factors-sources}
use chumma.State.{Gateway, World, Deal, ok}
use chumma.State.Tables.{find_deal}
use chumma.Deals.{Catalog, sync_deal_from_odoo, create_deal}
use chumma.Deals.References.{IsNumbered, sync-IsNumbered}
use chumma.Evaluation.{
  assess, context_for, evaluate_deal, evaluate_from, apply_evaluation, has_open_counter, is_covered,
}
use chumma.Evaluation.Effect.{evaluate-IsConsistent}
use chumma.Evaluation.Outcome.{evaluated_state, evaluate_state}
use chumma.Approval.Consistent.{IsConsistent}
use chumma.Routing.{is_approved, apply_approval_routing}
use chumma.Approval.Effect.{state_of, replace}
use chumma.Approval.Machine.{Trail}
use chumma.Approval.Refine.{calls, run-Trail}
use chumma.Tests.Governance.{
  counting, start, start-IsConsistent, approved_once, approve_and_route, deal,
}
use chumma.Tests.Rules.{context}
use chumma.Base.Int.{pos, ◌*ℤ◌}

abbrev ceilings : List (ℕ × Decimal)
ceilings = (2, dec 2000 2) ∷ []

auto_approval_iff_example :
    let r = calculate_deal_risk context ceilings default_settings in
    (r.required_level ≡ ApprovalLevel.none) ↔ (
      All IsWithinCeiling (line_overages context ceilings)
      × (lt_dec r.risk_score default_settings.manager_threshold ≡ true))
auto_approval_iff_example = auto_approval_iff context ceilings default_settings

severity_level_example :
    let r = calculate_deal_risk context ceilings default_settings in
    (r.required_level ≡ ApprovalLevel.none → r.severity ≡ RiskSeverity.low)
    × (r.severity ≡ RiskSeverity.high → r.required_level ≡ ApprovalLevel.manager_and_finance)
severity_level_example = severity_level context ceilings default_settings

line_one_over : HasOverage (dec 1000 2) (line_overages context ceilings)
unfolding line_overages line_overage effective_discount overage_of ◌*ᵈ◌ ◌-ᵈ◌ ◌+ᵈ◌ ◌/ᵈ◌ quantize_dec
    lt_dec le_dec ◌*ℤ◌ sum_from
line_one_over = inl refl

positive : lt_dec (dec 0 0) (dec 1000 2) ≡ true
unfolding lt_dec ◌*ℤ◌
positive = refl

single_line_escalates_example :
    (calculate_deal_risk context ceilings default_settings).required_level
    ≡ ApprovalLevel.manager_and_finance
single_line_escalates_example =
    single_line_escalates context ceilings default_settings positive line_one_over

discount_factors-sources_example :
    sources (discount_factors default_settings (line_overages context ceilings)) ≡ (
      if lt_dec (dec 0 0) (discount_excess default_settings (line_overages context ceilings))
      then map line_of (keep_if is_over (line_overages context ceilings))
      else [])
discount_factors-sources_example =
    discount_factors-sources default_settings (line_overages context ceilings)

-- Odoo has order 40 alone, with one line of two products.
abbrev pub raw_line : RawOrderLine
raw_line = record {
  id = 1;
  product_id = 31;
  category_id = 8;
  category_path = [];
  product_type = ProductType.stockable;
  qty = dec 2 0;
  price_unit = dec 100 0;
  discount_pct = dec 3 0;
  unit_cost = dec 50 0;
  tax_rate_pct = dec 18 0;
  is_recurring = false;
}

abbrev pub raw_order : ℕ → RawOrder
raw_order id = record {
  id = id;
  partner_id = 7;
  company_id = 1;
  user_id = 10;
  lines = raw_line ∷ [];
}

abbrev pub selling : Gateway ℕ
selling = record counting {
  get_sale_order = λ id n. some (raw_order id);
  get_availability = λ ids places n. some ((31, (1, pos 5) ∷ []) ∷ []);
}

abbrev pub catalog : Catalog
catalog = record {
  customers = record { assignments = []; tiers = []; rep_stats = []; standard = 0 };
  policies = [];
}

abbrev pub deal_context : DealContext
deal_context = context_of catalog.customers (some 1) (raw_order 40) ((31, (1, pos 5) ∷ []) ∷ [])

abbrev evaluated_world : World ℕ
evaluated_world =
    apply_evaluation selling deal (assess catalog deal_context false) TriggerType.manual (some 10) 9
      start

runs :
    evaluate_deal selling catalog (some 1) none TriggerType.manual (some 10) 9 start
    ≡ ok evaluated_world
unfolding evaluate_deal evaluate_from context_for build_deal_context
runs = refl

evaluate-IsConsistent_example : IsConsistent evaluated_world
evaluate-IsConsistent_example =
    evaluate-IsConsistent selling catalog 1 none TriggerType.manual (some 10) 9 start
      evaluated_world start-IsConsistent runs

evaluate_state_example :
    (d : Deal) × (ctx : DealContext) × (find_deal 1 start ≡ some d)
    × (context_for selling catalog d d.odoo_sale_order_id start ≡ ok ctx)
    × ((j : ℕ)
        → let r = assess catalog ctx (has_open_counter d.id start) in
          state_of j evaluated_world ≡ (
            if d.id == j
            then replace
                (some (
                  evaluated_state
                    (is_covered d r start && is_approved d.approval_state)
                    r.required_level))
                (state_of j start)
            else state_of j start))
evaluate_state_example =
    evaluate_state selling catalog 1 none TriggerType.manual (some 10) 9 start evaluated_world runs

pending_at_start : state_of 1 start ≡ some ApprovalState.pending_manager
unfolding state_of
pending_at_start = refl

run-Trail_example :
    (b : ApprovalState) × (state_of 1
        (apply_approval_routing deal 4 ApprovalLevel.manager false 11 approved_once).0
      ≡ some b)
    × Trail (calls counting 1 approve_and_route) ApprovalState.pending_manager b
run-Trail_example =
    run-Trail counting 1 ApprovalState.pending_manager approve_and_route start-IsConsistent
      pending_at_start

-- A world whose counter has issued the reference of its deal.
abbrev numbered : World ℕ
numbered = record start { sequences = record { key = 0; next_value = 1002 } ∷ [] }

abbrev synced : World ℕ × ℕ
synced =
    create_deal (context_of catalog.customers none (raw_order 77) ((31, (1, pos 5) ∷ []) ∷ [])) none
      9 numbered

numbered-IsNumbered : IsNumbered numbered
numbered-IsNumbered = ((omega arith, tt), (tt, tt))

syncs : sync_deal_from_odoo selling catalog 77 none none 9 numbered ≡ ok (synced.0, synced.1)
unfolding sync_deal_from_odoo build_deal_context
syncs = refl

sync-IsNumbered_example : IsNumbered synced.0
sync-IsNumbered_example =
    sync-IsNumbered selling catalog 77 none none 9 numbered synced.0 synced.1 numbered-IsNumbered
      syncs
