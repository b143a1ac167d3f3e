-- ===== src/Evaluation.antt =====
-- app/guardian/evaluator.py: the evaluation of a deal, from its context to the approval that it
-- waits for. The last two steps, the recommendations and the health record, which the code runs
-- under `try ... except Exception: pass` after everything here, are left out, and so are the
-- snapshots in the assessment. `err` tells that the call raised, not what the session then holds.
pub mod Effect
pub mod Outcome
pub mod Simulate
pub mod Kept
use chumma.Base.{
  ℕ, ◌+◌, Bool, true, false, not, ◌&&◌, Option, none, some, List, [], ◌∷◌, ◌++◌, map, ◌==◌,
  if◌then◌else◌, any,
}
use chumma.Base.Decimal.{Decimal}
use chumma.Enums.{
  ApprovalLevel, ApprovalState, AuditEventType, NegotiationRequestType, NegotiationRequestStatus,
  TriggerType,
}
use chumma.Context.{DealContext, DealLine}
use chumma.Context.Build.{build_deal_context}
use chumma.Policy.{ResolvedPolicy, resolve_policy_for_line}
use chumma.Risk.{RiskSettings, RiskCalculationResult, default_settings}
use chumma.Risk.Score.{calculate_deal_risk}
use chumma.Material.{is_covered_by_approved_assessment}
use chumma.Routing.{is_approved, apply_approval_routing}
use chumma.Deals.{Catalog, actor_type_of, find_by_order, get_deal_by_id, sync_deal_from_odoo}
use chumma.State.{
  ◌>>=◌, Deal, RiskAssessment, NegotiationRequest, World, Gateway, Result, ok, err, or_raise,
  entity_not_found, missing_identifier,
}
use chumma.State.Tables.{find_row, modify_deal, record_audit_event, try_call}

-- `line_ceilings[id] = ceiling`
abbrev pub put_ceiling : ℕ → Decimal → List (ℕ × Decimal) → List (ℕ × Decimal)
put_ceiling id c [] = (id, c) ∷ []
put_ceiling id c ((j, d) ∷ rest) = if j == id then (j, c) ∷ rest else (j, d) ∷ put_ceiling id c rest

abbrev pub policy_for : Catalog → DealContext → DealLine → ResolvedPolicy
policy_for catalog ctx l =
    resolve_policy_for_line catalog.policies ctx.company_id ctx.tier_code (some l.category_id)
      ctx.tier_default_ceiling

-- The thresholds of a line's policy take the place of those of the lines before.
abbrev pub with_policy : ResolvedPolicy → RiskSettings → RiskSettings
with_policy p s = record s {
  minimum_margin_pct = p.minimum_margin_pct;
  manager_threshold = p.manager_threshold;
  finance_threshold = p.finance_threshold;
  single_line_finance_pts = p.single_line_finance_pts;
}

unfoldable pub resolve_lines :
    Catalog
    → DealContext
    → List DealLine
    → List (ℕ × Decimal)
    → RiskSettings
    → List (ℕ × Decimal) × RiskSettings
resolve_lines catalog ctx [] ceilings s = (ceilings, s)
resolve_lines catalog ctx (l ∷ ls) ceilings s =
    let p = policy_for catalog ctx l in
    resolve_lines catalog ctx ls (put_ceiling l.line_id p.max_discount_pct ceilings)
      (with_policy p s)

abbrev is_open_counter : ℕ → NegotiationRequest → Bool
is_open_counter deal n =
    (n.deal_id == deal)
    && elim n.status [ NegotiationRequestStatus.opened ↦ true | _ ↦ false ]
    && elim n.type [ NegotiationRequestType.counter_discount ↦ true | _ ↦ false ]

-- Steps 3 to 5: the risk of a deal in its context.
unfoldable pub assess : Catalog → DealContext → Bool → RiskCalculationResult
assess catalog ctx has_counter =
    let (ceilings, s) = resolve_lines catalog ctx ctx.lines [] default_settings in
    calculate_deal_risk ctx ceilings (record s { has_open_negotiation_counter = has_counter })

-- Step 10: an order is locked unless it needs no approval or has it.
abbrev pub is_locked : ApprovalLevel → ApprovalState → Bool
is_locked ApprovalLevel.none state = false
is_locked _ state = not (is_approved state)

-- Step 9.
abbrev pub set_assessment : RiskCalculationResult → ℕ → ℕ → Deal → Deal
set_assessment r assessment now d = record d {
  current_risk_score = some r.risk_score;
  current_severity = some r.severity;
  required_level = r.required_level;
  current_assessment_id = some assessment;
  last_activity_at = now;
}

module _ {S : Type 0} where
  abbrev pub find_assessment : Option ℕ → World S → Option RiskAssessment
  find_assessment none w = none
  find_assessment (some id) w = find_row (λ a. a.id) id w.assessments

  abbrev pub has_open_counter : ℕ → World S → Bool
  has_open_counter deal w = any (is_open_counter deal) w.negotiations

  -- Step 7: the assessment, under the next key, and its factors.
  unfoldable pub add_assessment : Deal → RiskCalculationResult → TriggerType → ℕ → World S → World S
  add_assessment deal r trigger now w = record w {
    assessments =
        w.assessments
        ++ record {
          id = w.next_id;
          deal_id = deal.id;
          risk_score = r.risk_score;
          severity = r.severity;
          required_level = r.required_level;
          decision = r.decision;
          trigger_type = trigger;
          calculated_at = now;
        }
          ∷ [];
    factors = w.factors ++ map (λ f. (w.next_id, f)) r.factors;
    next_id = w.next_id + 1;
  }

  -- Step 6.
  unfoldable pub is_covered : Deal → RiskCalculationResult → World S → Bool
  is_covered deal r w =
      is_covered_by_approved_assessment (find_assessment deal.approved_assessment_id w)
        r.required_level r.risk_score

module _ {S : Type 0} (gateway : Gateway S) where
  -- Steps 6 to 11.
  unfoldable pub apply_evaluation :
      Deal → RiskCalculationResult → TriggerType → Option ℕ → ℕ → World S → World S
  apply_evaluation deal r trigger actor now w =
      let (routed, state) =
        apply_approval_routing deal w.next_id r.required_level (is_covered deal r w) now
          (add_assessment deal r trigger now w) in
      record_audit_event AuditEventType.risk_recalculated (some deal.id) deal.id
        (actor_type_of actor) actor now
        (try_call
          (gateway.set_governance deal.odoo_sale_order_id state r.risk_score
            (is_locked r.required_level state))
          (modify_deal deal.id (set_assessment r w.next_id now) routed)).0

  -- Step 2.
  unfoldable pub context_for : Catalog → Deal → ℕ → World S → Result DealContext
  context_for catalog deal order w =
      or_raise
        (build_deal_context catalog.customers (gateway.get_sale_order order w.odoo)
          (λ ids. gateway.get_availability ids none w.odoo) (some deal.id))
        entity_not_found

  -- From the deal on.
  unfoldable pub evaluate_from :
      Catalog → Deal → ℕ → TriggerType → Option ℕ → ℕ → World S → Result (World S)
  evaluate_from catalog deal order trigger actor now w = context_for catalog deal order w >>= λ ctx.
      ok (
        apply_evaluation deal (assess catalog ctx (has_open_counter deal.id w)) trigger actor now w)

  -- The deal that the synchronisation returns.
  unfoldable pub evaluate_new :
      Catalog → ℕ → TriggerType → Option ℕ → ℕ → World S → Result (World S)
  evaluate_new catalog order trigger actor now w = do
    synced ← sync_deal_from_odoo gateway catalog order none actor now w
    deal ← get_deal_by_id synced.1 synced.0
    evaluate_from catalog deal order trigger actor now synced.0

  -- Step 1: the deal, by its key or by its order, which is synchronised where no deal has it. A key
  -- is never empty; the order's number 0 counts as missing.
  unfoldable pub evaluate_deal :
      Catalog → Option ℕ → Option ℕ → TriggerType → Option ℕ → ℕ → World S → Result (World S)
  evaluate_deal catalog (some id) order trigger actor now w = do
    deal ← get_deal_by_id id w
    evaluate_from catalog deal deal.odoo_sale_order_id trigger actor now w
  evaluate_deal catalog none none trigger actor now w = err missing_identifier
  evaluate_deal catalog none (some order) trigger actor now w =
      if order == 0 then err missing_identifier else elim (find_by_order order w) [
        | some deal ↦ evaluate_from catalog deal order trigger actor now w
        | none ↦ evaluate_new catalog order trigger actor now w
      ]
