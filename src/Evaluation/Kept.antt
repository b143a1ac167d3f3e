-- ===== src/Evaluation/Kept.antt =====
-- When a deal stays approved through an evaluation of app/guardian/evaluator.py.
use chumma.Base.{
  ℕ, ◌≡◌, ◌≢◌, refl, sym, ap, ◌∙◌, subst, Bool, true, false, ◌&&◌, Option, none, some,
  if◌then◌else◌, if-cases, ==_refl, arith,
}
use chumma.Base.Decimal.{Decimal}
use chumma.Enums.{TriggerType, ApprovalLevel, ApprovalState}
use chumma.Context.{DealContext}
use chumma.State.{RiskAssessment, Deal, World, Gateway, ok}
use chumma.State.Tables.{find_deal, find_row_id}
use chumma.Routing.{is_approved, apply_approval_routing}
use chumma.Material.{is_covered_by_approved_assessment}
use chumma.Material.Covered.{IsNoWorse, covered-IsNoWorse}
use chumma.Approval.Effect.{state_of, replace}
use chumma.Approval.Consistent.{found-state}
use chumma.Deals.{Catalog}
use chumma.Evaluation.{
  assess, has_open_counter, context_for, is_covered, find_assessment, add_assessment, evaluate_deal,
}
use chumma.Evaluation.Effect.{evaluated, closing-same, add_assessment-same}
use chumma.Evaluation.Outcome.{next_state, route-state}

both_true : (b c : Bool) → (b && c) ≡ true → (b ≡ true) × (c ≡ true)
both_true true c h = (refl, h)
both_true false c h = cc

approved_only : (s : ApprovalState) → is_approved s ≡ true → s ≡ ApprovalState.approved
approved_only s h = ground arith

not_next : (level : ApprovalLevel) → some (next_state level) ≢ some ApprovalState.approved
not_next ApprovalLevel.none e = cc
not_next ApprovalLevel.manager e = cc
not_next ApprovalLevel.manager_and_finance e = cc

-- A cover needs an approved assessment.
covered_by :
    (o : Option RiskAssessment) (level : ApprovalLevel) (score : Decimal)
    → is_covered_by_approved_assessment o level score ≡ true
    → (a : RiskAssessment) × (o ≡ some a) × IsNoWorse a level score
unfolding is_covered_by_approved_assessment
covered_by none level score h = cc
covered_by (some a) level score h = (a, refl, covered-IsNoWorse a level score h)

module _ {S : Type 0} where
  -- A routing after which the deal is approved kept its approval, and the requests.
  routing_kept :
      (deal : Deal) (assessment : ℕ) (level : ApprovalLevel) (cover : Bool) (now : ℕ) (w : World S)
      → state_of deal.id w ≡ some deal.approval_state
      → state_of deal.id (apply_approval_routing deal assessment level cover now w).0
        ≡ some ApprovalState.approved
      → (cover ≡ true)
        × (deal.approval_state ≡ ApprovalState.approved)
        × ((apply_approval_routing deal assessment level cover now w).0.requests ≡ w.requests)
  unfolding apply_approval_routing
  routing_kept deal assessment level cover now w was =
      if-cases
        (λ (r : World S × ApprovalState).
          state_of deal.id r.0 ≡ some ApprovalState.approved
          → (cover ≡ true)
            × (deal.approval_state ≡ ApprovalState.approved)
            × (r.0.requests ≡ w.requests))
        (cover && is_approved deal.approval_state) (w, ApprovalState.approved) _
        (λ kept _.
          let (covers, approved) = both_true cover _ kept in
          (covers, approved_only deal.approval_state approved, refl))
        (λ _ h. absurd (
          not_next level (
            sym (
              route-state level deal.id assessment now deal.id w
              ∙ ap
                  (λ b.
                    if b
                    then replace (some (next_state level)) (state_of deal.id w)
                    else state_of deal.id w)
                  (==_refl deal.id)
              ∙ ap (replace (some (next_state level))) was)
            ∙ h)))

module _ {S : Type 0} (gateway : Gateway S) where
  -- A deal that is approved after an evaluation was approved before, by an assessment of a level
  -- no lower and a risk score no less than the new risk's; and the evaluation left every approval
  -- request as it was.
  pub kept_approval :
      (catalog : Catalog) (id : ℕ) (order : Option ℕ) (trigger : TriggerType) (actor : Option ℕ)
      (now : ℕ) (w v : World S)
      → evaluate_deal gateway catalog (some id) order trigger actor now w ≡ ok v
      → state_of id v ≡ some ApprovalState.approved
      → (deal : Deal) × (ctx : DealContext) × (a : RiskAssessment) × (find_deal id w ≡ some deal)
        × (context_for gateway catalog deal deal.odoo_sale_order_id w ≡ ok ctx)
        × (deal.approval_state ≡ ApprovalState.approved)
        × (find_assessment deal.approved_assessment_id w ≡ some a)
        × (let r = assess catalog ctx (has_open_counter deal.id w) in
            IsNoWorse a r.required_level r.risk_score)
        × (v.requests ≡ w.requests)
  unfolding is_covered
  kept_approval catalog id order trigger actor now w v e h =
      let (deal, ctx, found, context, same) =
        evaluated gateway catalog id order trigger actor now w v e in
      let r = assess catalog ctx (has_open_counter deal.id w) in
      let own = find_row_id (λ (d : Deal). d.id) id w.deals deal found in
      let added = add_assessment-same deal r trigger now w in
      let closing = closing-same gateway deal r trigger actor now w in
      let was =
        subst (λ i. state_of i w ≡ some deal.approval_state) (sym own)
          (found-state gateway id w deal found) in
      let (covers, approved, requests) =
        routing_kept deal w.next_id r.required_level (is_covered deal r w) now
          (add_assessment deal r trigger now w) (added.0 deal.id ∙ was)
          (sym (closing.0 deal.id)
            ∙ sym (ap (state_of deal.id) same)
            ∙ ap (λ i. state_of i v) own
            ∙ h) in
      let (a, there, no_worse) =
        covered_by (find_assessment deal.approved_assessment_id w) r.required_level r.risk_score
          covers in
      (
        deal,
        ctx,
        a,
        found,
        context,
        approved,
        there,
        no_worse,
        ap (λ (z : World S). z.requests) same ∙ closing.1 ∙ requests ∙ added.1,
      )
