-- ===== src/Evaluation/Effect.antt =====
-- What app/guardian/evaluator.py does to the approval states and to the pending requests.
use chumma.Base.{subst, ◌≡◌, some, ℕ, refl, sym, ap, ◌∙◌, Option}
use chumma.Enums.{TriggerType}
use chumma.State.{entity_not_found, or_raise, or_raise, ok, Deal, World, Gateway}
use chumma.Risk.{RiskCalculationResult}
use chumma.Routing.{apply_approval_routing}
use chumma.Routing.Pending.{waiting}
use chumma.Approval.Effect.{state_of, state_of-keep, audit-state, odoo-state, audit-requests}
use chumma.Approval.Consistent.{IsConsistent}
use chumma.Approval.Routed.{routing-IsConsistent}
use chumma.Portal.Gate.{SameApprovals}
use chumma.Evaluation.{
  assess, context_for, has_open_counter, evaluate_from, evaluate_deal, add_assessment,
  apply_evaluation, is_covered, set_assessment,
}
use chumma.Deals.{Catalog}
use chumma.Context.{DealContext}
use chumma.State.Tables.{find_deal}
use chumma.State.Results.{ok_injective, or_raise_ok, >>=_ok}

module _ {S : Type 0} where
  pub add_assessment-same :
      (deal : Deal) (r : RiskCalculationResult) (trigger : TriggerType) (now : ℕ) (w : World S)
      → SameApprovals w (add_assessment deal r trigger now w)
  unfolding add_assessment state_of
  add_assessment-same deal r trigger now w = (λ j. refl, refl)

  pub same-IsConsistent : (v w : World S) → SameApprovals v w → IsConsistent v → IsConsistent w
  same-IsConsistent v w same h k s st e = ap (waiting k s) same.1 ∙ h k s st (sym (same.0 k) ∙ e)

module _ {S : Type 0} (gateway : Gateway S) where
  -- After the routing, nothing of the approvals changes.
  pub closing-same :
      (deal : Deal) (r : RiskCalculationResult) (trigger : TriggerType) (actor : Option ℕ) (now : ℕ)
      (w : World S)
      → SameApprovals
          (apply_approval_routing deal w.next_id r.required_level
            (is_covered deal r w)
            now
            (add_assessment deal r trigger now w)).0
          (apply_evaluation gateway deal r trigger actor now w)
  unfolding apply_evaluation
  closing-same deal r trigger actor now w = (
    λ j.
        audit-state _ _ _ _ _ now j _
        ∙ odoo-state _ j _
        ∙ state_of-keep deal.id j (set_assessment r w.next_id now) _ (λ d. refl) (λ d. refl),
    audit-requests _ _ _ _ _ now _,
  )

  apply_evaluation-IsConsistent :
      (deal : Deal) (r : RiskCalculationResult) (trigger : TriggerType) (actor : Option ℕ) (now : ℕ)
      (w : World S)
      → IsConsistent w
      → IsConsistent (apply_evaluation gateway deal r trigger actor now w)
  apply_evaluation-IsConsistent deal r trigger actor now w h =
      same-IsConsistent _ _ (closing-same deal r trigger actor now w) (
        routing-IsConsistent deal w.next_id r.required_level (is_covered deal r w) now _
          (same-IsConsistent w _ (add_assessment-same deal r trigger now w) h))

  -- An evaluation of a deal that is there comes to an application of its risk.
  pub evaluated :
      (catalog : Catalog) (id : ℕ) (order : Option ℕ) (trigger : TriggerType) (actor : Option ℕ)
      (now : ℕ) (w v : World S)
      → evaluate_deal gateway catalog (some id) order trigger actor now w ≡ ok v
      → (deal : Deal) × (ctx : DealContext) × (find_deal id w ≡ some deal)
        × (context_for gateway catalog deal deal.odoo_sale_order_id w ≡ ok ctx)
        × (v
            ≡ apply_evaluation gateway deal
                (assess catalog ctx (has_open_counter deal.id w))
                trigger
                actor
                now
                w)
  unfolding evaluate_deal evaluate_from
  evaluated catalog id order trigger actor now w v e =
      let (deal, found, e1) = >>=_ok (or_raise (find_deal id w) entity_not_found) _ v e in
      let (ctx, context, e2) =
        >>=_ok (context_for gateway catalog deal deal.odoo_sale_order_id w) _ v e1 in
      (deal, ctx, or_raise_ok _ _ deal found, context, sym (ok_injective _ v e2))

  -- An evaluation keeps the approval states and the pending requests in agreement.
  pub evaluate-IsConsistent :
      (catalog : Catalog) (id : ℕ) (order : Option ℕ) (trigger : TriggerType) (actor : Option ℕ)
      (now : ℕ) (w v : World S)
      → IsConsistent w
      → evaluate_deal gateway catalog (some id) order trigger actor now w ≡ ok v
      → IsConsistent v
  evaluate-IsConsistent catalog id order trigger actor now w v h e =
      let (deal, ctx, found, context, same) = evaluated catalog id order trigger actor now w v e in
      subst IsConsistent (sym same) (
        apply_evaluation-IsConsistent deal (assess catalog ctx (has_open_counter deal.id w)) trigger
          actor now w h)
