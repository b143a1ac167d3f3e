-- ===== src/Evaluation/Outcome.antt =====
-- The approval state that app/guardian/evaluator.py leaves a deal in.
use chumma.Base.{
  none, subst, ℕ, ◌≡◌, refl, sym, ap, ◌∙◌, inl, inr, Bool, true, false, ◌&&◌, Option, some, ◌==◌,
  if◌then◌else◌, ==_iff, Bool-cases,
}
use chumma.Enums.{TriggerType, ApprovalLevel, ApprovalState}
use chumma.State.{ok, Gateway, Deal, World}
use chumma.Routing.{set_state, apply_approval_routing, is_approved, route, invalidate_pending}
use chumma.Approval.Effect.{state_of, state_of-set, replace}
use chumma.Approval.Routed.{manager-state, invalidate-state}
use chumma.State.Tables.{find_row_id, find_deal}
use chumma.Risk.{RiskCalculationResult}
use chumma.Deals.{Catalog}
use chumma.Evaluation.{
  has_open_counter, assess, context_for, add_assessment, is_covered, apply_evaluation,
  evaluate_deal,
}
use chumma.Evaluation.Effect.{evaluated, closing-same, add_assessment-same}
use chumma.Context.{DealContext}

-- The state of a deal whose approval does not cover the new level.
abbrev pub next_state : ApprovalLevel → ApprovalState
next_state ApprovalLevel.none = ApprovalState.evaluated_no_approval
next_state ApprovalLevel.manager = ApprovalState.pending_manager
next_state ApprovalLevel.manager_and_finance = ApprovalState.pending_manager

abbrev pub evaluated_state : Bool → ApprovalLevel → ApprovalState
evaluated_state kept level = if kept then ApprovalState.approved else next_state level

and_right : (a b : Bool) → (a && b) ≡ true → b ≡ true
and_right true b h = h
and_right false b h = cc

kept_state :
    (own : Bool) (st : ApprovalState) (o : Option ApprovalState)
    → is_approved st ≡ true
    → (own ≡ true → o ≡ some st)
    → o ≡ (if own then replace (some ApprovalState.approved) o else o)
kept_state false st o h k = refl
kept_state true st o h k = over st o h (k refl)
  where
    over :
        (st : ApprovalState) (o : Option ApprovalState)
        → is_approved st ≡ true
        → o ≡ some st
        → o ≡ replace (some ApprovalState.approved) o
    over ApprovalState.approved o h k = k ∙ ap (replace (some ApprovalState.approved)) (sym k)
    over ApprovalState.not_evaluated o h k = cc
    over ApprovalState.evaluated_no_approval o h k = cc
    over ApprovalState.pending_manager o h k = cc
    over ApprovalState.pending_finance o h k = cc
    over ApprovalState.rejected o h k = cc
    over ApprovalState.returned o h k = cc
    over ApprovalState.invalidated o h k = cc

module _ {S : Type 0} where
  pub route-state :
      (level : ApprovalLevel) (deal assessment now j : ℕ) (w : World S)
      → state_of j (route level deal assessment now (invalidate_pending deal now w)).0
        ≡ (if deal == j then replace (some (next_state level)) (state_of j w) else state_of j w)
  unfolding route
  route-state ApprovalLevel.none deal assessment now j w =
      state_of-set deal j (set_state ApprovalState.evaluated_no_approval)
        ApprovalState.evaluated_no_approval _ (λ d. refl) (λ d. refl)
      ∙ ap (λ o. if deal == j then replace (some ApprovalState.evaluated_no_approval) o else o)
          (invalidate-state deal now j w)
  route-state ApprovalLevel.manager deal assessment now j w =
      manager-state deal assessment now j _
      ∙ ap (λ o. if deal == j then replace (some ApprovalState.pending_manager) o else o)
          (invalidate-state deal now j w)
  route-state ApprovalLevel.manager_and_finance deal assessment now j w =
      manager-state deal assessment now j _
      ∙ ap (λ o. if deal == j then replace (some ApprovalState.pending_manager) o else o)
          (invalidate-state deal now j w)

  -- Routing puts the deal in the state that its level calls for, or leaves it approved.
  routing-state :
      (deal : Deal) (assessment : ℕ) (level : ApprovalLevel) (cover : Bool) (now j : ℕ)
      (w : World S)
      → state_of deal.id w ≡ some deal.approval_state
      → state_of j (apply_approval_routing deal assessment level cover now w).0 ≡ (
          if deal.id == j
          then replace
              (some (evaluated_state (cover && is_approved deal.approval_state) level))
              (state_of j w)
          else state_of j w)
  unfolding apply_approval_routing
  routing-state deal assessment level cover now j w found =
      elim (Bool-cases (cover && is_approved deal.approval_state)) [
        | inl kept ↦ rw kept (
            kept_state (deal.id == j) deal.approval_state (state_of j w) (and_right cover _ kept)
              (λ own.
                subst (λ i. state_of i w ≡ some deal.approval_state) ((==_iff deal.id j).0 own)
                  found))
        | inr lost ↦ rw lost (route-state level deal.id assessment now j w)
      ]

  pub row-state :
      (id : ℕ) (w : World S) (d : Deal)
      → find_deal id w ≡ some d
      → state_of d.id w ≡ some d.approval_state
  unfolding state_of
  row-state id w d found =
      ap (λ i. shown (find_deal i w)) (find_row_id (λ x. x.id) id w.deals d found) ∙ ap shown found
    where
      shown : Option Deal → Option ApprovalState
      shown o = elim o [ none ↦ none | some x ↦ some x.approval_state ]

module _ {S : Type 0} (gateway : Gateway S) where
  apply-state :
      (deal : Deal) (r : RiskCalculationResult) (trigger : TriggerType) (actor : Option ℕ)
      (now j : ℕ) (w : World S)
      → state_of deal.id w ≡ some deal.approval_state
      → state_of j (apply_evaluation gateway deal r trigger actor now w) ≡ (
          if deal.id == j
          then replace
              (some (
                evaluated_state
                  (is_covered deal r w && is_approved deal.approval_state)
                  r.required_level))
              (state_of j w)
          else state_of j w)
  apply-state deal r trigger actor now j w found =
      let same = add_assessment-same deal r trigger now w in
      let to = replace (
        some (
          evaluated_state (is_covered deal r w && is_approved deal.approval_state)
            r.required_level)) in
      (closing-same gateway deal r trigger actor now w).0 j
      ∙ routing-state deal w.next_id r.required_level (is_covered deal r w) now j
          (add_assessment deal r trigger now w) (same.0 deal.id ∙ found)
      ∙ ap (λ o. if deal.id == j then to o else o) (same.0 j)

  -- After the evaluation of a deal, the deal is approved if it was and its approval covers the new
  -- risk; otherwise it waits for the manager, or for nobody if the risk calls for no approval. The
  -- other deals stay in their states.
  pub evaluate_state :
      (catalog : Catalog) (id : ℕ) (order : Option ℕ) (trigger : TriggerType) (actor : Option ℕ)
      (now : ℕ) (w v : World S)
      → evaluate_deal gateway catalog (some id) order trigger actor now w ≡ ok v
      → (deal : Deal) × (ctx : DealContext) × (find_deal id w ≡ some deal)
        × (context_for gateway catalog deal deal.odoo_sale_order_id w ≡ ok ctx)
        × ((j : ℕ)
            → let r = assess catalog ctx (has_open_counter deal.id w) in
              state_of j v ≡ (
                if deal.id == j
                then replace
                    (some (
                      evaluated_state
                        (is_covered deal r w && is_approved deal.approval_state)
                        r.required_level))
                    (state_of j w)
                else state_of j w))
  evaluate_state catalog id order trigger actor now w v e =
      let (deal, ctx, found, context, same) =
        evaluated gateway catalog id order trigger actor now w v e in
      (
        deal,
        ctx,
        found,
        context,
        λ j.
            ap (state_of j) same
            ∙ apply-state deal (assess catalog ctx (has_open_counter deal.id w)) trigger actor now j
                w (row-state id w deal found),
      )
