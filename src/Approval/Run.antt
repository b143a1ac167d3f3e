-- ===== src/Approval/Run.antt =====
-- Runs of evaluations (app/guardian/evaluator.py), routings (app/guardian/approval_routing.py),
-- decisions (app/services/approval_service.py) and customers' confirmations and requests
-- (app/services/portal_service.py, app/services/negotiation_service.py), in any order.
use chumma.Base.{ℕ, String, ◌≡◌, ap, ◌∙◌, Bool, true, Option, some, ◌==◌, if◌then◌else◌}
use chumma.Deals.{Catalog}
use chumma.Evaluation.{evaluate_deal}
use chumma.Evaluation.Effect.{same-IsConsistent, evaluate-IsConsistent}
use chumma.Portal.{ConfirmDealRequest, confirm_deal_by_customer}
use chumma.Portal.View.{PortalDealRead}
use chumma.Portal.Gate.{confirm-same, submit-same}
use chumma.Negotiation.{NegotiationSubmit, submit_negotiation_request}
use chumma.Enums.{TriggerType, ApprovalActionType, ApprovalLevel}
use chumma.State.{Result, ApprovalRequest, Actor, Deal, World, Gateway, ok}
use chumma.State.Tables.{find_deal, find_row_id, find_request}
use chumma.Routing.{is_pending, apply_approval_routing}
use chumma.Approval.{decide_approval_request}
use chumma.Approval.Outcome.{record_action-state, perform-state}
use chumma.Approval.Guards.{decide_accepts}
use chumma.Approval.Consistent.{IsConsistent, decide-IsConsistent}
use chumma.Approval.Routed.{routing-IsConsistent}
use chumma.Approval.Effect.{new_state, replace, state_of}

module _ {S : Type 0} (gateway : Gateway S) where
  -- A call of one of the services that is not refused.
  pub data Step : World S → World S → Type 0 where
    decides :
        (request_id : ℕ) (actor : Actor) (action : ApprovalActionType) (reason : Option String)
        (now : ℕ) (w v : World S)
        → decide_approval_request gateway request_id actor action reason now w ≡ ok v
        → Step w v
    routes :
        (deal : Deal) (assessment : ℕ) (level : ApprovalLevel) (is_covered : Bool) (now : ℕ)
        (w : World S)
        → Step w (apply_approval_routing deal assessment level is_covered now w).0
    confirms :
        (deal_id customer : ℕ) (note : ConfirmDealRequest) (now : ℕ) (w v : World S)
        (view : Result PortalDealRead)
        → confirm_deal_by_customer gateway deal_id customer note now w ≡ ok (v, view)
        → Step w v
    evaluates :
        (catalog : Catalog) (deal_id : ℕ) (order : Option ℕ) (trigger : TriggerType)
        (actor : Option ℕ) (now : ℕ) (w v : World S)
        → evaluate_deal gateway catalog (some deal_id) order trigger actor now w ≡ ok v
        → Step w v
    submits :
        (deal_id customer actor : ℕ) (payload : NegotiationSubmit) (now : ℕ) (w v : World S)
        → submit_negotiation_request deal_id customer actor payload now w ≡ ok v
        → Step w v

  pub data Run : World S → World S → Type 0 where
    stop : {w : World S} → Run w w
    next : {u v w : World S} → Run u v → Step v w → Run u w

  -- A run of evaluations, routings, accepted decisions, confirmations and negotiation requests, in
  -- any order, from a state in which approval states and pending requests agree, ends in one in
  -- which they agree.
  pub run-IsConsistent : {u w : World S} → Run u w → IsConsistent u → IsConsistent w
  run-IsConsistent stop h = h
  run-IsConsistent (next run (decides request_id actor action reason now v w e)) h =
      decide-IsConsistent gateway request_id actor action reason now v w (run-IsConsistent run h) e
  run-IsConsistent (next run (routes deal assessment level is_covered now w)) h =
      routing-IsConsistent deal assessment level is_covered now w (run-IsConsistent run h)
  run-IsConsistent (next run (evaluates catalog deal_id order trigger actor now v w e)) h =
      evaluate-IsConsistent gateway catalog deal_id order trigger actor now v w
        (run-IsConsistent run h) e
  run-IsConsistent (next run (confirms deal_id customer note now v w view e)) h =
      same-IsConsistent v w (confirm-same gateway deal_id customer note now v w view e)
        (run-IsConsistent run h)
  run-IsConsistent (next run (submits deal_id customer actor payload now v w e)) h =
      same-IsConsistent v w (submit-same deal_id customer actor payload now v w e)
        (run-IsConsistent run h)

  -- An accepted decision found a pending request and its deal, and after it that deal is in the
  -- state that `new_state` writes out: for an approval the finance stage, where the request is at
  -- the manager's stage and the deal requires both levels, and approved otherwise; rejected or
  -- returned for the other two; an action that leads to none leaves the deal; and the other deals
  -- stay as they are.
  pub decide_state :
      (request_id : ℕ) (actor : Actor) (action : ApprovalActionType) (reason : Option String)
      (now : ℕ) (w v : World S)
      → decide_approval_request gateway request_id actor action reason now w ≡ ok v
      → (req : ApprovalRequest) × (deal : Deal) × (find_request request_id w ≡ some req)
        × (is_pending req.status ≡ true)
        × (find_deal req.deal_id w ≡ some deal)
        × ((j : ℕ)
            → state_of j v ≡ (
                if req.deal_id == j
                then replace
                    (new_state action deal.required_level req.required_level)
                    (state_of j w)
                else state_of j w))
  decide_state request_id actor action reason now w v e =
      let (req, deal, found, pending, has_deal, differs, role, same) =
        decide_accepts gateway request_id actor action reason now w v e in
      let own = find_row_id (λ (d : Deal). d.id) req.deal_id w.deals deal has_deal in
      let to = replace (new_state action deal.required_level req.required_level) in
      (
        req,
        deal,
        found,
        pending,
        has_deal,
        λ j.
            ap (state_of j) same
            ∙ perform-state gateway action deal req actor reason now j _
            ∙ ap (λ o. if deal.id == j then to o else o)
                (record_action-state action req actor reason now j w)
            ∙ ap (λ i. if i == j then to (state_of j w) else state_of j w) own,
      )
