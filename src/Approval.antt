-- ===== src/Approval.antt =====
-- app/services/approval_service.py: the decision on an approval request.
pub mod Effect
pub mod Consistent
pub mod Counts
pub mod Routed
pub mod Run
pub mod Machine
pub mod Closed
pub mod Refine
pub mod Guards
pub mod Outcome
use chumma.Base.{
  ℕ, String, Bool, true, false, not, Option, none, some, [], ◌∷◌, ◌++◌, ◌==◌, if◌then◌else◌,
}
use chumma.Enums.{
  Role, DealStatus, ApprovalState, ApprovalLevel, ApprovalRequestStatus, ApprovalActionType,
  AuditEventType, Stage,
}
use chumma.State.{
  ◌>>=◌, ◌>>◌, Deal, ApprovalRequest, ActorType, Actor, NotificationType, World, Gateway, Result,
  ok, raise_if, or_raise, entity_not_found, request_not_pending, own_deal, forbidden,
}
use chumma.State.Tables.{
  find_deal, find_request, modify_deal, modify_request, record_audit_event, create_notification,
  try_call, score_or_zero,
}
use chumma.Routing.{is_pending, add_request}

-- The role guard: an administrator, or the role of the request's stage.
abbrev pub may_decide : Role → Stage → Bool
may_decide Role.admin s = true
may_decide Role.sales_manager Stage.sales_manager = true
may_decide Role.finance Stage.finance = true
may_decide _ _ = false

-- The four fields that a decision sets on the request.
abbrev pub close_request :
    ApprovalRequestStatus → ℕ → ℕ → Option String → ApprovalRequest → ApprovalRequest
close_request status actor now reason r = record r {
  status = status;
  completed_at = some now;
  decided_by = some actor;
  decision_reason = reason;
}

abbrev pub decide_deal : ApprovalState → ℕ → Deal → Deal
decide_deal s now d = record d { approval_state = s; last_activity_at = now }

-- Whether the manager's approval leads to the second stage.
abbrev pub needs_finance : ApprovalLevel → Stage → Bool
needs_finance ApprovalLevel.manager_and_finance Stage.sales_manager = true
needs_finance _ _ = false

abbrev pub confirm_deal : ℕ → Deal → Deal
confirm_deal now d = record d {
  status = DealStatus.confirmed;
  confirmed_at = some now;
  customer_confirmed_pending = false;
}

abbrev pub approve_deal : ℕ → ℕ → Deal → Deal
approve_deal assessment now d = record d {
  approval_state = ApprovalState.approved;
  approved_assessment_id = some assessment;
  last_activity_at = now;
}

module _ {S : Type 0} where
  -- `db.add(action_entry)`
  unfoldable pub record_action :
      ApprovalActionType → ApprovalRequest → Actor → Option String → ℕ → World S → World S
  record_action action req actor reason now w = record w {
    actions =
        w.actions
        ++ record {
          approval_request_id = req.id;
          actor_odoo_user_id = actor.odoo_user_id;
          actor_role = actor.role;
          action = action;
          reason = reason;
          created_at = now;
        }
          ∷ [];
  }

module _ {S : Type 0} (gateway : Gateway S) where
  -- `set_governance` for a decided deal, its exceptions ignored.
  unfoldable pub sync_governance : Deal → ApprovalState → Bool → World S → World S
  sync_governance deal state locked w =
      (try_call
        (gateway.set_governance deal.odoo_sale_order_id state
          (score_or_zero deal.current_risk_score) locked)
        w).0

  -- Stage 2. The new row has no key before the flush, so the audit event names none.
  unfoldable pub open_finance_stage : Deal → ApprovalRequest → ℕ → World S → World S
  open_finance_stage deal req now w =
      record_audit_event AuditEventType.approval_created none deal.id ActorType.system none now (
        modify_deal deal.id (decide_deal ApprovalState.pending_finance now)
          (add_request deal.id req.risk_assessment_id Stage.finance 2 now w))

  -- The order is confirmed if the customer accepted before; an exception leaves the deal as it is.
  unfoldable pub auto_confirm : Deal → ℕ → World S → World S
  auto_confirm deal now w =
      let (called, returned) = try_call (gateway.confirm deal.odoo_sale_order_id) w in
      if deal.customer_confirmed_pending
      then if returned
        then record_audit_event AuditEventType.order_confirmed (some deal.id) deal.id
            ActorType.system none now (modify_deal deal.id (confirm_deal now) called)
        else called
      else w

  -- The final stage passed.
  unfoldable pub final_approval : Deal → ApprovalRequest → ℕ → World S → World S
  final_approval deal req now w =
      create_notification deal.owner_odoo_user_id NotificationType.approval_approved deal.id
        (some deal.id) now
        (auto_confirm deal now (
          sync_governance deal ApprovalState.approved false
            (modify_deal deal.id (approve_deal req.risk_assessment_id now) w)))

  -- The branches on the action, from the state in which the action is recorded.
  unfoldable pub perform :
      ApprovalActionType → Deal → ApprovalRequest → Actor → Option String → ℕ → World S → World S
  perform ApprovalActionType.approve deal req actor reason now w =
      let closed =
        record_audit_event AuditEventType.approval_approved (some req.id) deal.id ActorType.user
          (some actor.odoo_user_id) now
          (modify_request req.id
            (close_request ApprovalRequestStatus.approved actor.odoo_user_id now reason) w) in
      if needs_finance deal.required_level req.required_level
      then open_finance_stage deal req now closed
      else final_approval deal req now closed
  perform ApprovalActionType.reject deal req actor reason now w =
      create_notification deal.owner_odoo_user_id NotificationType.approval_rejected deal.id none
        now
        (record_audit_event AuditEventType.approval_rejected (some req.id) deal.id ActorType.user
          (some actor.odoo_user_id) now
          (sync_governance deal ApprovalState.rejected true (
            modify_deal deal.id (decide_deal ApprovalState.rejected now) (
              modify_request req.id
                (close_request ApprovalRequestStatus.rejected actor.odoo_user_id now reason) w))))
  perform ApprovalActionType.return deal req actor reason now w =
      create_notification deal.owner_odoo_user_id NotificationType.approval_returned deal.id none
        now
        (record_audit_event AuditEventType.approval_returned (some req.id) deal.id ActorType.user
          (some actor.odoo_user_id) now
          (sync_governance deal ApprovalState.returned false (
            modify_deal deal.id (decide_deal ApprovalState.returned now) (
              modify_request req.id
                (close_request ApprovalRequestStatus.returned actor.odoo_user_id now reason) w))))
  perform ApprovalActionType.escalate deal req actor reason now w =
      create_notification deal.owner_odoo_user_id NotificationType.approval_escalated deal.id none
        now
        (record_audit_event AuditEventType.approval_escalated (some req.id) deal.id ActorType.user
          (some actor.odoo_user_id) now
          (modify_request req.id (λ r. record r { decision_reason = reason }) w))
  perform ApprovalActionType.invalidate deal req actor reason now w = w

  unfoldable pub decide_approval_request :
      ℕ → Actor → ApprovalActionType → Option String → ℕ → World S → Result (World S)
  decide_approval_request request_id actor action reason now w = do
    req ← or_raise (find_request request_id w) entity_not_found
    raise_if (not (is_pending req.status)) request_not_pending
    deal ← or_raise (find_deal req.deal_id w) entity_not_found
    raise_if (deal.owner_odoo_user_id == actor.odoo_user_id) own_deal
    raise_if (not (may_decide actor.role req.required_level)) forbidden
    ok (perform action deal req actor reason now (record_action action req actor reason now w))
