-- ===== src/Routing.antt =====
-- app/guardian/approval_routing.py: the approval requests that follow an evaluation.
pub mod Pending
use chumma.Base.{
  ℕ, ◌+◌, Bool, true, false, ◌&&◌, none, some, List, [], ◌∷◌, ◌++◌, map, ◌==◌, if◌then◌else◌,
  keep_if,
}
use chumma.Enums.{ApprovalState, ApprovalLevel, ApprovalRequestStatus, AuditEventType, Stage}
use chumma.State.{Deal, ApprovalRequest, ActorType, World}
use chumma.State.Tables.{modify_deal, record_audit_event}

abbrev pub is_pending : ApprovalRequestStatus → Bool
is_pending ApprovalRequestStatus.pending = true
is_pending _ = false

abbrev pub is_approved : ApprovalState → Bool
is_approved ApprovalState.approved = true
is_approved _ = false

-- The filter of `pending_requests`.
abbrev pub is_pending_for : ℕ → ApprovalRequest → Bool
is_pending_for deal r = (r.deal_id == deal) && is_pending r.status

abbrev pub supersede : ℕ → ApprovalRequest → ApprovalRequest
supersede now r = record r {
  status = ApprovalRequestStatus.invalidated;
  completed_at = some now;
  decision_reason = some "Superseded by re-evaluation";
}

abbrev pub supersede_all : ℕ → ℕ → List ApprovalRequest → List ApprovalRequest
supersede_all deal now = map (λ r. if is_pending_for deal r then supersede now r else r)

abbrev pub set_state : ApprovalState → Deal → Deal
set_state s d = record d { approval_state = s }

module _ {S : Type 0} where
  -- An audit event for each of the invalidated requests.
  unfoldable pub audit_superseded : ℕ → ℕ → List ApprovalRequest → World S → World S
  audit_superseded deal now [] w = w
  audit_superseded deal now (r ∷ rs) w = audit_superseded deal now rs (
      record_audit_event AuditEventType.approval_invalidated (some r.id) deal ActorType.system none
        now w)

  unfoldable pub invalidate_pending : ℕ → ℕ → World S → World S
  invalidate_pending deal now w =
      audit_superseded deal now (keep_if (is_pending_for deal) w.requests)
        (record w { requests = supersede_all deal now w.requests })

  -- `db.add(ApprovalRequest(...)); db.flush()`
  abbrev pub add_request : ℕ → ℕ → Stage → ℕ → ℕ → World S → World S
  add_request deal assessment stage sequence now w = record w {
    requests =
        w.requests
        ++ record {
          id = w.next_id;
          deal_id = deal;
          risk_assessment_id = assessment;
          required_level = stage;
          sequence = sequence;
          status = ApprovalRequestStatus.pending;
          requested_at = now;
          completed_at = none;
          decided_by = none;
          decision_reason = none;
        }
          ∷ [];
    next_id = w.next_id + 1;
  }

  -- The request for the first stage, which `MANAGER` and `MANAGER_AND_FINANCE` both begin with.
  unfoldable pub request_manager : ℕ → ℕ → ℕ → World S → World S
  request_manager deal assessment now w =
      record_audit_event AuditEventType.approval_created (some w.next_id) deal ActorType.system none
        now
        (modify_deal deal (set_state ApprovalState.pending_manager)
          (add_request deal assessment Stage.sales_manager 1 now w))

  -- The routing of a deal that is not covered. The code's last two lines, for another level than the
  -- three, are never reached.
  unfoldable pub route : ApprovalLevel → ℕ → ℕ → ℕ → World S → World S × ApprovalState
  route ApprovalLevel.none deal assessment now w = (
    modify_deal deal (set_state ApprovalState.evaluated_no_approval) w,
    ApprovalState.evaluated_no_approval,
  )
  route _ deal assessment now w =
      (request_manager deal assessment now w, ApprovalState.pending_manager)

  unfoldable pub apply_approval_routing :
      Deal → ℕ → ApprovalLevel → Bool → ℕ → World S → World S × ApprovalState
  apply_approval_routing deal assessment level is_covered now w =
      if is_covered && is_approved deal.approval_state
      then (w, ApprovalState.approved)
      else route level deal.id assessment now (invalidate_pending deal.id now w)
