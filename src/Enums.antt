-- ===== src/Enums.antt =====
-- The enumerations of app/models/enums.py. A column that stores an enumeration's text is modelled
-- by the enumeration: the code writes these columns from the enumerations' values alone.

-- `Role`, of app/models/enums.py and app/core/rbac.py.
pub data Role : Type 0 where
  admin sales_manager sales_rep finance customer : Role

pub data DealStatus : Type 0 where
  draft sent under_negotiation confirmed in_fulfillment fulfilled invoiced paid cancelled expired :
      DealStatus

pub data ApprovalState : Type 0 where
  not_evaluated evaluated_no_approval pending_manager pending_finance approved rejected returned :
      ApprovalState
  invalidated : ApprovalState

pub data ApprovalLevel : Type 0 where
  none manager manager_and_finance : ApprovalLevel

-- `ApprovalRequest.required_level`, the text 'SALES_MANAGER' or 'FINANCE'.
pub data Stage : Type 0 where
  sales_manager finance : Stage

pub data ApprovalRequestStatus : Type 0 where
  pending approved rejected returned invalidated expired : ApprovalRequestStatus

pub data ApprovalActionType : Type 0 where
  approve reject return escalate invalidate : ApprovalActionType

pub data RiskSeverity : Type 0 where
  low medium high : RiskSeverity

pub data RiskFactorType : Type 0 where
  discount_excess margin_exposure inventory_risk approval_delay negotiation_pressure :
      RiskFactorType

pub data HealthStatus : Type 0 where
  healthy watch at_risk : HealthStatus

pub data TriggerType : Type 0 where
  deal_created discount_changed line_added line_removed quantity_changed : TriggerType
  customer_negotiated negotiation_accepted approval_completed stock_changed : TriggerType
  order_stalled manual sync : TriggerType

pub data MaterialChangeKind : Type 0 where
  discount quantity line_added line_removed customer_counter : MaterialChangeKind
  payment_terms subscription_terms fulfillment_risk : MaterialChangeKind

pub data NegotiationRequestType : Type 0 where
  comment qty_change remove_line add_line counter_discount : NegotiationRequestType

pub data NegotiationRequestStatus : Type 0 where
  opened accepted rejected countered withdrawn : NegotiationRequestStatus

pub data FulfillmentPlanStatus : Type 0 where
  proposed accepted overridden applied superseded cancelled : FulfillmentPlanStatus

pub data NextBestActionType : Type 0 where
  finance_approval_required manager_approval_required reduce_discount : NextBestActionType
  restore_margin reapproval_required respond_to_customer : NextBestActionType
  accept_fulfillment_plan consolidate_backorder add_recommendation : NextBestActionType
  send_to_customer follow_up_customer confirm_order awaiting_approver none : NextBestActionType

-- The events that the modelled operations record.
pub data AuditEventType : Type 0 where
  risk_recalculated approval_created approval_approved approval_rejected : AuditEventType
  approval_returned approval_escalated approval_invalidated : AuditEventType
  negotiation_received negotiation_responded customer_confirmed : AuditEventType
  fulfillment_planned fulfillment_accepted fulfillment_overridden : AuditEventType
  fulfillment_applied fulfillment_replanned order_confirmed : AuditEventType
  deal_created deal_synced line_changed : AuditEventType
