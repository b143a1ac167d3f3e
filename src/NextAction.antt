-- ===== src/NextAction.antt =====
-- app/guardian/next_action.py: the next best action of a deal, by thirteen rules in order. Titles,
-- explanations, payloads and endpoints are left out: a rule's type and priority stand for it.
pub mod Order
use chumma.Base.{ℕ, Bool, true, false, ◌&&◌, ◌||◌, Option, none, some, ltb, leb, if◌then◌else◌}
use chumma.Base.Decimal.{Decimal, dec, lt_dec}
use chumma.Enums.{Role, DealStatus, ApprovalState, FulfillmentPlanStatus, NextBestActionType}

pub data Priority : Type 0 where
  high medium low : Priority

pub record NextBestAction : Type 0 where
  pub type : NextBestActionType
  pub priority : Priority

-- The arguments that a rule reads. `has_recommendation` is the truth of
-- `top_active_recommendation`.
pub record DealFacts : Type 0 where
  pub approval_state : ApprovalState
  pub deal_status : DealStatus
  pub just_invalidated : Bool
  pub open_negotiation_requests : ℕ
  pub max_overage : Decimal
  pub margin_exposure : Decimal
  pub has_recommendation : Bool
  pub fulfillment_plan_status : Option FulfillmentPlanStatus
  pub has_consolidatable_backorder : Bool
  pub days_since_activity : ℕ
  pub stalled_days : ℕ
  pub customer_confirmed_pending : Bool
  pub user_role : Option Role

abbrev pub is_finance_approver : Option Role → Bool
is_finance_approver (some Role.finance) = true
is_finance_approver (some Role.admin) = true
is_finance_approver _ = false

abbrev pub is_mgr_approver : Option Role → Bool
is_mgr_approver (some Role.sales_manager) = true
is_mgr_approver (some Role.admin) = true
is_mgr_approver _ = false

abbrev pub is_pending_finance : ApprovalState → Bool
is_pending_finance ApprovalState.pending_finance = true
is_pending_finance _ = false

abbrev pub is_pending_manager : ApprovalState → Bool
is_pending_manager ApprovalState.pending_manager = true
is_pending_manager _ = false

abbrev pub is_invalidated : ApprovalState → Bool
is_invalidated ApprovalState.invalidated = true
is_invalidated _ = false

abbrev pub is_refused : ApprovalState → Bool
is_refused ApprovalState.returned = true
is_refused ApprovalState.rejected = true
is_refused _ = false

abbrev pub is_cleared : ApprovalState → Bool
is_cleared ApprovalState.approved = true
is_cleared ApprovalState.evaluated_no_approval = true
is_cleared _ = false

abbrev pub is_proposed : Option FulfillmentPlanStatus → Bool
is_proposed (some FulfillmentPlanStatus.proposed) = true
is_proposed _ = false

abbrev pub is_draft : DealStatus → Bool
is_draft DealStatus.draft = true
is_draft _ = false

abbrev pub is_sent : DealStatus → Bool
is_sent DealStatus.sent = true
is_sent _ = false

abbrev pub is_confirmed : DealStatus → Bool
is_confirmed DealStatus.confirmed = true
is_confirmed _ = false

abbrev pub action : NextBestActionType → Priority → NextBestAction
action type priority = record { type = type; priority = priority }

abbrev pub is_above_zero : Decimal → Bool
is_above_zero d = lt_dec (dec 0 0) d

-- Rules 6 to 13, which no approval or negotiation pre-empts.
unfoldable pub later_rules : DealFacts → NextBestAction
later_rules f =
    if is_above_zero f.margin_exposure
    then action NextBestActionType.restore_margin Priority.medium
    else if is_proposed f.fulfillment_plan_status && is_confirmed f.deal_status
    then action NextBestActionType.accept_fulfillment_plan Priority.medium
    else if f.has_consolidatable_backorder
    then action NextBestActionType.consolidate_backorder Priority.medium
    else if is_draft f.deal_status && is_cleared f.approval_state
    then action NextBestActionType.send_to_customer Priority.medium
    else if is_sent f.deal_status && leb f.stalled_days f.days_since_activity
    then action NextBestActionType.follow_up_customer Priority.medium
    else if f.customer_confirmed_pending && is_cleared f.approval_state
    then action NextBestActionType.confirm_order Priority.high
    else if f.has_recommendation
    then action NextBestActionType.add_recommendation Priority.low
    else action NextBestActionType.none Priority.low

unfoldable pub determine_next_best_action : DealFacts → NextBestAction
determine_next_best_action f =
    if is_pending_finance f.approval_state
    then action
        (if is_finance_approver f.user_role
          then NextBestActionType.awaiting_approver
          else NextBestActionType.finance_approval_required)
        Priority.high
    else if is_pending_manager f.approval_state
    then action
        (if is_mgr_approver f.user_role
          then NextBestActionType.awaiting_approver
          else NextBestActionType.manager_approval_required)
        Priority.high
    else if f.just_invalidated || is_invalidated f.approval_state
    then action NextBestActionType.reapproval_required Priority.high
    else if ltb 0 f.open_negotiation_requests
    then action NextBestActionType.respond_to_customer Priority.high
    else if is_refused f.approval_state && is_above_zero f.max_overage
    then action NextBestActionType.reduce_discount Priority.high
    else later_rules f
