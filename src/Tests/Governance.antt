-- ===== src/Tests/Governance.antt =====
-- A deal of the governance services on its way through both stages of approval.
use chumma.Base.{
  ◌↔◌, ℕ, ◌+◌, ◌≡◌, refl, true, false, none, some, [], ◌∷◌, arith, ◌==◌, if◌then◌else◌,
}
use chumma.Base.Decimal.{dec}
use chumma.Enums.{
  HealthStatus, Role, DealStatus, ApprovalState, ApprovalLevel, Stage, ApprovalRequestStatus,
  ApprovalActionType,
}
use chumma.State.{Deal, ApprovalRequest, Actor, World, Gateway, ok, err, request_not_pending}
use chumma.State.Tables.{find_deal, find_request}
use chumma.Routing.{apply_approval_routing, is_pending}
use chumma.Approval.{perform, record_action, decide_approval_request}
use chumma.Approval.Effect.{state_of, replace, new_state}
use chumma.Approval.Guards.{MayDecide, decide_accepted_iff}
use chumma.Approval.Closed.{decide_once}
use chumma.Approval.Consistent.{IsConsistent, decide-IsConsistent}
use chumma.Approval.Routed.{routing-IsConsistent}
use chumma.Approval.Run.{Run, decides, routes, stop, next, run-IsConsistent, decide_state}

-- An Odoo that counts its calls: 1 for a synchronisation, 100 for a confirmation.
abbrev pub counting : Gateway ℕ
counting = record {
  get_sale_order = λ id n. none;
  get_availability = λ ids places n. none;
  get_products = λ ids n. none;
  get_warehouses = λ n. none;
  set_governance = λ order state score locked n. (n + 1, true);
  confirm = λ order n. (n + 100, true);
  apply_line_changes = λ order changes n. (n + 1000, true);
  add_line = λ order product quantity n. (n + 1000, true);
  apply_fulfillment_plan = λ order shipments n. (n + 10000, some (n ∷ []));
}

abbrev pub deal : Deal
deal = record {
  id = 1;
  reference = 1001;
  odoo_sale_order_id = 40;
  odoo_partner_id = 7;
  owner_odoo_user_id = 10;
  odoo_company_id = 1;
  tier_code = some 2;
  status = DealStatus.sent;
  approval_state = ApprovalState.pending_manager;
  health_status = HealthStatus.healthy;
  current_risk_score = some (dec 5500 2);
  current_severity = none;
  current_assessment_id = some 3;
  approved_assessment_id = none;
  required_level = ApprovalLevel.manager_and_finance;
  order_discount_pct = dec 1250 2;
  amount_total_cache = dec 18574 2;
  amount_untaxed_cache = dec 15741 2;
  margin_pct_cache = dec 4282 2;
  one_time_total_cache = dec 0 2;
  recurring_first_cycle_total_cache = dec 15741 2;
  customer_confirmed_pending = false;
  confirmed_at = none;
  last_activity_at = 0;
  last_synced_at = 0;
  version = 1;
}

abbrev pub request : ApprovalRequest
request = record {
  id = 5;
  deal_id = 1;
  risk_assessment_id = 3;
  required_level = Stage.sales_manager;
  sequence = 1;
  status = ApprovalRequestStatus.pending;
  requested_at = 0;
  completed_at = none;
  decided_by = none;
  decision_reason = none;
}

abbrev pub start : World ℕ
start = record {
  deals = deal ∷ [];
  sequences = [];
  assessments = [];
  factors = [];
  requests = request ∷ [];
  actions = [];
  audits = [];
  notifications = [];
  negotiations = [];
  changes = [];
  comments = [];
  plans = [];
  plan_lines = [];
  profiles = [];
  next_id = 6;
  odoo = 0;
}

abbrev pub manager : Actor
manager = record { odoo_user_id = 20; role = Role.sales_manager }

abbrev financier : Actor
financier = record { odoo_user_id = 30; role = Role.finance }

-- After the manager's approval.
abbrev pub approved_once : World ℕ
approved_once =
    perform counting ApprovalActionType.approve deal request manager none 9
      (record_action ApprovalActionType.approve request manager none 9 start)

pub accepted :
    decide_approval_request counting 5 manager ApprovalActionType.approve none 9 start
    ≡ ok approved_once
unfolding decide_approval_request
accepted = refl

decide_accepted_iff_example :
    ((v : World ℕ) × (decide_approval_request counting 5 manager ApprovalActionType.approve none 9
          start
        ≡ ok v))
    ↔ MayDecide 5 manager start
decide_accepted_iff_example =
    decide_accepted_iff counting 5 manager ApprovalActionType.approve none 9 start

pub start-IsConsistent : IsConsistent start
unfolding state_of
start-IsConsistent k s st h = ground arith

decide-IsConsistent_example : IsConsistent approved_once
decide-IsConsistent_example =
    decide-IsConsistent counting 5 manager ApprovalActionType.approve none 9 start approved_once
      start-IsConsistent accepted

routing-IsConsistent_example :
    IsConsistent (apply_approval_routing deal 4 ApprovalLevel.manager false 9 start).0
routing-IsConsistent_example =
    routing-IsConsistent deal 4 ApprovalLevel.manager false 9 start start-IsConsistent

-- The manager approves, and the deal is evaluated again.
abbrev pub approve_and_route :
    Run counting start
      (apply_approval_routing deal 4 ApprovalLevel.manager false 11 approved_once).0
approve_and_route =
    next
      (next stop (decides 5 manager ApprovalActionType.approve none 9 start approved_once accepted))
      (routes deal 4 ApprovalLevel.manager false 11 approved_once)

run-IsConsistent_example :
    IsConsistent (apply_approval_routing deal 4 ApprovalLevel.manager false 11 approved_once).0
run-IsConsistent_example = run-IsConsistent counting approve_and_route start-IsConsistent

-- The run that follows the manager's approval: the deal is evaluated again.
abbrev route_again :
    Run counting approved_once
      (apply_approval_routing deal 4 ApprovalLevel.manager false 11 approved_once).0
route_again = next stop (routes deal 4 ApprovalLevel.manager false 11 approved_once)

decide_once_example :
    decide_approval_request counting 5 financier ApprovalActionType.reject none 12
      (apply_approval_routing deal 4 ApprovalLevel.manager false 11 approved_once).0
    ≡ err request_not_pending
decide_once_example =
    decide_once counting 5 manager ApprovalActionType.approve none 9 start approved_once
      (apply_approval_routing deal 4 ApprovalLevel.manager false 11 approved_once).0 refl accepted
      route_again financier ApprovalActionType.reject none 12

decide_state_example :
    (req : ApprovalRequest) × (d : Deal) × (find_request 5 start ≡ some req)
    × (is_pending req.status ≡ true)
    × (find_deal req.deal_id start ≡ some d)
    × ((j : ℕ)
        → state_of j approved_once ≡ (
            if req.deal_id == j
            then replace
                (new_state ApprovalActionType.approve d.required_level req.required_level)
                (state_of j start)
            else state_of j start))
decide_state_example =
    decide_state counting 5 manager ApprovalActionType.approve none 9 start approved_once accepted
