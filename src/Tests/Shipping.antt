-- ===== src/Tests/Shipping.antt =====
-- A plan of a confirmed deal that is proposed, accepted and applied.
use chumma.Base.{
  ◌⊎◌, ℕ, String, ◌≡◌, refl, Bool, true, false, none, some, List, [], ◌∷◌, map, arith,
}
use chumma.Base.Int.{pos}
use chumma.Enums.{AuditEventType, DealStatus, FulfillmentPlanStatus}
use chumma.Fulfillment.{FulfillmentResult}
use chumma.Fulfillment.Plan.{calculate_fulfillment_plan}
use chumma.State.{ActorType, Deal, World, Gateway, ok}
use chumma.State.Plans.{Shipment, FulfillmentPlan, RawProduct, RawWarehouse}
use chumma.State.Tables.{find_deal, modify_deal, touch, record_audit_event}
use chumma.PlanService.{
  find_plan, modify_plan, set_accepted_plan, record_applied, accept_fulfillment_plan,
  apply_fulfillment_plan, send_plan,
}
use chumma.PlanService.Propose.{
  new_profiles, stockable_lines, warehouse_info, active_profiles, ensure_profiles, availability_of,
  store_plan, plan_for, propose_fulfillment_plan, new_plan,
}
use chumma.PlanService.Life.{status_in}
use chumma.PlanService.Run.{
  PlanRun, idle, further, proposes, accepts, applies, IsSingle, run-IsSingle, applied_stays,
}
use chumma.PlanService.Outcome.{Sends, apply_outcome}
use chumma.PlanService.Quantities.{AreLines, run-AreLines}
use chumma.Tests.Governance.{start, deal, manager}
use chumma.Tests.Evaluations.{selling, raw_line}

abbrev warehouses : List RawWarehouse
warehouses = record { id = 1; name = "Main" } ∷ record { id = 2; name = "North" } ∷ []

abbrev products : List (ℕ × RawProduct)
products = (31, record { is_stockable = true; is_recurring = false }) ∷ []

abbrev shipping : Gateway ℕ
shipping = record selling {
  get_products = λ ids n. some products;
  get_warehouses = λ n. some warehouses;
}

abbrev never_blank : String → Bool
never_blank reason = false

abbrev confirmed_deal : Deal
confirmed_deal = record deal { status = DealStatus.confirmed }

abbrev order_placed : World ℕ
order_placed = record start { deals = confirmed_deal ∷ [] }

abbrev with_profiles : World ℕ
with_profiles = ensure_profiles warehouses order_placed

abbrev plan : FulfillmentResult
plan =
    calculate_fulfillment_plan (stockable_lines products (raw_line ∷ []))
      (map (warehouse_info warehouses) (active_profiles with_profiles))
      (availability_of ((31, (1, pos 5) ∷ []) ∷ [])) none

abbrev proposed_world : World ℕ
proposed_world = (store_plan confirmed_deal plan 9 with_profiles).0

proposing : propose_fulfillment_plan shipping 1 none 9 order_placed ≡ ok (proposed_world, 8)
unfolding propose_fulfillment_plan plan_for store_plan
proposing = refl

abbrev stored : FulfillmentPlan
stored = new_plan 8 confirmed_deal plan 9

abbrev accepted_world : World ℕ
accepted_world =
    record_audit_event AuditEventType.fulfillment_accepted (some 8) 1 ActorType.user (some 20) 10
      (modify_deal 1 (touch 10) (modify_plan 8 (set_accepted_plan manager 10) proposed_world))

accepting : accept_fulfillment_plan 1 8 manager 10 proposed_world ≡ ok accepted_world
unfolding accept_fulfillment_plan store_plan record_audit_event
accepting = refl

abbrev applied_world : World ℕ
applied_world =
    record_applied shipping (touch 10 confirmed_deal) (set_accepted_plan manager 10 stored) (0 ∷ [])
      manager 11 (record accepted_world { odoo = 10000 })

applying : apply_fulfillment_plan shipping 1 8 manager 11 accepted_world ≡ ok applied_world
unfolding apply_fulfillment_plan send_plan store_plan record_audit_event
applying = refl

abbrev whole_run : PlanRun shipping never_blank order_placed applied_world
whole_run =
    further
      (further (further idle (proposes 1 none 9 order_placed (proposed_world, 8) proposing))
        (accepts 1 8 manager 10 proposed_world accepted_world accepting))
      (applies 1 8 manager 11 accepted_world applied_world applying)

run-IsSingle_example : IsSingle applied_world.plans
run-IsSingle_example = run-IsSingle shipping never_blank whole_run (λ k. omega arith)

run-AreLines_example : AreLines applied_world
run-AreLines_example = run-AreLines shipping never_blank whole_run tt

apply_outcome_example :
    (d : Deal) × (p : FulfillmentPlan) × (payload : List Shipment) × (pickings : List ℕ)
    × (find_deal 1 accepted_world ≡ some d)
    × ((d.status ≡ DealStatus.confirmed) ⊎ (d.status ≡ DealStatus.in_fulfillment))
    × (find_plan 8 1 accepted_world ≡ some p)
    × ((p.status ≡ FulfillmentPlanStatus.accepted) ⊎ (p.status ≡ FulfillmentPlanStatus.overridden))
    × Sends p.id accepted_world.plan_lines payload
    × (let call =
          shipping.apply_fulfillment_plan d.odoo_sale_order_id payload accepted_world.odoo in
        (call.1 ≡ some pickings) × (applied_world.odoo ≡ call.0))
    × (status_in p.id applied_world.plans ≡ some FulfillmentPlanStatus.applied)
    × ((e : Deal) × (find_deal 1 applied_world ≡ some e) × (e.status ≡ DealStatus.in_fulfillment))
apply_outcome_example = apply_outcome shipping 1 8 manager 11 accepted_world applied_world applying

-- After the application another plan is proposed.
abbrev active_deal : Deal
active_deal = record confirmed_deal { status = DealStatus.in_fulfillment; last_activity_at = 11 }

abbrev proposed_again : World ℕ × ℕ
proposed_again = store_plan active_deal plan 12 applied_world

applied_at_8 : status_in 8 applied_world.plans ≡ some FulfillmentPlanStatus.applied
unfolding store_plan record_audit_event
applied_at_8 = refl

proposing_again :
    propose_fulfillment_plan shipping 1 none 12 applied_world
    ≡ ok (proposed_again.0, proposed_again.1)
unfolding propose_fulfillment_plan plan_for store_plan record_audit_event new_profiles
proposing_again = refl

applied_stays_example : status_in 8 proposed_again.0.plans ≡ some FulfillmentPlanStatus.applied
applied_stays_example =
    applied_stays shipping never_blank 8
      (further idle
        (proposes 1 none 12 applied_world (proposed_again.0, proposed_again.1) proposing_again))
      applied_at_8
