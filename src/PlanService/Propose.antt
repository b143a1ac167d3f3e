-- ===== src/PlanService/Propose.antt =====
-- `propose_fulfillment_plan` and `consolidate_backorder` of app/services/fulfillment_service.py. A
-- set of identifiers is listed in the order of first occurrence. The name that a warehouse unknown
-- to Odoo gets has no number here; plans do not read names.
use chumma.Base.{
  ℕ, ◌+◌, String, Bool, true, false, not, ◌&&◌, Option, none, some, List, [], ◌∷◌, ◌++◌, map, ◌==◌,
  if◌then◌else◌, length, keep_if, any,
}
use chumma.Base.Int.{ℤ, pos}
use chumma.Base.Decimal.{Decimal, dec, lt_dec}
use chumma.Enums.{AuditEventType, FulfillmentPlanStatus}
use chumma.Context.{int_of, lookup}
use chumma.Context.Build.{RawOrder, RawOrderLine, StockMap}
use chumma.Fulfillment.{
  StockableLine, WarehouseInfo, PlanAllocation, FulfillmentResult, Strategy, Availability,
}
use chumma.Fulfillment.Plan.{calculate_fulfillment_plan}
use chumma.State.{
  ◌>>=◌, ◌>>◌, Deal, Actor, ActorType, World, Gateway, Result, ok, raise_if, or_raise, no_lines,
  odoo_failed,
}
use chumma.State.Plans.{
  FulfillmentPlan, FulfillmentPlanLine, WarehouseProfile, RawProduct, RawWarehouse, computed,
}
use chumma.State.Tables.{modify_deal, touch, record_audit_event}
use chumma.Deals.{get_deal_by_id}
use chumma.PlanService.{is_proposal}

-- `list({...})`
abbrev pub add_id : List ℕ → ℕ → List ℕ
add_id seen i = if any (λ j. j == i) seen then seen else seen ++ i ∷ []

unfoldable pub distinct_ids : List ℕ → List ℕ → List ℕ
distinct_ids seen [] = seen
distinct_ids seen (i ∷ is) = distinct_ids (add_id seen i) is

-- The lines of products that are stored and do not recur, with a positive quantity.
abbrev pub is_to_ship : List (ℕ × RawProduct) → RawOrderLine → Bool
is_to_ship products l =
    elim (lookup l.product_id products) [
      | none ↦ false
      | some p ↦ p.is_stockable && not p.is_recurring
    ]
    && lt_dec (dec 0 0) l.qty

abbrev pub stockable_lines : List (ℕ × RawProduct) → List RawOrderLine → List StockableLine
stockable_lines products ls =
    map (λ l. record { line_id = l.id; product_id = l.product_id; requested_qty = int_of l.qty })
      (keep_if (is_to_ship products) ls)

-- `default_weights.get(id, ...)`
abbrev pub default_weight : ℕ → Decimal
default_weight id = if id == 2 then dec 1500 2 else if id == 3 then dec 2500 2 else dec 1000 2

abbrev pub default_priority : ℕ → ℤ
default_priority id = if id == 2 then pos 2 else if id == 3 then pos 3 else pos 1

unfoldable pub new_profiles : ℕ → List RawWarehouse → List WarehouseProfile
new_profiles id [] = []
new_profiles id (w ∷ ws) =
    record {
      id = id;
      odoo_warehouse_id = w.id;
      shipping_cost_weight = default_weight w.id;
      priority = default_priority w.id;
      lead_time_days = pos 0;
      active = true;
    }
    ∷ new_profiles (id + 1) ws

-- `wh_map.get(id, ...)`: the last of equal identifiers.
unfoldable pub name_of : String → ℕ → List RawWarehouse → String
name_of default id [] = default
name_of default id (w ∷ ws) = name_of (if w.id == id then w.name else default) id ws

abbrev pub warehouse_info : List RawWarehouse → WarehouseProfile → WarehouseInfo
warehouse_info raw p = record {
  warehouse_id = p.odoo_warehouse_id;
  name = name_of "Warehouse" p.odoo_warehouse_id raw;
  shipping_cost_weight = p.shipping_cost_weight;
  priority = p.priority;
  active = p.active;
}

abbrev pub availability_of : StockMap → Availability
availability_of stock pid wid = elim (lookup pid stock) [
  | none ↦ none
  | some here ↦ lookup wid here
]

-- A line of the plan, for an allocation and for a backorder.
abbrev pub plan_line : ℕ → PlanAllocation → FulfillmentPlanLine
plan_line plan a = record {
  fulfillment_plan_id = plan;
  odoo_sale_order_line_id = a.line_id;
  odoo_product_id = a.product_id;
  odoo_warehouse_id = a.warehouse_id;
  requested_qty = pos a.requested_qty;
  allocated_qty = pos a.allocated_qty;
  backorder_qty = pos a.backorder_qty;
  shipping_cost = a.shipping_cost;
}

abbrev pub backorder_line : ℕ → PlanAllocation → FulfillmentPlanLine
backorder_line plan a = record (plan_line plan a) { odoo_warehouse_id = none }

-- The existing proposals of the deal.
abbrev pub supersede_plan : ℕ → FulfillmentPlan → FulfillmentPlan
supersede_plan deal p =
    if (p.deal_id == deal) && is_proposal p.status
    then record p { status = FulfillmentPlanStatus.superseded }
    else p

abbrev pub new_plan : ℕ → Deal → FulfillmentResult → ℕ → FulfillmentPlan
new_plan id deal r now = record {
  id = id;
  deal_id = deal.id;
  odoo_sale_order_id = deal.odoo_sale_order_id;
  status = FulfillmentPlanStatus.proposed;
  estimated_shipments = r.estimated_shipments;
  estimated_shipping_cost = r.estimated_shipping_cost;
  strategy = computed r.strategy;
  generated_at = now;
  accepted_by_odoo_user_id = none;
  accepted_at = none;
  applied_at = none;
  odoo_picking_ids = none;
}

module _ {S : Type 0} where
  abbrev pub active_profiles : World S → List WarehouseProfile
  active_profiles w = keep_if (λ p. p.active) w.profiles

  -- Where no profile is active, there is one for each warehouse of Odoo from then on.
  abbrev pub ensure_profiles : List RawWarehouse → World S → World S
  ensure_profiles raw w = if any (λ p. p.active) w.profiles then w else record w {
    profiles = w.profiles ++ new_profiles w.next_id raw;
    next_id = w.next_id + length raw;
  }

  unfoldable pub store_plan : Deal → FulfillmentResult → ℕ → World S → World S × ℕ
  store_plan deal r now w = (
    record_audit_event AuditEventType.fulfillment_planned (some w.next_id) deal.id ActorType.system
        none now
        (modify_deal deal.id (touch now) (record w {
          plans = map (supersede_plan deal.id) w.plans ++ new_plan w.next_id deal r now ∷ [];
          plan_lines =
              w.plan_lines
              ++ (map (plan_line w.next_id) r.allocations
                  ++ map (backorder_line w.next_id) r.backorders);
          next_id = w.next_id + 1;
        })),
    w.next_id,
  )

abbrev pub no_order_lines : RawOrder → Bool
no_order_lines o = elim o.lines [ [] ↦ true | l ∷ ls ↦ false ]

module _ {S : Type 0} (gateway : Gateway S) where
  -- The plan computed for the order, from Odoo's answers.
  unfoldable pub plan_for :
      RawOrder
      → List (ℕ × RawProduct)
      → List RawWarehouse
      → Option Strategy
      → World S
      → Result FulfillmentResult
  plan_for order products raw strategy w =
      let lines = stockable_lines products order.lines in
      let infos = map (warehouse_info raw) (active_profiles w) in
      or_raise
        (gateway.get_availability (distinct_ids [] (map (λ l. l.product_id) lines))
          (some (map (λ i. i.warehouse_id) infos)) w.odoo)
        odoo_failed
      >>= λ stock. ok (calculate_fulfillment_plan lines infos (availability_of stock) strategy)

  -- With the key of the new plan.
  unfoldable pub propose_fulfillment_plan : ℕ → Option Strategy → ℕ → World S → Result (World S × ℕ)
  propose_fulfillment_plan deal_id strategy now w = do
    deal ← get_deal_by_id deal_id w
    order ← or_raise (gateway.get_sale_order deal.odoo_sale_order_id w.odoo) odoo_failed
    raise_if (no_order_lines order) no_lines
    products ←
        or_raise
          (gateway.get_products (distinct_ids [] (map (λ l. l.product_id) order.lines)) w.odoo)
          odoo_failed
    raw ← or_raise (gateway.get_warehouses w.odoo) odoo_failed
    plan ← plan_for order products raw strategy (ensure_profiles raw w)
    ok (store_plan deal plan now (ensure_profiles raw w))

  unfoldable pub consolidate_backorder : ℕ → Actor → ℕ → World S → Result (World S × ℕ)
  consolidate_backorder deal_id actor now w = do
    deal ← get_deal_by_id deal_id w
    made ← propose_fulfillment_plan deal.id none now w
    ok (
      record_audit_event AuditEventType.fulfillment_replanned (some made.1) deal.id ActorType.user
          (some actor.odoo_user_id) now made.0,
      made.1,
    )
