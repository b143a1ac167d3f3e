-- ===== src/PlanService/Override.antt =====
-- `override_fulfillment_plan` of app/services/fulfillment_service.py, for items of the schema of
-- app/schemas/fulfillment.py. `is_blank` tells whether nothing is left of a text after Python's
-- `strip`. The identifiers of an order's lines, and of the profiles' warehouses, differ.
use chumma.Base.{
  ℕ, String, Bool, true, false, not, ◌&&◌, Option, none, some, List, [], ◌∷◌, ◌++◌, map, ◌==◌,
  if◌then◌else◌, length, keep_if, any, find_first,
}
use chumma.Base.Int.{ℤ, pos, ◌+ℤ◌, ltb_ℤ, leb_ℤ}
use chumma.Base.Decimal.{Decimal, dec, sum_from}
use chumma.Enums.{AuditEventType, FulfillmentPlanStatus}
use chumma.Context.Build.{RawOrderLine}
use chumma.State.{
  ◌>>=◌, ◌>>◌, Deal, Actor, ActorType, World, Gateway, Result, ok, raise_if, or_raise,
  entity_not_found, invalid_plan_status, invalid_line_id, type_error, reason_required, odoo_failed,
}
use chumma.State.Plans.{FulfillmentPlan, FulfillmentPlanLine, WarehouseProfile, manual}
use chumma.State.Tables.{modify_deal, touch, find_deal, record_audit_event}
use chumma.PlanService.{find_plan, modify_plan}
use chumma.PlanService.Propose.{add_id}

pub record OverrideItem : Type 0 where
  pub odoo_sale_order_line_id : Option ℕ
  pub line_id : Option ℕ
  pub odoo_product_id : Option ℕ
  pub product_id : Option ℕ
  pub odoo_warehouse_id : Option ℕ
  pub warehouse_id : Option ℕ
  pub allocated_qty : Option ℤ
  pub qty : Option ℤ
  pub backorder_qty : Option ℤ

-- `a or b`: the number 0 counts as missing.
abbrev pub or_id : Option ℕ → Option ℕ → Option ℕ
or_id none b = b
or_id (some i) b = if i == 0 then b else some i

abbrev pub or_zero : Option ℤ → ℤ
or_zero none = pos 0
or_zero (some q) = q

-- The allocated quantity, of either name.
abbrev pub item_quantity : OverrideItem → Option ℤ
item_quantity i = elim i.allocated_qty [ some q ↦ some q | none ↦ i.qty ]

-- The order's line that an item names.
abbrev pub line_for : List RawOrderLine → Option ℕ → Option RawOrderLine
line_for ls none = none
line_for ls (some i) = if i == 0 then none else find_first (λ l. l.id == i) ls

abbrev pub product_for : RawOrderLine → Option ℕ → ℕ
product_for l none = l.product_id
product_for l (some i) = if i == 0 then l.product_id else i

abbrev pub weight_at : List WarehouseProfile → ℕ → Decimal
weight_at profiles i = elim (find_first (λ p. p.odoo_warehouse_id == i) profiles) [
  | none ↦ dec 0 2
  | some p ↦ p.shipping_cost_weight
]

-- The warehouse that an item ships from, if any.
abbrev pub ships_from : Option ℕ → ℤ → Option ℕ
ships_from none q = none
ships_from (some i) q = if not (i == 0) && ltb_ℤ (pos 0) q then some i else none

-- The lines so far, and the warehouses used.
pub record Overridden : Type 0 where
  pub lines : List FulfillmentPlanLine
  pub warehouses_used : List ℕ

module _ (plan : ℕ) (profiles : List WarehouseProfile) where
  -- An item with its line and quantities; one without a positive quantity is passed over.
  abbrev pub add_line : OverrideItem → RawOrderLine → ℤ → Overridden → Overridden
  add_line i l q v =
      let missing = or_zero i.backorder_qty in
      let warehouse = or_id i.odoo_warehouse_id i.warehouse_id in
      let from = ships_from warehouse q in
      if leb_ℤ (q +ℤ missing) (pos 0) then v else record {
        lines =
            v.lines
            ++ record {
              fulfillment_plan_id = plan;
              odoo_sale_order_line_id = l.id;
              odoo_product_id = product_for l (or_id i.odoo_product_id i.product_id);
              odoo_warehouse_id = warehouse;
              requested_qty = q +ℤ missing;
              allocated_qty = q;
              backorder_qty = missing;
              shipping_cost = elim from [ none ↦ dec 0 2 | some w ↦ weight_at profiles w ];
            }
              ∷ [];
        warehouses_used = elim from [
          | none ↦ v.warehouses_used
          | some w ↦ add_id v.warehouses_used w
        ];
      }

  unfoldable pub override_lines :
      List RawOrderLine → List OverrideItem → Overridden → Result Overridden
  override_lines ls [] v = ok v
  override_lines ls (i ∷ is) v =
      or_raise (line_for ls (or_id i.odoo_sale_order_line_id i.line_id)) invalid_line_id >>= λ l.
      or_raise (item_quantity i) type_error >>= λ q. override_lines ls is (add_line i l q v)

module _ (profiles : List WarehouseProfile) where
  -- `sum(...)` over the used warehouses that have a profile.
  unfoldable pub estimated_cost : List ℕ → Decimal
  estimated_cost used =
      sum_from (dec 0 0) (
        map (weight_at profiles) (keep_if (λ i. any (λ p. p.odoo_warehouse_id == i) profiles) used))

abbrev pub set_overridden : Overridden → Decimal → Actor → ℕ → FulfillmentPlan → FulfillmentPlan
set_overridden v cost actor now p = record p {
  status = FulfillmentPlanStatus.overridden;
  strategy = manual;
  estimated_shipments = length v.warehouses_used;
  estimated_shipping_cost = cost;
  accepted_by_odoo_user_id = some actor.odoo_user_id;
  accepted_at = some now;
}

abbrev pub can_override : FulfillmentPlanStatus → Bool
can_override FulfillmentPlanStatus.proposed = true
can_override FulfillmentPlanStatus.accepted = true
can_override _ = false

module _ {S : Type 0} where
  unfoldable pub store_override : Deal → ℕ → Overridden → Actor → ℕ → World S → World S
  store_override deal plan v actor now w =
      record_audit_event AuditEventType.fulfillment_overridden (some plan) deal.id ActorType.user
        (some actor.odoo_user_id) now
        (modify_deal deal.id (touch now) (
          modify_plan plan
            (set_overridden v (estimated_cost w.profiles v.warehouses_used) actor now)
            (record w {
              plan_lines =
                  keep_if (λ l. not (l.fulfillment_plan_id == plan)) w.plan_lines ++ v.lines;
            })))

module _ {S : Type 0} (gateway : Gateway S) (is_blank : String → Bool) where
  unfoldable pub override_fulfillment_plan :
      ℕ → ℕ → List OverrideItem → Actor → String → ℕ → World S → Result (World S)
  override_fulfillment_plan deal_id plan_id allocations actor reason now w = do
    raise_if (is_blank reason) reason_required
    plan ← or_raise (find_plan plan_id deal_id w) entity_not_found
    raise_if (not (can_override plan.status)) invalid_plan_status
    deal ← or_raise (find_deal deal_id w) type_error
    order ← or_raise (gateway.get_sale_order deal.odoo_sale_order_id w.odoo) odoo_failed
    made ←
        override_lines plan.id w.profiles order.lines allocations
          (record { lines = []; warehouses_used = [] })
    ok (store_override deal plan.id made actor now w)
