-- ===== src/PlanService.antt =====
-- app/services/fulfillment_service.py: the stored fulfillment plans of a deal. This file has the
-- acceptance, the application to Odoo and the warehouse profiles; `Propose` makes a plan and
-- `Override` replaces its lines by hand. The queries for lists and views are left out. Where Odoo
-- refuses to apply a plan, the call raises, and what Odoo then holds is not modelled.
pub mod Propose
pub mod Override
pub mod Life
pub mod Changes
pub mod Run
pub mod Outcome
pub mod Lines
pub mod Quantities
use chumma.Base.{
  subst, ℕ, zero, suc, ◌+◌, ◌-◌, ◌*◌, ◌/◌, ◌%◌, ◌^◌, ◌≤◌, ◌<◌, String, ◌≡◌, refl, sym, ap, ◌∙◌, ◌≢◌,
  ◌↔◌, ◌⊎◌, inl, inr, Bool, true, false, not, ◌&&◌, ◌||◌, Option, none, some, List, [], ◌∷◌, ◌++◌,
  map, arith, ltb, leb, ◌==◌, if◌then◌else◌, leb→le, ==_iff, ==_refl, Bool-cases, Option-cases,
  if-cases, is_some, length, keep_if, any, all, find_first, sum_of, All, sum_of-append,
  length-append, All-append, All-keep_if,
}
use chumma.Base.Int.{
  ℤ, pos, negsuc, pos_part, neg_part, sub_ℕ, ◌+ℤ◌, ◌-ℤ◌, ◌*ℤ◌, ◌≤ℤ◌, ltb_ℤ, leb_ℤ, eqb_ℤ, +ℤ_parts,
  -ℤ_parts, eq_of_parts, int_laws,
}
use chumma.Base.Decimal.{
  Decimal, dec, prec, digits_below, digit_count, round_half_even, round_half_up, on_magnitude, fix,
  aligned, ◌+ᵈ◌, ◌-ᵈ◌, ◌*ᵈ◌, ◌/ᵈ◌, lt_dec, le_dec, eq_dec, min_dec, max_dec, abs_dec, sum_from,
  quantize_dec, of_ℕ,
}
use chumma.Enums.{AuditEventType, DealStatus, FulfillmentPlanStatus}
use chumma.State.{
  ◌>>=◌, ◌>>◌, Deal, Actor, ActorType, World, Gateway, Result, ok, err, raise_if, or_raise,
  entity_not_found, invalid_plan_status, deal_not_confirmed, odoo_failed, duplicate_warehouse,
}
use chumma.State.Plans.{FulfillmentPlan, FulfillmentPlanLine, WarehouseProfile, Shipment}
use chumma.State.Tables.{find_row, modify_row, modify_deal, touch, find_deal, record_audit_event}
use chumma.Deals.{get_deal_by_id}

abbrev pub plan_id : FulfillmentPlan → ℕ
plan_id p = p.id

abbrev pub is_proposal : FulfillmentPlanStatus → Bool
is_proposal FulfillmentPlanStatus.proposed = true
is_proposal _ = false

-- The statuses that `apply_fulfillment_plan` takes.
abbrev pub is_ready : FulfillmentPlanStatus → Bool
is_ready FulfillmentPlanStatus.accepted = true
is_ready FulfillmentPlanStatus.overridden = true
is_ready _ = false

abbrev pub can_ship : DealStatus → Bool
can_ship DealStatus.confirmed = true
can_ship DealStatus.in_fulfillment = true
can_ship _ = false

-- A line as the payload names it, if it has a warehouse and a positive allocation.
abbrev pub shipment : FulfillmentPlanLine → List Shipment
shipment l = elim l.odoo_warehouse_id [
  | none ↦ []
  | some w ↦
      if ltb_ℤ (pos 0) l.allocated_qty
      then record {
        line_id = l.odoo_sale_order_line_id;
        product_id = l.odoo_product_id;
        warehouse_id = w;
        qty = l.allocated_qty;
      }
        ∷ []
      else []
]

unfoldable pub shipments : ℕ → List FulfillmentPlanLine → List Shipment
shipments plan [] = []
shipments plan (l ∷ ls) =
    if l.fulfillment_plan_id == plan then shipment l ++ shipments plan ls else shipments plan ls

abbrev pub set_accepted_plan : Actor → ℕ → FulfillmentPlan → FulfillmentPlan
set_accepted_plan actor now p = record p {
  status = FulfillmentPlanStatus.accepted;
  accepted_by_odoo_user_id = some actor.odoo_user_id;
  accepted_at = some now;
}

abbrev pub set_applied : List ℕ → ℕ → FulfillmentPlan → FulfillmentPlan
set_applied pickings now p = record p {
  status = FulfillmentPlanStatus.applied;
  applied_at = some now;
  odoo_picking_ids = some pickings;
}

abbrev pub set_in_fulfillment : ℕ → Deal → Deal
set_in_fulfillment now d = record d { status = DealStatus.in_fulfillment; last_activity_at = now }

-- `payload.field if it is not None`
abbrev pub given {ℓ} : {A : Type ℓ} → Option A → A → A
given none old = old
given (some new) old = new

pub record WarehouseProfileUpdate : Type 0 where
  pub shipping_cost_weight : Option Decimal
  pub priority : Option ℤ
  pub lead_time_days : Option ℤ
  pub active : Option Bool

abbrev profile_id : WarehouseProfile → ℕ
profile_id p = p.id

-- `db.delete(profile)`
abbrev pub remove_row : ℕ → List WarehouseProfile → List WarehouseProfile
remove_row id [] = []
remove_row id (p ∷ ps) = if p.id == id then ps else p ∷ remove_row id ps

module _ {S : Type 0} where
  -- The plan with the key, if it belongs to the deal.
  abbrev pub find_plan : ℕ → ℕ → World S → Option FulfillmentPlan
  find_plan plan deal w = elim (find_row plan_id plan w.plans) [
    | none ↦ none
    | some p ↦ if p.deal_id == deal then some p else none
  ]

  abbrev pub modify_plan : ℕ → (FulfillmentPlan → FulfillmentPlan) → World S → World S
  modify_plan k f w = record w { plans = modify_row plan_id k f w.plans }

  unfoldable pub accept_fulfillment_plan : ℕ → ℕ → Actor → ℕ → World S → Result (World S)
  accept_fulfillment_plan deal plan actor now w = do
    p ← or_raise (find_plan plan deal w) entity_not_found
    raise_if (not (is_proposal p.status)) invalid_plan_status
    ok (
        record_audit_event AuditEventType.fulfillment_accepted (some p.id) deal ActorType.user
          (some actor.odoo_user_id) now
          (modify_deal deal (touch now) (modify_plan p.id (set_accepted_plan actor now) w)))

  -- The profiles of the warehouses.
  unfoldable pub create_warehouse_profile : ℕ → Decimal → ℤ → ℤ → Bool → World S → Result (World S)
  create_warehouse_profile warehouse weight priority lead_time active w = do
    raise_if (any (λ p. p.odoo_warehouse_id == warehouse) w.profiles) duplicate_warehouse
    ok (record w {
      profiles =
          w.profiles
          ++ record {
            id = w.next_id;
            odoo_warehouse_id = warehouse;
            shipping_cost_weight = weight;
            priority = priority;
            lead_time_days = lead_time;
            active = active;
          }
            ∷ [];
      next_id = w.next_id + 1;
    })

  unfoldable pub update_warehouse_profile : ℕ → WarehouseProfileUpdate → World S → Result (World S)
  update_warehouse_profile id payload w = do
    p ← or_raise (find_row profile_id id w.profiles) entity_not_found
    ok (record w {
      profiles =
          modify_row profile_id p.id
            (λ q. record q {
              shipping_cost_weight = given payload.shipping_cost_weight q.shipping_cost_weight;
              priority = given payload.priority q.priority;
              lead_time_days = given payload.lead_time_days q.lead_time_days;
              active = given payload.active q.active;
            })
            w.profiles;
    })

  unfoldable pub delete_warehouse_profile : ℕ → World S → Result (World S)
  delete_warehouse_profile id w = do
    p ← or_raise (find_row profile_id id w.profiles) entity_not_found
    ok (record w { profiles = remove_row p.id w.profiles })

module _ {S : Type 0} (gateway : Gateway S) where
  -- What follows Odoo's answer.
  abbrev pub record_applied : Deal → FulfillmentPlan → List ℕ → Actor → ℕ → World S → World S
  record_applied d p pickings actor now w =
      record_audit_event AuditEventType.fulfillment_applied (some p.id) d.id ActorType.user
        (some actor.odoo_user_id) now
        (modify_deal d.id (set_in_fulfillment now) (modify_plan p.id (set_applied pickings now) w))

  unfoldable pub send_plan : Deal → FulfillmentPlan → Actor → ℕ → World S → Result (World S)
  send_plan d p actor now w =
      let (s, answer) =
        gateway.apply_fulfillment_plan d.odoo_sale_order_id (shipments p.id w.plan_lines) w.odoo in
      or_raise answer odoo_failed >>= λ pickings.
      ok (record_applied d p pickings actor now (record w { odoo = s }))

  unfoldable pub apply_fulfillment_plan : ℕ → ℕ → Actor → ℕ → World S → Result (World S)
  apply_fulfillment_plan deal plan actor now w = do
    d ← get_deal_by_id deal w
    raise_if (not (can_ship d.status)) deal_not_confirmed
    p ← or_raise (find_plan plan deal w) entity_not_found
    raise_if (not (is_ready p.status)) invalid_plan_status
    send_plan d p actor now w
