-- ===== src/PlanService/Outcome.antt =====
-- What the application of a plan to Odoo does (app/services/fulfillment_service.py).
use chumma.Base.{
  ◌⊎◌, ◌++◌, ==_iff, arith, false, subst, ℕ, ◌≡◌, refl, sym, ap, ◌∙◌, true, Option, none, some,
  List, [], ◌∷◌, ◌==◌, if◌then◌else◌, if-cases,
}
use chumma.Base.Int.{pos, ltb_ℤ}
use chumma.Enums.{DealStatus, FulfillmentPlanStatus}
use chumma.State.{Deal, Actor, World, Gateway, ok}
use chumma.State.Plans.{FulfillmentPlan, FulfillmentPlanLine, Shipment}
use chumma.State.Tables.{find_deal, find_row, find_row_id, find_modified, touch, record_audit_event}
use chumma.PlanService.{
  plan_id, can_ship, is_ready, find_plan, shipment, shipments, set_applied, set_in_fulfillment,
  record_applied, apply_fulfillment_plan,
}
use chumma.PlanService.Life.{status_in}
use chumma.PlanService.Changes.{applied, find_plan-row}

-- A line of a plan that ships: it has a warehouse, and allocates more than nothing.
abbrev pub Ships : ℕ → FulfillmentPlanLine → Type 0
Ships plan l =
    (l.fulfillment_plan_id ≡ plan)
    × ((i : ℕ) × (l.odoo_warehouse_id ≡ some i))
    × (ltb_ℤ (pos 0) l.allocated_qty ≡ true)

abbrev pub ShipsAs : FulfillmentPlanLine → Shipment → Type 0
ShipsAs l s =
    (s.line_id ≡ l.odoo_sale_order_line_id)
    × (s.product_id ≡ l.odoo_product_id)
    × (l.odoo_warehouse_id ≡ some s.warehouse_id)
    × (s.qty ≡ l.allocated_qty)

-- The shipments of a plan among the stored lines: one for each of its lines that ships, in their
-- order, and none for any other line.
pub data Sends : ℕ → List FulfillmentPlanLine → List Shipment → Type 0 where
  ends : {plan : ℕ} → Sends plan [] []
  skips :
      {plan : ℕ} {l : FulfillmentPlanLine} {ls : List FulfillmentPlanLine} {ss : List Shipment}
      → ¬ Ships plan l
      → Sends plan ls ss
      → Sends plan (l ∷ ls) ss
  sends :
      {plan : ℕ} {l : FulfillmentPlanLine} {s : Shipment} {ls : List FulfillmentPlanLine}
      {ss : List Shipment}
      → Ships plan l
      → ShipsAs l s
      → Sends plan ls ss
      → Sends plan (l ∷ ls) (s ∷ ss)

shipped :
    (plan : ℕ) (l : FulfillmentPlanLine) (ls : List FulfillmentPlanLine) (ss : List Shipment)
    → l.fulfillment_plan_id ≡ plan
    → Sends plan ls ss
    → Sends plan (l ∷ ls) (shipment l ++ ss)
shipped plan l ls ss own rest = by_place l.odoo_warehouse_id refl
  where
    by_place :
        (o : Option ℕ)
        → l.odoo_warehouse_id ≡ o
        → Sends plan (l ∷ ls) (
            (elim o [
              | none ↦ []
              | some w ↦
                  if ltb_ℤ (pos 0) l.allocated_qty
                  then record {
                    line_id = l.odoo_sale_order_line_id;
                    product_id = l.odoo_product_id;
                    warehouse_id = w;
                    qty = l.allocated_qty;
                  }
                    ∷ []
                  else []
            ])
            ++ ss)
    by_place none at =
        skips (λ (own_plan, (i, there), more). let clash : none ≡ some i = sym at ∙ there in cc)
          rest
    by_place (some w) at =
        if-cases (λ front. Sends plan (l ∷ ls) (front ++ ss)) (ltb_ℤ (pos 0) l.allocated_qty) _ []
          (λ e. sends (own, (w, at), e) (refl, refl, at, refl) rest)
          (λ e.
            skips (λ (own_plan, place, more). let clash : false ≡ true = sym e ∙ more in cc) rest)

shipments-Sends : (plan : ℕ) (ls : List FulfillmentPlanLine) → Sends plan ls (shipments plan ls)
unfolding shipments
shipments-Sends plan [] = ends
shipments-Sends plan (l ∷ ls) =
    if-cases (λ ss. Sends plan (l ∷ ls) ss) (l.fulfillment_plan_id == plan) _ _
      (λ e.
        shipped plan l ls (shipments plan ls) ((==_iff l.fulfillment_plan_id plan).0 e)
          (shipments-Sends plan ls))
      (λ e.
        skips
          (λ h. let clash : false ≡ true = sym e ∙ (==_iff l.fulfillment_plan_id plan).1 h.0 in cc)
          (shipments-Sends plan ls))

can_ship_only :
    (s : DealStatus)
    → can_ship s ≡ true
    → (s ≡ DealStatus.confirmed) ⊎ (s ≡ DealStatus.in_fulfillment)
can_ship_only s h = ground arith

is_ready_only :
    (s : FulfillmentPlanStatus)
    → is_ready s ≡ true
    → (s ≡ FulfillmentPlanStatus.accepted) ⊎ (s ≡ FulfillmentPlanStatus.overridden)
is_ready_only s h = ground arith

module _ {S : Type 0} (gateway : Gateway S) where
  applied_deal :
      (d : Deal) (p : FulfillmentPlan) (pickings : List ℕ) (actor : Actor) (now deal_id : ℕ)
      (w : World S)
      → find_deal deal_id w ≡ some d
      → (e : Deal) × (find_deal deal_id (record_applied gateway d p pickings actor now w) ≡ some e)
        × (e.status ≡ DealStatus.in_fulfillment)
  unfolding record_audit_event
  applied_deal d p pickings actor now deal_id w found =
      let own = find_row_id (λ (x : Deal). x.id) deal_id w.deals d found in
      (
        touch now (set_in_fulfillment now d),
        find_modified (λ x. x.id) deal_id d.id (touch now) _ (set_in_fulfillment now d) (λ x. refl)
            (find_modified (λ x. x.id) deal_id d.id (set_in_fulfillment now) w.deals d (λ x. refl)
              found own)
            own,
        refl,
      )

  applied_plan :
      (d : Deal) (p : FulfillmentPlan) (pickings : List ℕ) (actor : Actor) (now : ℕ) (w : World S)
      → find_row plan_id p.id w.plans ≡ some p
      → status_in p.id (record_applied gateway d p pickings actor now w).plans
        ≡ some FulfillmentPlanStatus.applied
  unfolding record_audit_event
  applied_plan d p pickings actor now w found =
      ap (λ (o : Option FulfillmentPlan). elim o [ none ↦ none | some x ↦ some x.status ])
        (find_modified plan_id p.id p.id (set_applied pickings now) w.plans p (λ x. refl) found
          refl)

  applied_odoo :
      (d : Deal) (p : FulfillmentPlan) (pickings : List ℕ) (actor : Actor) (now : ℕ) (w : World S)
      → (record_applied gateway d p pickings actor now w).odoo ≡ w.odoo
  unfolding record_audit_event
  applied_odoo d p pickings actor now w = refl

  -- A plan is applied only for a deal that is confirmed or in fulfillment and a plan of that deal
  -- that is accepted or overridden. Odoo is asked once, for one shipment for each of the plan's
  -- lines with a warehouse and a positive allocation, and no others; if it answers, the plan is
  -- applied and the deal in fulfillment.
  pub apply_outcome :
      (deal_id plan_key : ℕ) (actor : Actor) (now : ℕ) (w v : World S)
      → apply_fulfillment_plan gateway deal_id plan_key actor now w ≡ ok v
      → (d : Deal) × (p : FulfillmentPlan) × (payload : List Shipment) × (pickings : List ℕ)
        × (find_deal deal_id w ≡ some d)
        × ((d.status ≡ DealStatus.confirmed) ⊎ (d.status ≡ DealStatus.in_fulfillment))
        × (find_plan plan_key deal_id w ≡ some p)
        × ((p.status ≡ FulfillmentPlanStatus.accepted)
            ⊎ (p.status ≡ FulfillmentPlanStatus.overridden))
        × Sends p.id w.plan_lines payload
        × (let call = gateway.apply_fulfillment_plan d.odoo_sale_order_id payload w.odoo in
            (call.1 ≡ some pickings) × (v.odoo ≡ call.0))
        × (status_in p.id v.plans ≡ some FulfillmentPlanStatus.applied)
        × ((e : Deal) × (find_deal deal_id v ≡ some e) × (e.status ≡ DealStatus.in_fulfillment))
  apply_outcome deal_id plan_key actor now w v e =
      let (d, p, pickings, found, ships, plan, ready, answer, same) =
        applied gateway deal_id plan_key actor now w v e in
      let asked = record w {
        odoo =
            (gateway.apply_fulfillment_plan d.odoo_sale_order_id (shipments p.id w.plan_lines)
              w.odoo).0;
      } in
      (
        d,
        p,
        shipments p.id w.plan_lines,
        pickings,
        found,
        can_ship_only d.status ships,
        plan,
        is_ready_only p.status ready,
        shipments-Sends p.id w.plan_lines,
        (answer, ap (λ (z : World S). z.odoo) same ∙ applied_odoo d p pickings actor now asked),
        ap (λ (z : World S). status_in p.id z.plans) same
            ∙ applied_plan d p pickings actor now asked (find_plan-row plan_key deal_id w p plan).0,
        subst
            (λ (z : World S).
              (x : Deal) × (find_deal deal_id z ≡ some x) × (x.status ≡ DealStatus.in_fulfillment))
            (sym same) (applied_deal d p pickings actor now deal_id asked found),
      )
