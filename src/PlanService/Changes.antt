-- ===== src/PlanService/Changes.antt =====
-- How each operation of app/services/fulfillment_service.py changes the table of plans.
use chumma.Base.{
  String, any, any, if-cases, String, subst, ℕ, ◌≡◌, refl, sym, Bool, true, false, not, Option,
  none, some, List, [], ◌∷◌, ◌++◌, map, ◌==◌, if◌then◌else◌, ==_iff,
}
use chumma.Enums.{FulfillmentPlanStatus}
use chumma.State.{
  no_lines, Gateway, Deal, ok, odoo_failed, type_error, reason_required, deal_not_confirmed, Actor,
  World, ok, or_raise, raise_if, entity_not_found, invalid_plan_status,
}
use chumma.State.Results.{>>=_ok, ok_injective, or_raise_ok, raise_if_ok, not-false}
use chumma.State.Plans.{RawProduct, RawWarehouse, RawWarehouse, FulfillmentPlan}
use chumma.Context.Build.{RawOrder}
use chumma.Deals.{get_deal_by_id}
use chumma.Fulfillment.{FulfillmentResult, Strategy}
use chumma.State.Tables.{
  find_deal, find_deal, find_row, modify_row, find_row_id, record_audit_event,
}
use chumma.PlanService.{
  record_applied, send_plan, shipments, set_applied, can_ship, apply_fulfillment_plan, plan_id,
  is_proposal, is_ready, find_plan, set_accepted_plan, accept_fulfillment_plan,
}
use chumma.PlanService.Propose.{
  distinct_ids, no_order_lines, plan_for, ensure_profiles, store_plan, propose_fulfillment_plan,
  consolidate_backorder, supersede_plan,
}
use chumma.PlanService.Override.{
  override_lines, set_overridden, store_override, estimated_cost, OverrideItem,
  override_fulfillment_plan, can_override,
}
use chumma.PlanService.Life.{
  overriding_accepted, applying_overridden, overriding, accepting, applying_accepted, Becomes,
  Progress, modify-Progress, propose-Progress,
}
use chumma.Fulfillment.{Strategy, FulfillmentResult}
use chumma.Deals.{get_deal_by_id}

-- The two ways in which the table of plans changes.
pub data PlanChange : List FulfillmentPlan → List FulfillmentPlan → Type 0 where
  adds :
      (deal : ℕ) (new : FulfillmentPlan) (ps : List FulfillmentPlan)
      → new.deal_id ≡ deal
      → PlanChange ps (map (supersede_plan deal) ps ++ new ∷ [])
  sets :
      (k : ℕ) (f : FulfillmentPlan → FulfillmentPlan) (p : FulfillmentPlan)
      (ps : List FulfillmentPlan)
      → find_row plan_id k ps ≡ some p
      → ((q : FulfillmentPlan) → (f q).id ≡ q.id)
      → Becomes p.status (f p).status
      → ((q : FulfillmentPlan) → is_proposal (f q).status ≡ false)
      → PlanChange ps (modify_row plan_id k f ps)

pub PlanChange-Progress : {ps qs : List FulfillmentPlan} → PlanChange ps qs → Progress ps qs
PlanChange-Progress (adds deal new ps own) = propose-Progress deal new ps
PlanChange-Progress (sets k f p ps found keeps step closed) =
    modify-Progress k f p ps found keeps step

accept_step :
    (s : FulfillmentPlanStatus) → is_proposal s ≡ true → Becomes s FulfillmentPlanStatus.accepted
accept_step FulfillmentPlanStatus.proposed e = accepting
accept_step FulfillmentPlanStatus.accepted e = cc
accept_step FulfillmentPlanStatus.overridden e = cc
accept_step FulfillmentPlanStatus.applied e = cc
accept_step FulfillmentPlanStatus.superseded e = cc
accept_step FulfillmentPlanStatus.cancelled e = cc

apply_step :
    (s : FulfillmentPlanStatus) → is_ready s ≡ true → Becomes s FulfillmentPlanStatus.applied
apply_step FulfillmentPlanStatus.proposed e = cc
apply_step FulfillmentPlanStatus.accepted e = applying_accepted
apply_step FulfillmentPlanStatus.overridden e = applying_overridden
apply_step FulfillmentPlanStatus.applied e = cc
apply_step FulfillmentPlanStatus.superseded e = cc
apply_step FulfillmentPlanStatus.cancelled e = cc

override_step :
    (s : FulfillmentPlanStatus) → can_override s ≡ true → Becomes s FulfillmentPlanStatus.overridden
override_step FulfillmentPlanStatus.proposed e = overriding
override_step FulfillmentPlanStatus.accepted e = overriding_accepted
override_step FulfillmentPlanStatus.overridden e = cc
override_step FulfillmentPlanStatus.applied e = cc
override_step FulfillmentPlanStatus.superseded e = cc
override_step FulfillmentPlanStatus.cancelled e = cc

module _ {S : Type 0} where
  -- A plan found for a deal is the first with its key, and the deal's.
  pub find_plan-row :
      (plan deal : ℕ) (w : World S) (p : FulfillmentPlan)
      → find_plan plan deal w ≡ some p
      → (find_row plan_id p.id w.plans ≡ some p) × (p.deal_id ≡ deal)
  find_plan-row plan deal w p e = from (find_row plan_id plan w.plans) refl e
    where
      owned :
          (b : Bool) (q : FulfillmentPlan)
          → (if b then some q else none) ≡ some p
          → (q ≡ p) × (b ≡ true)
      owned true q h = (cc, refl)
      owned false q h = cc

      from :
          (o : Option FulfillmentPlan)
          → find_row plan_id plan w.plans ≡ o
          → (elim o [ none ↦ none | some q ↦ if q.deal_id == deal then some q else none ]) ≡ some p
          → (find_row plan_id p.id w.plans ≡ some p) × (p.deal_id ≡ deal)
      from none found h = cc
      from (some q) found h =
          let (same, own) = owned (q.deal_id == deal) q h in
          (
            subst (λ (x : FulfillmentPlan). find_row plan_id x.id w.plans ≡ some x) same
                (subst (λ i. find_row plan_id i w.plans ≡ some q)
                  (sym (find_row_id plan_id plan w.plans q found)) found),
            subst (λ (x : FulfillmentPlan). x.deal_id ≡ deal) same ((==_iff q.deal_id deal).0 own),
          )

  pub accept-PlanChange :
      (deal plan : ℕ) (actor : Actor) (now : ℕ) (w v : World S)
      → accept_fulfillment_plan deal plan actor now w ≡ ok v
      → PlanChange w.plans v.plans
  unfolding accept_fulfillment_plan record_audit_event
  accept-PlanChange deal plan actor now w v e =
      let (p, found, e1) = >>=_ok (or_raise (find_plan plan deal w) entity_not_found) _ v e in
      let (u, pending, e2) =
        >>=_ok (raise_if (not (is_proposal p.status)) invalid_plan_status) _ v e1 in
      let (row, own) = find_plan-row plan deal w p (or_raise_ok _ _ p found) in
      subst (λ (z : World S). PlanChange w.plans z.plans) (ok_injective _ v e2)
        (sets p.id (set_accepted_plan actor now) p w.plans row (λ q. refl)
          (accept_step p.status (not-false _ (raise_if_ok _ _ u pending))) (λ q. refl))

  store-PlanChange :
      (deal : Deal) (r : FulfillmentResult) (now : ℕ) (raw : List RawWarehouse) (w : World S)
      → PlanChange w.plans (store_plan deal r now (ensure_profiles raw w)).0.plans
  unfolding store_plan record_audit_event
  store-PlanChange deal r now raw w =
      if-cases (λ (z : World S). PlanChange w.plans (store_plan deal r now z).0.plans)
        (any (λ p. p.active) w.profiles) w _ (λ _. adds deal.id _ w.plans refl)
        (λ _. adds deal.id _ w.plans refl)

module _ {S : Type 0} (gateway : Gateway S) where
  -- An accepted proposal stores the plan computed for the deal's order.
  pub proposed :
      (deal_id : ℕ) (strategy : Option Strategy) (now : ℕ) (w : World S) (v : World S × ℕ)
      → propose_fulfillment_plan gateway deal_id strategy now w ≡ ok v
      → (deal : Deal) × (order : RawOrder) × (products : List (ℕ × RawProduct)) × (raw : List
          RawWarehouse)
        × (r : FulfillmentResult) × (plan_for gateway order products raw strategy
              (ensure_profiles raw w)
            ≡ ok r)
        × (v ≡ store_plan deal r now (ensure_profiles raw w))
  unfolding propose_fulfillment_plan
  proposed deal_id strategy now w v e =
      let (deal, found, e1) = >>=_ok (get_deal_by_id deal_id w) _ v e in
      let (order, answer, e2) =
        >>=_ok (or_raise (gateway.get_sale_order deal.odoo_sale_order_id w.odoo) odoo_failed) _ v
          e1 in
      let (u, some_lines, e3) = >>=_ok (raise_if (no_order_lines order) no_lines) _ v e2 in
      let (products, known, e4) =
        >>=_ok
          (or_raise
            (gateway.get_products (distinct_ids [] (map (λ l. l.product_id) order.lines)) w.odoo)
            odoo_failed)
          _ v e3 in
      let (raw, places, e5) =
        >>=_ok (or_raise (gateway.get_warehouses w.odoo) odoo_failed) _ v e4 in
      let (r, plan, e6) =
        >>=_ok (plan_for gateway order products raw strategy (ensure_profiles raw w)) _ v e5 in
      (deal, order, products, raw, r, plan, sym (ok_injective _ v e6))

  pub propose-PlanChange :
      (deal_id : ℕ) (strategy : Option Strategy) (now : ℕ) (w : World S) (v : World S × ℕ)
      → propose_fulfillment_plan gateway deal_id strategy now w ≡ ok v
      → PlanChange w.plans v.0.plans
  propose-PlanChange deal_id strategy now w v e =
      let (deal, order, products, raw, r, plan, same) = proposed deal_id strategy now w v e in
      subst (λ (z : World S × ℕ). PlanChange w.plans z.0.plans) (sym same)
        (store-PlanChange deal r now raw w)

  pub consolidate-PlanChange :
      (deal_id : ℕ) (actor : Actor) (now : ℕ) (w : World S) (v : World S × ℕ)
      → consolidate_backorder gateway deal_id actor now w ≡ ok v
      → PlanChange w.plans v.0.plans
  unfolding consolidate_backorder record_audit_event
  consolidate-PlanChange deal_id actor now w v e =
      let (deal, found, e1) = >>=_ok (get_deal_by_id deal_id w) _ v e in
      let (made, proposed, e2) =
        >>=_ok (propose_fulfillment_plan gateway deal.id none now w) _ v e1 in
      subst (λ (z : World S × ℕ). PlanChange w.plans z.0.plans) (ok_injective _ v e2)
        (propose-PlanChange deal.id none now w made proposed)

  pub override-PlanChange :
      (is_blank : String → Bool) (deal_id plan_id : ℕ) (items : List OverrideItem) (actor : Actor)
      (reason : String) (now : ℕ) (w v : World S)
      → override_fulfillment_plan gateway is_blank deal_id plan_id items actor reason now w ≡ ok v
      → PlanChange w.plans v.plans
  unfolding override_fulfillment_plan store_override record_audit_event
  override-PlanChange is_blank deal_id plan_id items actor reason now w v e =
      let (u, given, e1) = >>=_ok (raise_if (is_blank reason) reason_required) _ v e in
      let (p, found, e2) =
        >>=_ok (or_raise (find_plan plan_id deal_id w) entity_not_found) _ v e1 in
      let (u2, ready, e3) =
        >>=_ok (raise_if (not (can_override p.status)) invalid_plan_status) _ v e2 in
      let (deal, has_deal, e4) = >>=_ok (or_raise (find_deal deal_id w) type_error) _ v e3 in
      let (order, answer, e5) =
        >>=_ok (or_raise (gateway.get_sale_order deal.odoo_sale_order_id w.odoo) odoo_failed) _ v
          e4 in
      let (made, lines, e6) =
        >>=_ok
          (override_lines p.id w.profiles order.lines items
            (record { lines = []; warehouses_used = [] }))
          _ v e5 in
      let (row, own) = find_plan-row plan_id deal_id w p (or_raise_ok _ _ p found) in
      subst (λ (z : World S). PlanChange w.plans z.plans) (ok_injective _ v e6)
        (sets p.id (set_overridden made (estimated_cost w.profiles made.warehouses_used) actor now)
          p w.plans row (λ q. refl)
          (override_step p.status (not-false _ (raise_if_ok _ _ u2 ready))) (λ q. refl))

  -- What an accepted application found and did.
  pub applied :
      (deal_id plan_id : ℕ) (actor : Actor) (now : ℕ) (w v : World S)
      → apply_fulfillment_plan gateway deal_id plan_id actor now w ≡ ok v
      → (d : Deal) × (p : FulfillmentPlan) × (pickings : List ℕ) × (find_deal deal_id w ≡ some d)
        × (can_ship d.status ≡ true)
        × (find_plan plan_id deal_id w ≡ some p)
        × (is_ready p.status ≡ true)
        × ((gateway.apply_fulfillment_plan d.odoo_sale_order_id
              (shipments p.id w.plan_lines)
              w.odoo).1
            ≡ some pickings)
        × (v
            ≡ record_applied gateway d p pickings actor now (record w {
              odoo =
                  (gateway.apply_fulfillment_plan d.odoo_sale_order_id
                    (shipments p.id w.plan_lines)
                    w.odoo).0;
            }))
  unfolding apply_fulfillment_plan send_plan
  applied deal_id plan_id actor now w v e =
      let (d, found, e1) = >>=_ok (get_deal_by_id deal_id w) _ v e in
      let (u, ships, e2) = >>=_ok (raise_if (not (can_ship d.status)) deal_not_confirmed) _ v e1 in
      let (p, plan, e3) = >>=_ok (or_raise (find_plan plan_id deal_id w) entity_not_found) _ v e2 in
      let (u2, ready, e4) =
        >>=_ok (raise_if (not (is_ready p.status)) invalid_plan_status) _ v e3 in
      let (pickings, answer, e5) =
        >>=_ok
          (or_raise
            (gateway.apply_fulfillment_plan d.odoo_sale_order_id (shipments p.id w.plan_lines)
              w.odoo).1
            odoo_failed)
          _ v e4 in
      (
        d,
        p,
        pickings,
        or_raise_ok _ _ d found,
        not-false _ (raise_if_ok _ _ u ships),
        or_raise_ok _ _ p plan,
        not-false _ (raise_if_ok _ _ u2 ready),
        or_raise_ok _ _ pickings answer,
        sym (ok_injective _ v e5),
      )

  pub apply-PlanChange :
      (deal_id plan_id : ℕ) (actor : Actor) (now : ℕ) (w v : World S)
      → apply_fulfillment_plan gateway deal_id plan_id actor now w ≡ ok v
      → PlanChange w.plans v.plans
  unfolding record_audit_event
  apply-PlanChange deal_id plan_id actor now w v e =
      let (d, p, pickings, found, ships, plan, ready, answer, same) =
        applied deal_id plan_id actor now w v e in
      let (row, own) = find_plan-row plan_id deal_id w p plan in
      subst (λ (z : World S). PlanChange w.plans z.plans) (sym same)
        (sets p.id (set_applied pickings now) p w.plans row (λ q. refl) (apply_step p.status ready)
          (λ q. refl))
