-- ===== src/PlanService/Quantities.antt =====
-- The check constraint of app/models/fulfillment.py on the stored lines, in the runs of the
-- operations of app/services/fulfillment_service.py.
use chumma.Base.{
  subst, ℕ, ◌+◌, String, ◌≡◌, refl, sym, Bool, not, Option, none, some, List, [], ◌∷◌, ◌++◌, map,
  arith, ◌==◌, if-cases, keep_if, any, All, All-append, All-keep_if,
}
use chumma.Base.Int.{ℤ, pos, ◌+ℤ◌, leb_ℤ}
use chumma.Context.Build.{RawOrder, RawOrderLine}
use chumma.Fulfillment.{PlanAllocation, FulfillmentResult, Strategy}
use chumma.State.{
  Deal, Actor, World, Gateway, ok, or_raise, raise_if, entity_not_found, invalid_plan_status,
  invalid_line_id, type_error, reason_required, odoo_failed,
}
use chumma.State.Results.{>>=_ok, ok_injective}
use chumma.State.Plans.{RawProduct, FulfillmentPlanLine, RawWarehouse, WarehouseProfile}
use chumma.State.Tables.{find_deal, record_audit_event}
use chumma.Deals.{get_deal_by_id}
use chumma.PlanService.{is_proposal, find_plan, accept_fulfillment_plan, apply_fulfillment_plan}
use chumma.PlanService.Propose.{
  stockable_lines, warehouse_info, active_profiles, availability_of, plan_line, backorder_line,
  distinct_ids, plan_for, ensure_profiles, store_plan, propose_fulfillment_plan,
  consolidate_backorder,
}
use chumma.PlanService.Override.{
  OverrideItem, Overridden, line_for, item_quantity, or_id, or_zero, add_line, override_lines,
  can_override, store_override, override_fulfillment_plan,
}
use chumma.PlanService.Lines.{IsEntry, plan-AreEntries}
use chumma.PlanService.Changes.{applied, proposed}
use chumma.PlanService.Run.{
  PlanRun, proposes, accepts, overrides, applies, consolidates, idle, further,
}

-- What a stored line requests is allocated or backordered.
abbrev pub IsLine : FulfillmentPlanLine → Type 0
IsLine l = l.allocated_qty +ℤ l.backorder_qty ≡ l.requested_qty

entry_line : (a b r : ℕ) → a + b ≡ r → pos a +ℤ pos b ≡ pos r
unfolding ◌+ℤ◌
entry_line a b r e = ground arith

plan_lines-IsLine :
    (plan : ℕ) (entries : List PlanAllocation)
    → All IsEntry entries
    → All IsLine (map (plan_line plan) entries)
plan_lines-IsLine plan [] h = tt
plan_lines-IsLine plan (a ∷ entries) h = (entry_line _ _ _ h.0, plan_lines-IsLine plan entries h.1)

backorder_lines-IsLine :
    (plan : ℕ) (entries : List PlanAllocation)
    → All IsEntry entries
    → All IsLine (map (backorder_line plan) entries)
backorder_lines-IsLine plan [] h = tt
backorder_lines-IsLine plan (a ∷ entries) h =
    (entry_line _ _ _ h.0, backorder_lines-IsLine plan entries h.1)

add_line-IsLine :
    (plan : ℕ) (profiles : List WarehouseProfile) (i : OverrideItem) (l : RawOrderLine) (q : ℤ)
    (v : Overridden)
    → All IsLine v.lines
    → All IsLine (add_line plan profiles i l q v).lines
add_line-IsLine plan profiles i l q v h =
    if-cases (λ (x : Overridden). All IsLine x.lines) (leb_ℤ (q +ℤ or_zero i.backorder_qty) (pos 0))
      v _ (λ _. h) (λ _. All-append IsLine v.lines _ h (refl, tt))

override_lines-IsLine :
    (plan : ℕ) (profiles : List WarehouseProfile) (ls : List RawOrderLine) (is : List OverrideItem)
    (v w : Overridden)
    → All IsLine v.lines
    → override_lines plan profiles ls is v ≡ ok w
    → All IsLine w.lines
unfolding override_lines
override_lines-IsLine plan profiles ls [] v w h e =
    subst (λ (x : Overridden). All IsLine x.lines) (ok_injective v w e) h
override_lines-IsLine plan profiles ls (i ∷ is) v w h e =
    let (l, found, e1) =
      >>=_ok (or_raise (line_for ls (or_id i.odoo_sale_order_line_id i.line_id)) invalid_line_id) _
        w e in
    let (q, given, e2) = >>=_ok (or_raise (item_quantity i) type_error) _ w e1 in
    override_lines-IsLine plan profiles ls is (add_line plan profiles i l q v) w
      (add_line-IsLine plan profiles i l q v h) e2

module _ {S : Type 0} where
  abbrev pub AreLines : World S → Type 0
  AreLines w = All IsLine w.plan_lines

  store-AreLines :
      (deal : Deal) (r : FulfillmentResult) (now : ℕ) (raw : List RawWarehouse) (w : World S)
      → All IsEntry r.allocations × All IsEntry r.backorders
      → AreLines w
      → AreLines (store_plan deal r now (ensure_profiles raw w)).0
  unfolding store_plan record_audit_event
  store-AreLines deal r now raw w entries h =
      if-cases (λ (z : World S). AreLines (store_plan deal r now z).0)
        (any (λ p. p.active) w.profiles) w _ (λ _. added w.next_id) (λ _. added _)
    where
      added :
          (id : ℕ)
          → All IsLine (
              w.plan_lines
              ++ (map (plan_line id) r.allocations ++ map (backorder_line id) r.backorders))
      added id = All-append IsLine w.plan_lines _ h (
          All-append IsLine (map (plan_line id) r.allocations) _
            (plan_lines-IsLine id r.allocations entries.0)
            (backorder_lines-IsLine id r.backorders entries.1))

  accept-AreLines :
      (deal plan : ℕ) (actor : Actor) (now : ℕ) (w v : World S)
      → AreLines w
      → accept_fulfillment_plan deal plan actor now w ≡ ok v
      → AreLines v
  unfolding accept_fulfillment_plan record_audit_event
  accept-AreLines deal plan actor now w v h e =
      let (p, found, e1) = >>=_ok (or_raise (find_plan plan deal w) entity_not_found) _ v e in
      let (u, pending, e2) =
        >>=_ok (raise_if (not (is_proposal p.status)) invalid_plan_status) _ v e1 in
      subst AreLines (ok_injective _ v e2) h

module _ {S : Type 0} (gateway : Gateway S) where
  plan_for-IsEntry :
      (order : RawOrder) (products : List (ℕ × RawProduct)) (raw : List RawWarehouse)
      (strategy : Option Strategy) (w : World S) (r : FulfillmentResult)
      → plan_for gateway order products raw strategy w ≡ ok r
      → All IsEntry r.allocations × All IsEntry r.backorders
  unfolding plan_for
  plan_for-IsEntry order products raw strategy w r e =
      let lines = stockable_lines products order.lines in
      let infos = map (warehouse_info raw) (active_profiles w) in
      let (stock, answer, e1) =
        >>=_ok
          (or_raise
            (gateway.get_availability (distinct_ids [] (map (λ l. l.product_id) lines))
              (some (map (λ i. i.warehouse_id) infos)) w.odoo)
            odoo_failed)
          _ r e in
      subst (λ (x : FulfillmentResult). All IsEntry x.allocations × All IsEntry x.backorders)
        (ok_injective _ r e1) (plan-AreEntries lines infos (availability_of stock) strategy)

  propose-AreLines :
      (deal_id : ℕ) (strategy : Option Strategy) (now : ℕ) (w : World S) (v : World S × ℕ)
      → AreLines w
      → propose_fulfillment_plan gateway deal_id strategy now w ≡ ok v
      → AreLines v.0
  propose-AreLines deal_id strategy now w v h e =
      let (deal, order, products, raw, r, plan, same) =
        proposed gateway deal_id strategy now w v e in
      subst (λ (z : World S × ℕ). AreLines z.0) (sym same)
        (store-AreLines deal r now raw w
          (plan_for-IsEntry order products raw strategy (ensure_profiles raw w) r plan) h)

  override-AreLines :
      (is_blank : String → Bool) (deal_id plan_id : ℕ) (items : List OverrideItem) (actor : Actor)
      (reason : String) (now : ℕ) (w v : World S)
      → AreLines w
      → override_fulfillment_plan gateway is_blank deal_id plan_id items actor reason now w ≡ ok v
      → AreLines v
  unfolding override_fulfillment_plan store_override record_audit_event
  override-AreLines is_blank deal_id plan_id items actor reason now w v h e =
      let (u, given, e1) = >>=_ok (raise_if (is_blank reason) reason_required) _ v e in
      let (p, found, e2) =
        >>=_ok (or_raise (find_plan plan_id deal_id w) entity_not_found) _ v e1 in
      let (u2, ready, e3) =
        >>=_ok (raise_if (not (can_override p.status)) invalid_plan_status) _ v e2 in
      let (deal, has_deal, e4) = >>=_ok (or_raise (find_deal deal_id w) type_error) _ v e3 in
      let (order, answer, e5) =
        >>=_ok (or_raise (gateway.get_sale_order deal.odoo_sale_order_id w.odoo) odoo_failed) _ v
          e4 in
      let (made, lines, e6) =
        >>=_ok
          (override_lines p.id w.profiles order.lines items
            (record { lines = []; warehouses_used = [] }))
          _ v e5 in
      subst AreLines (ok_injective _ v e6) (
        All-append IsLine (keep_if (λ l. not (l.fulfillment_plan_id == p.id)) w.plan_lines)
          made.lines (All-keep_if IsLine _ w.plan_lines h)
          (override_lines-IsLine p.id w.profiles order.lines items _ made tt lines))

  apply-AreLines :
      (deal_id plan_id : ℕ) (actor : Actor) (now : ℕ) (w v : World S)
      → AreLines w
      → apply_fulfillment_plan gateway deal_id plan_id actor now w ≡ ok v
      → AreLines v
  unfolding record_audit_event
  apply-AreLines deal_id plan_id actor now w v h e =
      let (d, p, pickings, found, ships, plan, ready, answer, same) =
        applied gateway deal_id plan_id actor now w v e in
      subst AreLines (sym same) h

  consolidate-AreLines :
      (deal_id : ℕ) (actor : Actor) (now : ℕ) (w : World S) (v : World S × ℕ)
      → AreLines w
      → consolidate_backorder gateway deal_id actor now w ≡ ok v
      → AreLines v.0
  unfolding consolidate_backorder record_audit_event
  consolidate-AreLines deal_id actor now w v h e =
      let (deal, found, e1) = >>=_ok (get_deal_by_id deal_id w) _ v e in
      let (made, fresh, e2) = >>=_ok (propose_fulfillment_plan gateway deal.id none now w) _ v e1 in
      subst (λ (z : World S × ℕ). AreLines z.0) (ok_injective _ v e2)
        (propose-AreLines deal.id none now w made h fresh)

  -- In every run of the operations on the plans, each stored line requests exactly what it
  -- allocates and backorders, if each did at the start.
  pub run-AreLines :
      (is_blank : String → Bool) {u w : World S}
      → PlanRun gateway is_blank u w
      → AreLines u
      → AreLines w
  run-AreLines is_blank idle h = h
  run-AreLines is_blank (further run (proposes deal_id strategy now v w e)) h =
      propose-AreLines deal_id strategy now v w (run-AreLines is_blank run h) e
  run-AreLines is_blank (further run (accepts deal_id plan_id actor now v w e)) h =
      accept-AreLines deal_id plan_id actor now v w (run-AreLines is_blank run h) e
  run-AreLines is_blank (further run (overrides deal_id plan_id items actor reason now v w e)) h =
      override-AreLines is_blank deal_id plan_id items actor reason now v w
        (run-AreLines is_blank run h) e
  run-AreLines is_blank (further run (applies deal_id plan_id actor now v w e)) h =
      apply-AreLines deal_id plan_id actor now v w (run-AreLines is_blank run h) e
  run-AreLines is_blank (further run (consolidates deal_id actor now v w e)) h =
      consolidate-AreLines deal_id actor now v w (run-AreLines is_blank run h) e
