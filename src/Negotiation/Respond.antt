-- ===== src/Negotiation/Respond.antt =====
-- `respond_negotiation_request` of app/services/negotiation_service.py: the answer to a customer's
-- request. Where Odoo refuses a change, the call raises.
use chumma.Base.{
  ℕ, String, Bool, true, false, not, Option, none, some, List, [], ◌∷◌, map, ◌==◌, if◌then◌else◌,
}
use chumma.Base.Decimal.{Decimal, dec}
use chumma.Enums.{AuditEventType, DealStatus, NegotiationRequestStatus, TriggerType}
use chumma.Context.Build.{RawOrderLine}
use chumma.State.{
  ◌>>=◌, ◌>>◌, Deal, Actor, ActorType, NegotiationRequest, NegotiationChange, Change, LineUpdate,
  quantity_of, discount_of, World, Gateway, Result, ok, raise_if, or_raise, entity_not_found,
  negotiation_not_open, odoo_failed,
}
use chumma.State.Tables.{
  find_deal, find_negotiation, modify_deal, modify_negotiation, touch, record_audit_event,
}
use chumma.Deals.{Catalog, sync_deal_from_odoo}
use chumma.Evaluation.{evaluate_deal}

-- `action`; the code takes any text, and one that is none of these answers nothing.
pub data Answer : Type 0 where
  accept reject counter unknown : Answer

abbrev pub is_opened : NegotiationRequestStatus → Bool
is_opened NegotiationRequestStatus.opened = true
is_opened _ = false

-- What a change asks of Odoo: updates of lines, or a product. Values are texts, so one that is
-- there counts as true; the line's number 0 counts as missing.
pub data Wish : Type 0 where
  nothing : Wish
  update : List LineUpdate → Wish
  product : ℕ → Wish

abbrev pub on_line : Option ℕ → (ℕ → Wish) → Wish → Wish
on_line none wish other = other
on_line (some l) wish other = if l == 0 then other else wish l

abbrev pub wish_of : List RawOrderLine → Option ℕ → Change → Wish
wish_of lines l (Change.product_uom_qty (some q)) =
    on_line l (λ i. update (quantity_of i q ∷ [])) nothing
wish_of lines l (Change.product_uom_qty none) = nothing
wish_of lines l Change.remove_line = on_line l (λ i. update (quantity_of i (dec 0 1) ∷ [])) nothing
wish_of lines l (Change.add_product (some p)) = product p
wish_of lines l (Change.add_product none) = nothing
wish_of lines l (Change.discount (some d)) =
    on_line l (λ i. update (discount_of i d ∷ [])) (update (map (λ r. discount_of r.id d) lines))
wish_of lines l (Change.discount none) = nothing

-- The discount of a whole order reads the order first.
abbrev pub reads_order : Option ℕ → Change → Bool
reads_order none (Change.discount (some d)) = true
reads_order (some l) (Change.discount (some d)) = l == 0
reads_order l _ = false

abbrev pub set_answered : Actor → Option String → ℕ → NegotiationRequest → NegotiationRequest
set_answered actor message now r = record r {
  processed_at = some now;
  processed_by = some actor.odoo_user_id;
  response_message = message;
}

abbrev pub set_request_status : NegotiationRequestStatus → NegotiationRequest → NegotiationRequest
set_request_status status r = record r { status = status }

abbrev pub set_status : DealStatus → Deal → Deal
set_status status d = record d { status = status }

-- `eval_res.risk_assessment.id`: the evaluation has made it the deal's current one.
abbrev pub assessment_of : Option Deal → Option ℕ
assessment_of none = none
assessment_of (some d) = d.current_assessment_id

module _ {S : Type 0} (gateway : Gateway S) where
  abbrev pub grant : ℕ → Wish → S → S × Bool
  grant order nothing s = (s, true)
  grant order (update []) s = (s, true)
  grant order (update (u ∷ us)) s = gateway.apply_line_changes order (u ∷ us) s
  grant order (product p) s = gateway.add_line order p (dec 10 1) s

  abbrev pub order_lines : ℕ → Bool → S → Option (List RawOrderLine)
  order_lines order false s = some []
  order_lines order true s = elim (gateway.get_sale_order order s) [
    | none ↦ none
    | some o ↦ some o.lines
  ]

  -- The changes of the request, in their order.
  unfoldable pub apply_changes : ℕ → ℕ → List NegotiationChange → S → Option S
  apply_changes request order [] s = some s
  apply_changes request order (c ∷ cs) s =
      if c.negotiation_request_id == request
      then elim (order_lines order (reads_order c.line_id c.change) s) [
        | none ↦ none
        | some lines ↦
            (let (t, granted) = grant order (wish_of lines c.line_id c.change) s in
              if granted then apply_changes request order cs t else none)
      ]
      else apply_changes request order cs s

  -- The branch of `ACCEPT` after the request is marked.
  unfoldable pub accept_request :
      Catalog → NegotiationRequest → Deal → Actor → ℕ → World S → Result (World S)
  accept_request catalog req deal actor now w = do
    s ← or_raise (apply_changes req.id deal.odoo_sale_order_id w.changes w.odoo) odoo_failed
    synced ←
        sync_deal_from_odoo gateway catalog deal.odoo_sale_order_id none (some actor.odoo_user_id)
          now (record w { odoo = s })
    v ←
        evaluate_deal gateway catalog (some deal.id) none TriggerType.negotiation_accepted
          (some actor.odoo_user_id) now synced.0
    ok (
        modify_deal deal.id (set_status DealStatus.sent) (
          modify_negotiation req.id
            (λ r. record r { applied_assessment_id = assessment_of (find_deal deal.id v) }) v))

  unfoldable pub answer_request :
      Catalog
      → Answer
      → NegotiationRequest
      → Deal
      → Actor
      → Option Decimal
      → ℕ
      → World S
      → Result (World S)
  answer_request catalog Answer.accept req deal actor value now w =
      accept_request catalog req deal actor now
        (modify_negotiation req.id (set_request_status NegotiationRequestStatus.accepted) w)
  answer_request catalog Answer.reject req deal actor value now w = ok (
      modify_deal deal.id (set_status DealStatus.sent)
        (modify_negotiation req.id (set_request_status NegotiationRequestStatus.rejected) w))
  answer_request catalog Answer.counter req deal actor value now w = ok (
      modify_deal deal.id (set_status DealStatus.under_negotiation) (
        modify_negotiation req.id
          (λ r. record r { status = NegotiationRequestStatus.countered; counter_value = value }) w))
  answer_request catalog Answer.unknown req deal actor value now w = ok w

  unfoldable pub respond_negotiation_request :
      Catalog → ℕ → Actor → Answer → Option String → Option Decimal → ℕ → World S → Result (World S)
  respond_negotiation_request catalog request_id actor action message value now w = do
    req ← or_raise (find_negotiation request_id w) entity_not_found
    raise_if (not (is_opened req.status)) negotiation_not_open
    deal ← or_raise (find_deal req.deal_id w) entity_not_found
    v ←
        answer_request catalog action req deal actor value now
          (modify_negotiation req.id (set_answered actor message now) w)
    ok (
        record_audit_event AuditEventType.negotiation_responded (some req.id) deal.id ActorType.user
          (some actor.odoo_user_id) now (modify_deal deal.id (touch now) v))
