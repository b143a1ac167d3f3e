-- ===== src/Negotiation.antt =====
-- A customer's request for other terms: `submit_negotiation_request` of
-- app/services/negotiation_service.py, with its payload of app/schemas/portal.py.
pub mod Respond
pub mod Answered
use chumma.Base.{
  ℕ, ◌+◌, String, Bool, true, false, not, Option, none, some, List, [], ◌∷◌, ◌++◌, ◌==◌,
  if◌then◌else◌,
}
use chumma.Enums.{DealStatus, AuditEventType, NegotiationRequestType, NegotiationRequestStatus}
use chumma.Base.Decimal.{Decimal}
use chumma.State.{
  ◌>>=◌, ◌>>◌, Deal, ActorType, NotificationType, NegotiationChange, Change, World, Result, ok,
  raise_if, or_raise, entity_not_found, deal_closed,
}
use chumma.State.Tables.{find_deal, modify_deal, record_audit_event, create_notification}

-- `PortalNegotiationSubmit`. The code takes any text for a type; one that is no negotiation type
-- acts as a comment does.
pub record NegotiationSubmit : Type 0 where
  pub type : Option NegotiationRequestType
  pub request_type : Option NegotiationRequestType
  pub message : Option String
  pub counter_value : Option Decimal
  pub odoo_sale_order_line_id : Option ℕ
  pub odoo_line_id : Option ℕ
  pub requested_qty : Option Decimal
  pub requested_product_id : Option ℕ

-- `self.type or self.request_type or "COMMENT"`
abbrev pub resolved_type : NegotiationSubmit → NegotiationRequestType
resolved_type payload = elim payload.type [
  | some t ↦ t
  | none ↦ elim payload.request_type [ some t ↦ t | none ↦ NegotiationRequestType.comment ]
]

-- `self.odoo_sale_order_line_id or self.odoo_line_id`: the number 0 counts as missing.
abbrev pub resolved_line_id : NegotiationSubmit → Option ℕ
resolved_line_id payload = elim payload.odoo_sale_order_line_id [
  | some id ↦ if id == 0 then payload.odoo_line_id else some id
  | none ↦ payload.odoo_line_id
]

abbrev pub is_closed : DealStatus → Bool
is_closed DealStatus.confirmed = true
is_closed DealStatus.cancelled = true
is_closed DealStatus.expired = true
is_closed _ = false

-- The branches that test `payload.type`.
abbrev other_changes :
    NegotiationSubmit → ℕ → Option NegotiationRequestType → List NegotiationChange
other_changes payload id (some NegotiationRequestType.remove_line) =
    record {
      negotiation_request_id = id;
      line_id = payload.odoo_sale_order_line_id;
      change = Change.remove_line;
    }
    ∷ []
other_changes payload id (some NegotiationRequestType.add_line) =
    record {
      negotiation_request_id = id;
      line_id = none;
      change = Change.add_product payload.requested_product_id;
    }
    ∷ []
other_changes payload id _ = []

-- The change that a request asks for, by the resolved type first.
abbrev pub requested_changes :
    NegotiationSubmit → ℕ → NegotiationRequestType → List NegotiationChange
requested_changes payload id NegotiationRequestType.qty_change =
    record {
      negotiation_request_id = id;
      line_id = resolved_line_id payload;
      change = Change.product_uom_qty payload.requested_qty;
    }
    ∷ []
requested_changes payload id NegotiationRequestType.counter_discount =
    record {
      negotiation_request_id = id;
      line_id = resolved_line_id payload;
      change = Change.discount payload.counter_value;
    }
    ∷ []
requested_changes payload id _ = other_changes payload id payload.type

abbrev pub set_negotiating : ℕ → Deal → Deal
set_negotiating now d = record d { status = DealStatus.under_negotiation; last_activity_at = now }

module _ {S : Type 0} where
  unfoldable pub add_negotiation : Deal → ℕ → ℕ → NegotiationSubmit → ℕ → World S → World S
  add_negotiation deal customer actor payload now w = record w {
    negotiations =
        w.negotiations
        ++ record {
          id = w.next_id;
          deal_id = deal.id;
          odoo_sale_order_id = deal.odoo_sale_order_id;
          customer_partner_id = customer;
          requested_by = actor;
          type = resolved_type payload;
          status = NegotiationRequestStatus.opened;
          message = payload.message;
          counter_value = payload.counter_value;
          based_on_assessment_id = deal.current_assessment_id;
          created_at = now;
          processed_at = none;
          processed_by = none;
          response_message = none;
          applied_assessment_id = none;
        }
          ∷ [];
    changes = w.changes ++ requested_changes payload w.next_id (resolved_type payload);
    next_id = w.next_id + 1;
  }

  unfoldable pub submit_negotiation_request :
      ℕ → ℕ → ℕ → NegotiationSubmit → ℕ → World S → Result (World S)
  submit_negotiation_request deal_id customer actor payload now w = do
    deal ← or_raise (find_deal deal_id w) entity_not_found
    raise_if (not (deal.odoo_partner_id == customer)) entity_not_found
    raise_if (is_closed deal.status) deal_closed
    ok (
        create_notification deal.owner_odoo_user_id NotificationType.negotiation_received deal.id
          none now
          (record_audit_event AuditEventType.negotiation_received (some w.next_id) deal.id
            ActorType.customer (some customer) now
            (modify_deal deal.id (set_negotiating now)
              (add_negotiation deal customer actor payload now w))))
