-- ===== src/Portal.antt =====
-- The customer's operations: app/services/portal_service.py (`confirm_deal_by_customer`) and
-- app/services/negotiation_service.py (`add_portal_comment`). Each returns the new state; the
-- confirmation also returns what becomes of the customer's view of the deal (`Portal.View`), which
-- raises where Odoo does not answer, after the changes are committed.
pub mod View
pub mod Gate
pub mod Outcome
use chumma.Base.{
  ℕ, String, Bool, true, false, not, Option, none, some, [], ◌∷◌, ◌++◌, ◌==◌, if◌then◌else◌,
}
use chumma.Enums.{Role, DealStatus, AuditEventType}
use chumma.Routing.{is_approved}
use chumma.State.{
  ◌>>=◌, ◌>>◌, Deal, ActorType, NotificationType, World, Gateway, Result, ok, raise_if, or_raise,
  entity_not_found,
}
use chumma.Portal.View.{is_settled, PortalDealRead, get_deal_for_portal}
use chumma.State.Tables.{
  find_deal, modify_deal, record_audit_event, create_notification, touch, try_call,
}

-- `PortalConfirmDealRequest`: the note, if it is not empty, as it is stored, with its prefix. The
-- signature goes into texts only.
abbrev pub ConfirmDealRequest : Type 0
ConfirmDealRequest = Option String

abbrev pub is_customer : Role → Bool
is_customer Role.customer = true
is_customer _ = false

abbrev pub set_confirmed : ℕ → Deal → Deal
set_confirmed now d = record d {
  status = DealStatus.confirmed;
  confirmed_at = some now;
  customer_confirmed_pending = false;
  last_activity_at = now;
}

abbrev pub set_accepted : ℕ → Deal → Deal
set_accepted now d = record d { customer_confirmed_pending = true; last_activity_at = now }

module _ {S : Type 0} where
  -- `add_portal_comment`; a customer's comment is never internal.
  unfoldable pub add_portal_comment :
      ℕ → ℕ → Role → String → Bool → Option ℕ → ℕ → World S → Result (World S)
  add_portal_comment deal_id author role body is_internal line_id now w = do
    deal ← or_raise (find_deal deal_id w) entity_not_found
    ok (
        modify_deal deal.id (touch now) (record w {
          comments =
              w.comments
              ++ record {
                deal_id = deal.id;
                line_id = line_id;
                author_odoo_user_id = author;
                author_role = role;
                body = body;
                is_internal = if is_customer role then false else is_internal;
                created_at = now;
              }
                ∷ [];
        }))

  -- The note of a confirmation, if there is one.
  unfoldable pub add_note : ConfirmDealRequest → ℕ → ℕ → World S → Result (World S)
  add_note none deal now w = ok w
  add_note (some body) deal now w = add_portal_comment deal 0 Role.customer body false none now w

  unfoldable pub confirm_unapproved : Deal → ℕ → ℕ → World S → World S
  confirm_unapproved deal customer now w =
      create_notification deal.owner_odoo_user_id NotificationType.customer_accepted_pending deal.id
        none now
        (record_audit_event AuditEventType.customer_confirmed (some deal.id) deal.id
          ActorType.customer (some customer) now (modify_deal deal.id (set_accepted now) w))

module _ {S : Type 0} (gateway : Gateway S) where
  -- The order is confirmed in Odoo; an exception there is ignored.
  unfoldable pub confirm_approved : Deal → ℕ → ℕ → World S → World S
  confirm_approved deal customer now w =
      create_notification deal.owner_odoo_user_id NotificationType.order_confirmed deal.id none now
        (record_audit_event AuditEventType.order_confirmed (some deal.id) deal.id ActorType.system
          none now
          (record_audit_event AuditEventType.customer_confirmed (some deal.id) deal.id
            ActorType.customer (some customer) now
            (modify_deal deal.id (set_confirmed now)
              (try_call (gateway.confirm deal.odoo_sale_order_id) w).0)))

  -- What follows the checks, up to the commit; a deal that is settled stays as it is.
  unfoldable pub confirm_open_deal : Deal → ℕ → ConfirmDealRequest → ℕ → World S → Result (World S)
  confirm_open_deal deal customer note now w =
      if is_settled deal.status
      then ok w
      else add_note note deal.id now (
          if is_approved deal.approval_state
          then confirm_approved deal customer now w
          else confirm_unapproved deal customer now w)

  -- The view ends both paths.
  unfoldable pub confirm_deal_by_customer :
      ℕ → ℕ → ConfirmDealRequest → ℕ → World S → Result (World S × Result PortalDealRead)
  confirm_deal_by_customer deal_id customer note now w = do
    deal ← or_raise (find_deal deal_id w) entity_not_found
    raise_if (not (deal.odoo_partner_id == customer)) entity_not_found
    v ← confirm_open_deal deal customer note now w
    ok (v, get_deal_for_portal gateway deal_id customer v)
