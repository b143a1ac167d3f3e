-- ===== src/Portal/View.antt =====
-- The customer's view of a deal: `get_deal_for_portal` of app/services/portal_service.py, with the
-- queries of app/services/negotiation_service.py that it makes. Names and dates that no other
-- operation uses are left out; the whitelist of fields is the type.
use chumma.Base.{
  ℕ, ◌-◌, ◌*◌, ◌^◌, Bool, true, false, not, ◌&&◌, Option, List, map, ltb, ◌==◌, if◌then◌else◌,
  keep_if,
}
use chumma.Base.Sort.{sort_by}
use chumma.Base.Decimal.{Decimal, dec, round_half_even, on_magnitude, ◌-ᵈ◌, ◌*ᵈ◌, ◌/ᵈ◌}
use chumma.Enums.{DealStatus}
use chumma.Context.Build.{RawOrderLine, RawOrder}
use chumma.State.{
  ◌>>=◌, ◌>>◌, Deal, NegotiationRequest, PortalComment, World, Gateway, Result, ok, raise_if,
  or_raise, entity_not_found, odoo_failed,
}
use chumma.State.Tables.{find_deal}

pub record PortalLineRead : Type 0 where
  pub odoo_sale_order_line_id : ℕ
  pub odoo_product_id : ℕ
  pub product_uom_qty : Decimal
  pub price_unit : Decimal
  pub discount_pct : Decimal
  pub price_subtotal : Decimal

pub data PortalStatus : Type 0 where
  under_review : PortalStatus
  shown_as : DealStatus → PortalStatus

pub record PortalDealRead : Type 0 where
  pub reference : ℕ
  pub odoo_sale_order_id : ℕ
  pub status : PortalStatus
  pub order_discount_pct : Decimal
  pub amount_untaxed : Decimal
  pub amount_total : Decimal
  pub customer_confirmed_pending : Bool
  pub confirmed_at : Option ℕ
  pub lines : List PortalLineRead
  pub comments : List PortalComment
  pub negotiations : List NegotiationRequest

abbrev pub is_settled : DealStatus → Bool
is_settled DealStatus.confirmed = true
is_settled DealStatus.invoiced = true
is_settled DealStatus.paid = true
is_settled _ = false

-- `round(x, 2)` of a Decimal.
abbrev round_cents : Decimal → Decimal
round_cents a = record {
  coeff =
      on_magnitude (λ m. round_half_even (m * 10 ^ (2 - a.places)) (10 ^ (a.places - 2))) a.coeff;
  places = 2;
}

abbrev portal_line : RawOrderLine → PortalLineRead
portal_line l = record {
  odoo_sale_order_line_id = l.id;
  odoo_product_id = l.product_id;
  product_uom_qty = l.qty;
  price_unit = l.price_unit;
  discount_pct = l.discount_pct;
  price_subtotal =
      round_cents (l.price_unit *ᵈ l.qty *ᵈ (dec 10 1 -ᵈ (l.discount_pct /ᵈ dec 1000 1)));
}

abbrev portal_status : Deal → PortalStatus
portal_status d =
    if d.customer_confirmed_pending && not (is_settled d.status)
    then PortalStatus.under_review
    else PortalStatus.shown_as d.status

module _ {S : Type 0} where
  -- Those of one time in the order of the table.
  unfoldable pub list_portal_comments : ℕ → Bool → World S → List PortalComment
  list_portal_comments deal include_internal w =
      sort_by (λ (a : PortalComment). λ (b : PortalComment). ltb a.created_at b.created_at)
        (keep_if
          (λ c. (c.deal_id == deal) && (if include_internal then true else not c.is_internal))
          w.comments)

  unfoldable pub list_negotiation_requests : ℕ → World S → List NegotiationRequest
  list_negotiation_requests deal w =
      sort_by
        (λ (a : NegotiationRequest). λ (b : NegotiationRequest). ltb b.created_at a.created_at)
        (keep_if (λ n. n.deal_id == deal) w.negotiations)

  abbrev portal_deal : Deal → RawOrder → World S → PortalDealRead
  portal_deal d order w = record {
    reference = d.reference;
    odoo_sale_order_id = d.odoo_sale_order_id;
    status = portal_status d;
    order_discount_pct = d.order_discount_pct;
    amount_untaxed = d.amount_untaxed_cache;
    amount_total = d.amount_total_cache;
    customer_confirmed_pending = d.customer_confirmed_pending;
    confirmed_at = d.confirmed_at;
    lines = map portal_line order.lines;
    comments = list_portal_comments d.id false w;
    negotiations = list_negotiation_requests d.id w;
  }

  unfoldable pub get_deal_for_portal : Gateway S → ℕ → ℕ → World S → Result PortalDealRead
  get_deal_for_portal gateway deal_id customer w = do
    deal ← or_raise (find_deal deal_id w) entity_not_found
    raise_if (not (deal.odoo_partner_id == customer)) entity_not_found
    order ← or_raise (gateway.get_sale_order deal.odoo_sale_order_id w.odoo) odoo_failed
    ok (portal_deal deal order w)
