-- ===== src/Portal/Outcome.antt =====
-- What `confirm_deal_by_customer` of app/services/portal_service.py makes of the deal and of Odoo.
use chumma.Base.{◌++◌, ℕ, ◌≡◌, Bool, some, ◌++◌}
use chumma.Enums.{DealStatus}
use chumma.State.{Deal, World}
use chumma.State.Tables.{find_deal}

-- The customer and the order are the deal's.
abbrev OfOrder : Deal → Deal → Type 0
OfOrder old d =
    (d.odoo_partner_id ≡ old.odoo_partner_id) × (d.odoo_sale_order_id ≡ old.odoo_sale_order_id)

-- The deal as a confirmation leaves it, and the state of Odoo.
module _ {S : Type 0} where
  abbrev IsLeft : ℕ → Deal → DealStatus → Bool → S → World S → Type 0
  IsLeft k old status pending odoo w =
      (d : Deal) × (find_deal k w ≡ some d)
      × (d.status ≡ status)
      × (d.customer_confirmed_pending ≡ pending)
      × (w.odoo ≡ odoo)
      × OfOrder old d
