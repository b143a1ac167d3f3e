-- ===== src/Context.antt =====
-- app/services/deal_context_builder.py: what the evaluation knows of a deal. A float is modelled by
-- the decimal that its text denotes, a tier code by a number, a product type by the upper case of
-- its text. Names, dates, the currency, the team and the state of the order are left out.
pub mod Build
use chumma.Base.{
  ◌==◌, if◌then◌else◌, some, none, [], ◌∷◌, subst, ℕ, zero, suc, ◌+◌, ◌-◌, ◌*◌, ◌/◌, ◌%◌, ◌^◌, ◌≤◌,
  ◌<◌, String, ◌≡◌, refl, sym, ap, ◌∙◌, ◌≢◌, ◌↔◌, ◌⊎◌, inl, inr, Bool, true, false, not, ◌&&◌, ◌||◌,
  Option, none, some, List, [], ◌∷◌, ◌++◌, map, arith, ltb, leb, ◌==◌, if◌then◌else◌, leb→le,
  ==_iff, ==_refl, Bool-cases, Option-cases, if-cases, is_some, length, keep_if, any, all,
  find_first, sum_of, All, sum_of-append, length-append, All-append, All-keep_if,
}
use chumma.Base.Int.{
  ℤ, pos, negsuc, pos_part, neg_part, sub_ℕ, ◌+ℤ◌, ◌-ℤ◌, ◌*ℤ◌, ◌≤ℤ◌, ltb_ℤ, leb_ℤ, eqb_ℤ, +ℤ_parts,
  -ℤ_parts, eq_of_parts, int_laws,
}
use chumma.Base.Decimal.{Decimal, on_magnitude}

-- `str(product_type).upper()`
pub data ProductType : Type 0 where
  product consu stockable other : ProductType

-- The fields of `DealLineContext`.
pub record DealLine : Type 0 where
  pub line_id : ℕ
  pub product_id : ℕ
  pub category_id : ℕ
  pub category_path : List ℕ
  pub product_type : ProductType
  pub qty : Decimal
  pub price_unit : Decimal
  pub list_price : Decimal
  pub discount_pct : Decimal
  pub unit_cost : Decimal
  pub subtotal : Decimal
  pub cost_subtotal : Decimal
  pub margin_amount : Decimal
  pub margin_pct : Decimal
  pub is_recurring : Bool
  pub tax_rate_pct : Decimal
  pub available_qty : ℤ
  pub inventory_shortage : Bool

-- The fields of `DealContext`.
pub record DealContext : Type 0 where
  pub deal_id : Option ℕ
  pub odoo_sale_order_id : ℕ
  pub partner_id : ℕ
  pub tier_code : ℕ
  pub tier_default_ceiling : Decimal
  pub company_id : ℕ
  pub user_id : ℕ
  pub order_discount_pct : Decimal
  pub amount_untaxed : Decimal
  pub amount_total : Decimal
  pub one_time_total : Decimal
  pub recurring_first_cycle_total : Decimal
  pub total_cost : Decimal
  pub total_margin_amount : Decimal
  pub total_margin_pct : Decimal
  pub blended_discount_pct : Decimal
  pub lines : List DealLine
  pub historical_rep_avg_discount : Option Decimal
  pub historical_rep_stddev : Option Decimal
  pub line_count : ℕ

-- `str(l.product_type).upper() in ("PRODUCT", "CONSU", "STOCKABLE")`
abbrev pub is_stockable : ProductType → Bool
is_stockable ProductType.other = false
is_stockable _ = true

-- `int(qty)`, towards zero.
unfoldable pub int_of : Decimal → ℤ
int_of d = on_magnitude (λ m. m / 10 ^ d.places) d.coeff

-- `dict.get(key)`, and the first row with a key.
abbrev pub lookup {ℓ} : {V : Type ℓ} → ℕ → List (ℕ × V) → Option V
lookup k [] = none
lookup k ((j, v) ∷ rest) = if j == k then some v else lookup k rest
