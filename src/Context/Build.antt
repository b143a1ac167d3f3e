-- ===== src/Context/Build.antt =====
-- `build_deal_context` of app/services/deal_context_builder.py. The sale order is Odoo's answer, and
-- so is the availability, `none` where the call raised. `none` as a context is the `NotFoundError`.
use chumma.Base.{
  find_first, ℕ, Bool, true, false, not, ◌&&◌, Option, none, some, List, [], ◌∷◌, map, ◌==◌,
  if◌then◌else◌, length, keep_if,
}
use chumma.Base.Int.{ℤ, pos, ◌+ℤ◌, ltb_ℤ}
use chumma.Base.Decimal.{Decimal, dec, ◌+ᵈ◌, ◌-ᵈ◌, ◌*ᵈ◌, ◌/ᵈ◌, lt_dec, sum_from, quantize_dec}
use chumma.Context.{lookup, DealLine, DealContext, ProductType, is_stockable, int_of}

-- `RawOrderLine` and `RawOrderHeader` of app/odoo/interface.py, as far as they are read here.
pub record RawOrderLine : Type 0 where
  pub id : ℕ
  pub product_id : ℕ
  pub category_id : ℕ
  pub category_path : List ℕ
  pub product_type : ProductType
  pub qty : Decimal
  pub price_unit : Decimal
  pub discount_pct : Decimal
  pub unit_cost : Decimal
  pub tax_rate_pct : Decimal
  pub is_recurring : Bool

pub record RawOrder : Type 0 where
  pub id : ℕ
  pub partner_id : ℕ
  pub company_id : ℕ
  pub user_id : ℕ
  pub lines : List RawOrderLine

-- `RepDiscountStats`
pub record RepStats : Type 0 where
  pub odoo_user_id : ℕ
  pub avg_weighted_discount_pct : Decimal
  pub stddev : Decimal

-- The tables that the builder reads: partners' tiers, tiers' ceilings, and the statistics of the
-- sales representatives.
pub record Customers : Type 0 where
  pub assignments : List (ℕ × ℕ)
  pub tiers : List (ℕ × Decimal)
  pub rep_stats : List RepStats
  -- The code 'STANDARD'.
  pub standard : ℕ

-- `get_availability`: for a product, its stock by warehouse.
abbrev pub StockMap : Type 0
StockMap = List (ℕ × List (ℕ × ℤ))

-- `percent(a)` is `a / Decimal("100")`.
abbrev percent : Decimal → Decimal
percent a = a /ᵈ dec 100 0

abbrev total_stock : ℤ → List (ℕ × ℤ) → ℤ
total_stock acc [] = acc
total_stock acc ((w, q) ∷ rest) = total_stock (acc +ℤ q) rest

unfoldable pub tier_of : Customers → ℕ → ℕ
tier_of c partner = elim (lookup partner c.assignments) [ none ↦ c.standard | some t ↦ t ]

unfoldable pub ceiling_of : Customers → ℕ → Decimal
ceiling_of c tier = elim (lookup tier c.tiers) [ none ↦ dec 500 2 | some d ↦ d ]

abbrev pub product_stock : StockMap → ℕ → List (ℕ × ℤ)
product_stock m pid = elim (lookup pid m) [ none ↦ [] | some s ↦ s ]

abbrev pub at_main : List (ℕ × ℤ) → ℤ
at_main s = elim (lookup 1 s) [ none ↦ pos 0 | some q ↦ q ]

unfoldable pub line_subtotal : Decimal → Decimal → Decimal → Decimal
line_subtotal qty price disc = quantize_dec (qty *ᵈ price *ᵈ (dec 1 0 -ᵈ percent disc)) 2

-- `quantize_dec((part / whole) * 100, 2) if whole > 0 else 0.00`
unfoldable pub share_pct : Decimal → Decimal → Decimal
share_pct part whole =
    if lt_dec (dec 0 0) whole then quantize_dec ((part /ᵈ whole) *ᵈ dec 100 0) 2 else dec 0 2

-- One turn of the loop: the line of the context.
unfoldable pub line_context : StockMap → RawOrderLine → DealLine
line_context stock l =
    let qty = quantize_dec l.qty 2 in
    let price = quantize_dec l.price_unit 2 in
    let disc = quantize_dec l.discount_pct 2 in
    let cost = quantize_dec l.unit_cost 2 in
    let subtotal = line_subtotal qty price disc in
    let line_cost = quantize_dec (qty *ᵈ cost) 2 in
    let margin = quantize_dec (subtotal -ᵈ line_cost) 2 in
    let here = product_stock stock l.product_id in
    record {
      line_id = l.id;
      product_id = l.product_id;
      category_id = l.category_id;
      category_path = l.category_path;
      product_type = l.product_type;
      qty = qty;
      price_unit = price;
      list_price = price;
      discount_pct = disc;
      unit_cost = cost;
      subtotal = subtotal;
      cost_subtotal = line_cost;
      margin_amount = margin;
      margin_pct = share_pct margin subtotal;
      is_recurring = l.is_recurring;
      tax_rate_pct = quantize_dec l.tax_rate_pct 2;
      available_qty = total_stock (pos 0) here;
      inventory_shortage = is_stockable l.product_type && ltb_ℤ (at_main here) (int_of qty);
    }

-- The totals of the loop, each a sum in the order of the lines.
unfoldable pub list_revenue : List DealLine → Decimal
list_revenue ls = sum_from (dec 0 2) (map (λ l. l.qty *ᵈ l.price_unit) ls)

unfoldable pub untaxed_total : List DealLine → Decimal
untaxed_total ls = sum_from (dec 0 2) (map (λ l. l.subtotal) ls)

unfoldable pub cost_total : List DealLine → Decimal
cost_total ls = sum_from (dec 0 2) (map (λ l. l.cost_subtotal) ls)

unfoldable pub tax_total : List DealLine → Decimal
tax_total ls =
    sum_from (dec 0 2) (map (λ l. quantize_dec (l.subtotal *ᵈ percent l.tax_rate_pct) 2) ls)

-- What recurs, by `true`, and what is paid once.
unfoldable pub cycle_total : Bool → List DealLine → Decimal
cycle_total recurring ls = sum_from (dec 0 2) (
    map (λ l. l.subtotal)
      (keep_if (λ l. if recurring then l.is_recurring else not l.is_recurring) ls))

-- The context, from the order and the availability.
unfoldable pub context_of : Customers → Option ℕ → RawOrder → StockMap → DealContext
context_of c deal order stock =
    let lines = map (line_context stock) order.lines in
    let tier = tier_of c order.partner_id in
    let revenue = list_revenue lines in
    let untaxed = untaxed_total lines in
    let cost = cost_total lines in
    let margin = quantize_dec (untaxed -ᵈ cost) 2 in
    let stats = find_first (λ s. s.odoo_user_id == order.user_id) c.rep_stats in
    record {
      deal_id = deal;
      odoo_sale_order_id = order.id;
      partner_id = order.partner_id;
      tier_code = tier;
      tier_default_ceiling = ceiling_of c tier;
      company_id = if order.company_id == 0 then 1 else order.company_id;
      user_id = order.user_id;
      order_discount_pct = dec 0 2;
      amount_untaxed = untaxed;
      amount_total = quantize_dec (untaxed +ᵈ tax_total lines) 2;
      one_time_total = cycle_total false lines;
      recurring_first_cycle_total = cycle_total true lines;
      total_cost = cost;
      total_margin_amount = margin;
      total_margin_pct = share_pct margin untaxed;
      blended_discount_pct = share_pct (revenue -ᵈ untaxed) revenue;
      lines = lines;
      historical_rep_avg_discount = elim stats [
        | none ↦ none
        | some s ↦ some s.avg_weighted_discount_pct
      ];
      historical_rep_stddev = elim stats [ none ↦ none | some s ↦ some s.stddev ];
      line_count = length lines;
    }

abbrev is_empty : List RawOrderLine → Bool
is_empty [] = true
is_empty (l ∷ ls) = false

-- An availability call that raises counts as no stock; an order without lines makes none.
unfoldable pub build_deal_context :
    Customers → Option RawOrder → (List ℕ → Option StockMap) → Option ℕ → Option DealContext
build_deal_context c none availability deal = none
build_deal_context c (some order) availability deal =
    let ids = map (λ l. l.product_id) order.lines in
    let stock =
      if is_empty order.lines then [] else elim (availability ids) [ none ↦ [] | some m ↦ m ] in
    some (context_of c deal order stock)
