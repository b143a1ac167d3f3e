-- ===== src/Evaluation/Simulate.antt =====
-- `simulate_deal_what_if` of app/guardian/evaluator.py: the risk at other discounts and quantities,
-- by the default thresholds. The amounts that the context has computed from the lines stay.
use chumma.Base.{
  subst, ℕ, ◌≡◌, refl, sym, ap, ◌∙◌, false, Option, none, some, List, [], ◌∷◌, map, All,
}
use chumma.Base.Decimal.{Decimal}
use chumma.Context.{DealContext, DealLine, lookup}
use chumma.Risk.{RiskCalculationResult, default_settings}
use chumma.Risk.Score.{calculate_deal_risk}
use chumma.Deals.{Catalog, get_deal_by_id}
use chumma.State.{World, Gateway, Result, ok, ◌>>=◌}
use chumma.Evaluation.{context_for, policy_for, put_ceiling, with_policy, resolve_lines, assess}

-- The overrides; a missing dictionary is an empty one.
pub record WhatIf : Type 0 where
  pub order_discount_pct : Option Decimal
  pub line_discounts : List (ℕ × Decimal)
  pub line_quantities : List (ℕ × Decimal)

abbrev override_with : Option Decimal → Decimal → Decimal
override_with none old = old
override_with (some new) old = new

abbrev pub what_if_line : WhatIf → DealLine → DealLine
what_if_line o l = record l {
  discount_pct = override_with (lookup l.line_id o.line_discounts) l.discount_pct;
  qty = override_with (lookup l.line_id o.line_quantities) l.qty;
}

abbrev pub what_if_context : WhatIf → DealContext → DealContext
what_if_context o ctx = record ctx {
  order_discount_pct = override_with o.order_discount_pct ctx.order_discount_pct;
  lines = map (what_if_line o) ctx.lines;
}

unfoldable pub simulate : Catalog → WhatIf → DealContext → RiskCalculationResult
simulate catalog o ctx =
    calculate_deal_risk (what_if_context o ctx)
      (resolve_lines catalog ctx ctx.lines [] default_settings).0 default_settings

module _ {S : Type 0} (gateway : Gateway S) where
  unfoldable pub simulate_deal_what_if :
      Catalog → ℕ → WhatIf → World S → Result RiskCalculationResult
  simulate_deal_what_if catalog id o w = do
    deal ← get_deal_by_id id w
    ctx ← context_for gateway catalog deal deal.odoo_sale_order_id w
    ok (simulate catalog o ctx)

-- The thresholds that a line's policy sets are the defaults.
abbrev pub HasDefaults : Catalog → DealContext → DealLine → Type 0
HasDefaults catalog ctx l =
    with_policy (policy_for catalog ctx l) default_settings ≡ default_settings

same_settings :
    (catalog : Catalog) (ctx : DealContext) (ls : List DealLine) (cs : List (ℕ × Decimal))
    → All (HasDefaults catalog ctx) ls
    → (resolve_lines catalog ctx ls cs default_settings).1 ≡ default_settings
unfolding resolve_lines
same_settings catalog ctx [] cs h = refl
same_settings catalog ctx (l ∷ ls) cs (h, hs) =
    subst
      (λ s.
        (resolve_lines catalog ctx ls
          (put_ceiling l.line_id (policy_for catalog ctx l).max_discount_pct cs) s).1
        ≡ default_settings)
      (sym h) (same_settings catalog ctx ls _ hs)

-- No override at all.
abbrev pub plain : WhatIf
plain = record { order_discount_pct = none; line_discounts = []; line_quantities = [] }

plain_lines : (ls : List DealLine) → map (what_if_line plain) ls ≡ ls
plain_lines [] = refl
plain_lines (l ∷ ls) = ap (λ ms. l ∷ ms) (plain_lines ls)

-- Without overrides the what-if risk is the risk of the evaluation, for a deal without an open
-- counter-offer whose policies have the default thresholds.
pub simulate-plain :
    (catalog : Catalog) (ctx : DealContext)
    → All (HasDefaults catalog ctx) ctx.lines
    → simulate catalog plain ctx ≡ assess catalog ctx false
unfolding simulate assess
simulate-plain catalog ctx h =
    ap
      (λ ls.
        calculate_deal_risk (record ctx { lines = ls })
          (resolve_lines catalog ctx ctx.lines [] default_settings).0 default_settings)
      (plain_lines ctx.lines)
    ∙ ap
        (λ s.
          calculate_deal_risk ctx (resolve_lines catalog ctx ctx.lines [] default_settings).0
            (record s { has_open_negotiation_counter = false }))
        (sym (same_settings catalog ctx ctx.lines [] h))
