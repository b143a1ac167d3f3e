-- ===== src/Policy.antt =====
-- app/guardian/policy.py: the discount policy that governs a line. The table of
-- policies is a list, in the order the query returns its rows. A score is negative where a priority
-- exceeds its base, so scores are integers. Names and versions are left out.
pub mod Best
use chumma.Base.{ℕ, Bool, ◌&&◌, Option, none, some, List, [], ◌∷◌, ◌==◌, if◌then◌else◌, keep_if}
use chumma.Base.Int.{ℤ, pos, negsuc, ◌-ℤ◌, ltb_ℤ}
use chumma.Base.Decimal.{Decimal, dec, eq_dec}

-- `DiscountPolicy`; a tier code is modelled by a number.
pub record DiscountPolicy : Type 0 where
  pub id : ℕ
  pub odoo_company_id : ℕ
  pub active : Bool
  pub odoo_product_category_id : Option ℕ
  pub customer_tier_code : Option ℕ
  pub max_discount_pct : Decimal
  pub minimum_margin_pct : Option Decimal
  pub manager_threshold : Option Decimal
  pub finance_threshold : Option Decimal
  pub single_line_finance_pts : Option Decimal
  pub priority : ℤ

pub record ResolvedPolicy : Type 0 where
  pub policy_id : Option ℕ
  pub max_discount_pct : Decimal
  pub minimum_margin_pct : Decimal
  pub manager_threshold : Decimal
  pub finance_threshold : Decimal
  pub single_line_finance_pts : Decimal

-- How a policy's key stands to the line's: the wildcard, the same, or another.
pub data Match : Type 0 where
  wildcard same other : Match

abbrev pub match_key : Option ℕ → Option ℕ → Match
match_key none wanted = Match.wildcard
match_key (some k) none = Match.other
match_key (some k) (some j) = if k == j then Match.same else Match.other

-- The base of the score, by the category and the tier; `none` is the code's `continue`.
abbrev pub base_score : Match → Match → Option ℕ
base_score Match.same Match.same = some 400
base_score Match.same Match.wildcard = some 300
base_score Match.wildcard Match.same = some 200
base_score Match.wildcard Match.wildcard = some 100
base_score _ _ = none

module _ (tier_code : ℕ) (category_id : Option ℕ) where
  unfoldable pub score : DiscountPolicy → Option ℤ
  score p =
      elim (base_score (match_key p.odoo_product_category_id category_id)
        (match_key p.customer_tier_code (some tier_code))) [
          | none ↦ none
          | some base ↦ some (pos base -ℤ p.priority)
        ]

  -- The loop, from the best policy so far and its score.
  unfoldable pub best_from : Option DiscountPolicy → ℤ → List DiscountPolicy → Option DiscountPolicy
  best_from best best_score [] = best
  best_from best best_score (p ∷ ps) = elim (score p) [
    | none ↦ best_from best best_score ps
    | some s ↦ if ltb_ℤ best_score s then best_from (some p) s ps else best_from best best_score ps
  ]

-- `value or default`: a zero counts as missing.
abbrev or_default : Option Decimal → Decimal → Decimal
or_default none default = default
or_default (some d) default = if eq_dec d (dec 0 0) then default else d

abbrev pub is_candidate : ℕ → DiscountPolicy → Bool
is_candidate company_id p = p.active && (p.odoo_company_id == company_id)

-- The policy returned, by the one found and the tier's ceiling.
abbrev pub policy_of : Decimal → Option DiscountPolicy → ResolvedPolicy
policy_of tier_default_ceiling none = record {
  policy_id = none;
  max_discount_pct = tier_default_ceiling;
  minimum_margin_pct = dec 2000 2;
  manager_threshold = dec 2000 2;
  finance_threshold = dec 5000 2;
  single_line_finance_pts = dec 1000 2;
}
policy_of tier_default_ceiling (some p) = record {
  policy_id = some p.id;
  max_discount_pct = p.max_discount_pct;
  minimum_margin_pct = or_default p.minimum_margin_pct (dec 2000 2);
  manager_threshold = or_default p.manager_threshold (dec 2000 2);
  finance_threshold = or_default p.finance_threshold (dec 5000 2);
  single_line_finance_pts = or_default p.single_line_finance_pts (dec 1000 2);
}

unfoldable pub resolve_policy_for_line :
    List DiscountPolicy → ℕ → ℕ → Option ℕ → Decimal → ResolvedPolicy
resolve_policy_for_line policies company_id tier_code category_id tier_default_ceiling =
    policy_of tier_default_ceiling
      (best_from tier_code category_id none (negsuc 0) (keep_if (is_candidate company_id) policies))
