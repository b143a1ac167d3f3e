-- ===== src/Material.antt =====
-- app/guardian/material_change.py: whether a deal changed materially, and whether an approved
-- assessment covers a new one.
pub mod Covered
pub mod Unchanged
use chumma.Base.{
  ℕ, Bool, true, false, not, ◌&&◌, ◌||◌, Option, none, some, List, [], ◌∷◌, ◌++◌, ltb, ◌==◌,
  if◌then◌else◌, is_some, any,
}
use chumma.Base.Decimal.{Decimal, dec, ◌-ᵈ◌, lt_dec, eq_dec, abs_dec}
use chumma.State.{RiskAssessment}
use chumma.Context.{DealLine, DealContext}
use chumma.Enums.{ApprovalLevel, MaterialChangeKind, TriggerType}

-- `{l.line_id: l for l in lines}`, in the order of the dictionary: a later line with the same
-- identifier takes the place of the earlier one.
abbrev pub put_line : DealLine → List DealLine → List DealLine
put_line l [] = l ∷ []
put_line l (m ∷ ms) = if m.line_id == l.line_id then l ∷ ms else m ∷ put_line l ms

unfoldable pub lines_map : List DealLine → List DealLine → List DealLine
lines_map acc [] = acc
lines_map acc (l ∷ ls) = lines_map (put_line l acc) ls

abbrev pub get_line : ℕ → List DealLine → Option DealLine
get_line id [] = none
get_line id (l ∷ ls) = if l.line_id == id then some l else get_line id ls

-- `abs(a - b) > tolerance`
unfoldable pub differs : Decimal → Decimal → Decimal → Bool
differs tolerance a b = lt_dec tolerance (abs_dec (a -ᵈ b))

abbrev kind_code : MaterialChangeKind → ℕ
kind_code MaterialChangeKind.discount = 0
kind_code MaterialChangeKind.quantity = 1
kind_code MaterialChangeKind.line_added = 2
kind_code MaterialChangeKind.line_removed = 3
kind_code MaterialChangeKind.customer_counter = 4
kind_code MaterialChangeKind.payment_terms = 5
kind_code MaterialChangeKind.subscription_terms = 6
kind_code MaterialChangeKind.fulfillment_risk = 7

-- `changes.append(kind)` under a condition.
abbrev pub append_if : Bool → MaterialChangeKind → List MaterialChangeKind → List MaterialChangeKind
append_if b kind changes = if b then changes ++ kind ∷ [] else changes

-- The same, `if kind not in changes`.
abbrev pub append_once :
    Bool → MaterialChangeKind → List MaterialChangeKind → List MaterialChangeKind
append_once b kind changes =
    append_if (b && not (any (λ k. kind_code k == kind_code kind) changes)) kind changes

-- `new_l.is_recurring and (...)`, of exact values.
unfoldable pub terms_differ : DealLine → DealLine → Bool
terms_differ new old =
    new.is_recurring
    && (not (eq_dec new.price_unit old.price_unit)
        || not (eq_dec new.qty old.qty)
        || not (eq_dec new.discount_pct old.discount_pct))

abbrev pub line_changes : DealLine → DealLine → List MaterialChangeKind → List MaterialChangeKind
line_changes new old changes =
    append_once (terms_differ new old) MaterialChangeKind.subscription_terms (
      append_once (differs (dec 1 2) new.discount_pct old.discount_pct) MaterialChangeKind.discount
        (append_once (differs (dec 1 3) new.qty old.qty) MaterialChangeKind.quantity changes))

-- The loop over the new lines that are in the old map.
unfoldable pub lines_changes :
    List DealLine → List DealLine → List MaterialChangeKind → List MaterialChangeKind
lines_changes old [] changes = changes
lines_changes old (l ∷ ls) changes =
    lines_changes old ls
      (elim (get_line l.line_id old) [ none ↦ changes | some o ↦ line_changes l o changes ])

-- Whether a line of the first map is missing in the second.
abbrev pub has_missing : List DealLine → List DealLine → Bool
has_missing from to = any (λ l. not (is_some (get_line l.line_id to))) from

abbrev pub is_customer_negotiated : TriggerType → Bool
is_customer_negotiated TriggerType.customer_negotiated = true
is_customer_negotiated _ = false

abbrev pub is_stock_changed : TriggerType → Bool
is_stock_changed TriggerType.stock_changed = true
is_stock_changed _ = false

abbrev pub has_shortage : DealContext → Bool
has_shortage ctx = any (λ l. l.inventory_shortage) ctx.lines

-- The changes between two contexts.
unfoldable pub changes_between : DealContext → DealContext → TriggerType → List MaterialChangeKind
changes_between old new trigger =
    let old_map = lines_map [] old.lines in
    let new_map = lines_map [] new.lines in
    append_if (is_stock_changed trigger && has_shortage new && not (has_shortage old))
      MaterialChangeKind.fulfillment_risk
      (append_if (is_customer_negotiated trigger) MaterialChangeKind.customer_counter (
        lines_changes old_map new_map (
          append_if (has_missing old_map new_map) MaterialChangeKind.line_removed (
            append_if (has_missing new_map old_map) MaterialChangeKind.line_added (
              append_if (differs (dec 1 2) old.order_discount_pct new.order_discount_pct)
                MaterialChangeKind.discount [])))))

abbrev pub is_nonempty : List MaterialChangeKind → Bool
is_nonempty [] = false
is_nonempty (k ∷ ks) = true

-- `has_previous` tells whether there is a previous assessment.
unfoldable pub is_material_change :
    Option DealContext → DealContext → TriggerType → Bool → Bool × List MaterialChangeKind
is_material_change none new trigger has_previous = (true, MaterialChangeKind.discount ∷ [])
is_material_change (some old) new trigger has_previous =
    let changes = changes_between old new trigger in
    if has_previous
    then (is_nonempty changes, changes)
    else (true, MaterialChangeKind.discount ∷ [])

-- `LEVEL_PRIORITY`
abbrev pub level_priority : ApprovalLevel → ℕ
level_priority ApprovalLevel.none = 0
level_priority ApprovalLevel.manager = 1
level_priority ApprovalLevel.manager_and_finance = 2

unfoldable pub is_covered_by_approved_assessment :
    Option RiskAssessment → ApprovalLevel → Decimal → Bool
is_covered_by_approved_assessment none new_level new_risk_score = false
is_covered_by_approved_assessment (some a) new_level new_risk_score =
    if ltb (level_priority a.required_level) (level_priority new_level)
    then false
    else if lt_dec a.risk_score new_risk_score
    then false
    else true
