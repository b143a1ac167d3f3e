-- ===== src/Risk/Levels.antt =====
-- The levels of approval of app/guardian/risk.py.
use chumma.Base.{
  ◌⊎◌, [], inr, ◌∷◌, inl, Bool-cases, sym, ap, All, ◌∙◌, ℕ, List, arith, ◌≡◌, refl, ◌↔◌, Bool, true,
  false, not, ◌&&◌, ◌||◌, if◌then◌else◌,
}
use chumma.Enums.{ApprovalLevel, RiskSeverity}
use chumma.Risk.Score.{severity_of, level_of, calculate_deal_risk}
use chumma.Risk.{LineOverage, line_overages, max_overage, RiskSettings}
use chumma.Context.{DealContext}
use chumma.Base.Decimal.{le_dec, dec, lt_dec, eq_dec, Decimal}
use chumma.Risk.Overages.{overages_le_max, max_zero_iff, IsWithinCeiling}
use chumma.Base.Order.{eq_iff_le, le_trans, le_not_lt}

-- `level_of` and `severity_of`, over the outcomes of the tests.
abbrev level_at : Bool → Bool → Bool → Bool → ApprovalLevel
level_at within low high single =
    if within && low
    then ApprovalLevel.none
    else if high || single
    then ApprovalLevel.manager_and_finance
    else ApprovalLevel.manager

abbrev severity_at : Bool → Bool → RiskSeverity
severity_at low medium =
    if low then RiskSeverity.low else if medium then RiskSeverity.medium else RiskSeverity.high

level_at_none :
    (within low high single : Bool)
    → (level_at within low high single ≡ ApprovalLevel.none) ↔ ((within ≡ true) × (low ≡ true))
level_at_none true true high single = ground arith
level_at_none true false high single = ground arith
level_at_none false low high single = ground arith

low_of_none :
    (within low high single : Bool)
    → level_at within low high single ≡ ApprovalLevel.none
    → severity_at low (not high) ≡ RiskSeverity.low
low_of_none within true high single h = refl
low_of_none within false high single h = ground arith

finance_of_high :
    (within low high single : Bool)
    → severity_at low (not high) ≡ RiskSeverity.high
    → level_at within low high single ≡ ApprovalLevel.manager_and_finance
finance_of_high within true high single h = cc
finance_of_high true false high single h = ground arith
finance_of_high false false high single h = ground arith

finance_of_single :
    (within low high single : Bool)
    → within ≡ false
    → single ≡ true
    → level_at within low high single ≡ ApprovalLevel.manager_and_finance
finance_of_single within low true single h k = rw h refl
finance_of_single within low false single h k = rw (h, k) refl

level_of-at :
    (s : RiskSettings) (overage score : Decimal)
    → level_of s overage score
      ≡ level_at
          (eq_dec overage (dec 0 0))
          (lt_dec score s.manager_threshold)
          (lt_dec s.finance_threshold score)
          (le_dec s.single_line_finance_pts overage)
unfolding level_of
level_of-at s overage score = refl

severity_of-at :
    (s : RiskSettings) (score : Decimal)
    → severity_of s score
      ≡ severity_at (lt_dec score s.manager_threshold) (not (lt_dec s.finance_threshold score))
unfolding severity_of
severity_of-at s score =
    ap (severity_at (lt_dec score s.manager_threshold)) (le_not_lt score s.finance_threshold)

none_iff :
    (ctx : DealContext) (ceilings : List (ℕ × Decimal)) (s : RiskSettings) (score : Decimal)
    → (level_of s (max_overage (line_overages ctx ceilings)) score ≡ ApprovalLevel.none) ↔ (
        All IsWithinCeiling (line_overages ctx ceilings)
        × (lt_dec score s.manager_threshold ≡ true))
none_iff ctx ceilings s score =
    let most = max_overage (line_overages ctx ceilings) in
    let same = level_of-at s most score in
    let (there, back) = max_zero_iff ctx ceilings in
    let (to, from) =
      level_at_none (eq_dec most (dec 0 0)) (lt_dec score s.manager_threshold)
        (lt_dec s.finance_threshold score) (le_dec s.single_line_finance_pts most) in
    (λ h. (there (to (sym same ∙ h)).0, (to (sym same ∙ h)).1), λ h. same ∙ from (back h.0, h.1))

-- A deal needs no approval exactly when no line exceeds its ceiling and the score is below the
-- manager's threshold.
pub auto_approval_iff :
    (ctx : DealContext) (ceilings : List (ℕ × Decimal)) (s : RiskSettings)
    → let r = calculate_deal_risk ctx ceilings s in
      (r.required_level ≡ ApprovalLevel.none) ↔ (
        All IsWithinCeiling (line_overages ctx ceilings)
        × (lt_dec r.risk_score s.manager_threshold ≡ true))
unfolding calculate_deal_risk
auto_approval_iff ctx ceilings s = none_iff ctx ceilings s _

agree :
    (s : RiskSettings) (overage score : Decimal)
    → (level_of s overage score ≡ ApprovalLevel.none → severity_of s score ≡ RiskSeverity.low)
      × (severity_of s score ≡ RiskSeverity.high
          → level_of s overage score ≡ ApprovalLevel.manager_and_finance)
agree s overage score =
    let level = level_of-at s overage score in
    let severity = severity_of-at s score in
    let within = eq_dec overage (dec 0 0) in
    let low = lt_dec score s.manager_threshold in
    let high = lt_dec s.finance_threshold score in
    let single = le_dec s.single_line_finance_pts overage in
    (
      λ h. severity ∙ low_of_none within low high single (sym level ∙ h),
      λ h. level ∙ finance_of_high within low high single (sym severity ∙ h),
    )

-- A deal that needs no approval is of low severity, and one of high severity needs the finance
-- team's approval as well.
pub severity_level :
    (ctx : DealContext) (ceilings : List (ℕ × Decimal)) (s : RiskSettings)
    → let r = calculate_deal_risk ctx ceilings s in
      (r.required_level ≡ ApprovalLevel.none → r.severity ≡ RiskSeverity.low)
      × (r.severity ≡ RiskSeverity.high → r.required_level ≡ ApprovalLevel.manager_and_finance)
unfolding calculate_deal_risk
severity_level ctx ceilings s = agree s (max_overage (line_overages ctx ceilings)) _

-- Some line exceeds its ceiling by so many points.
abbrev pub HasOverage : Decimal → List LineOverage → Type 0
HasOverage pts [] = ⊥
HasOverage pts (o ∷ os) = (le_dec pts o.overage ≡ true) ⊎ HasOverage pts os

over_le_max :
    (pts m : Decimal) (os : List LineOverage)
    → HasOverage pts os
    → All (λ o. le_dec o.overage m ≡ true) os
    → le_dec pts m ≡ true
over_le_max pts m [] h k = elim h [ ]
over_le_max pts m (o ∷ os) (inl h) (k, ks) = le_trans pts o.overage m h k
over_le_max pts m (o ∷ os) (inr h) (k, ks) = over_le_max pts m os h ks

above_zero :
    (pts m : Decimal)
    → lt_dec (dec 0 0) pts ≡ true
    → le_dec pts m ≡ true
    → eq_dec m (dec 0 0) ≡ false
above_zero pts m positive h = elim (Bool-cases (eq_dec m (dec 0 0))) [
  | inl same ↦
      (let below = le_trans pts m (dec 0 0) h ((eq_iff_le m (dec 0 0)).0 same).0 in
        impossible (sym below ∙ le_not_lt pts (dec 0 0) ∙ ap not positive))
  | inr differs ↦ differs
]
  where
    impossible : true ≡ false → eq_dec m (dec 0 0) ≡ false
    impossible e = cc

-- One line that exceeds its ceiling by the points of the policy, which are more than zero, makes
-- the deal need both approvals, whatever the score.
pub single_line_escalates :
    (ctx : DealContext) (ceilings : List (ℕ × Decimal)) (s : RiskSettings)
    → lt_dec (dec 0 0) s.single_line_finance_pts ≡ true
    → HasOverage s.single_line_finance_pts (line_overages ctx ceilings)
    → (calculate_deal_risk ctx ceilings s).required_level ≡ ApprovalLevel.manager_and_finance
unfolding calculate_deal_risk
single_line_escalates ctx ceilings s positive h =
    let os = line_overages ctx ceilings in
    let reached =
      over_le_max s.single_line_finance_pts (max_overage os) os h (overages_le_max os) in
    level_of-at s (max_overage os) _
    ∙ finance_of_single _ _ _ _
        (above_zero s.single_line_finance_pts (max_overage os) positive reached) reached
