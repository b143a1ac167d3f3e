-- ===== src/Material/Covered.antt =====
-- What an approved assessment covers: app/guardian/material_change.py.
use chumma.Base.{ℕ, ◌≤◌, ◌≡◌, true, false, some, arith, ltb, if-cases}
use chumma.Base.Decimal.{Decimal, lt_dec}
use chumma.Enums.{ApprovalLevel}
use chumma.State.{RiskAssessment}
use chumma.Material.{level_priority, is_covered_by_approved_assessment}

-- The first level asks for no more than the second: nobody, the manager, the manager and the finance
-- team.
pub data NoHigher : ApprovalLevel → ApprovalLevel → Type 0 where
  nobody : {b : ApprovalLevel} → NoHigher ApprovalLevel.none b
  the_manager : NoHigher ApprovalLevel.manager ApprovalLevel.manager
  one_of_both : NoHigher ApprovalLevel.manager ApprovalLevel.manager_and_finance
  both : NoHigher ApprovalLevel.manager_and_finance ApprovalLevel.manager_and_finance

no_higher : (a b : ApprovalLevel) → level_priority a ≤ level_priority b → NoHigher a b
no_higher ApprovalLevel.none b h = nobody
no_higher ApprovalLevel.manager ApprovalLevel.manager h = the_manager
no_higher ApprovalLevel.manager ApprovalLevel.manager_and_finance h = one_of_both
no_higher ApprovalLevel.manager ApprovalLevel.none h = absurd (omega (arith, h))
no_higher ApprovalLevel.manager_and_finance ApprovalLevel.manager_and_finance h = both
no_higher ApprovalLevel.manager_and_finance ApprovalLevel.manager h = absurd (omega (arith, h))
no_higher ApprovalLevel.manager_and_finance ApprovalLevel.none h = absurd (omega (arith, h))

-- The new evaluation asks for no higher level than the approved assessment and has no higher score.
abbrev pub IsNoWorse : RiskAssessment → ApprovalLevel → Decimal → Type 0
IsNoWorse a level score = NoHigher level a.required_level × (lt_dec a.risk_score score ≡ false)

pub covered-IsNoWorse :
    (a : RiskAssessment) (level : ApprovalLevel) (score : Decimal)
    → is_covered_by_approved_assessment (some a) level score ≡ true
    → IsNoWorse a level score
unfolding is_covered_by_approved_assessment
covered-IsNoWorse a level score =
    if-cases (λ b. b ≡ true → IsNoWorse a level score)
      (ltb (level_priority a.required_level) (level_priority level)) false _ (λ _ h. vacuous h)
      (λ low.
        if-cases (λ b. b ≡ true → IsNoWorse a level score) (lt_dec a.risk_score score) false true
          (λ _ h. vacuous h) (λ less _. (no_higher level a.required_level (at_most _ _ low), less)))
  where
    vacuous : {T : Type 0} → false ≡ true → T
    vacuous e = cc

    at_most : (x y : ℕ) → ltb x y ≡ false → y ≤ x
    at_most x y h = ground arith
