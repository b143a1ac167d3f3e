-- ===== src/PlanService/Run.antt =====
-- Runs of the operations of app/services/fulfillment_service.py on the stored plans.
use chumma.Base.{
  subst, ℕ, ◌+◌, ◌≤◌, String, ◌≡◌, refl, sym, ap, ◌∙◌, Bool, true, false, ◌&&◌, Option, some, List,
  [], ◌∷◌, map, arith, ◌==◌, if◌then◌else◌, if-cases, sum_of, sum_of-append,
}
use chumma.Fulfillment.{Strategy}
use chumma.Approval.Counts.{one_if}
use chumma.Enums.{FulfillmentPlanStatus}
use chumma.State.{Actor, World, Gateway, ok}
use chumma.State.Plans.{FulfillmentPlan}
use chumma.State.Tables.{modify_row}
use chumma.PlanService.{plan_id, is_proposal, accept_fulfillment_plan, apply_fulfillment_plan}
use chumma.PlanService.Propose.{supersede_plan, propose_fulfillment_plan, consolidate_backorder}
use chumma.PlanService.Override.{OverrideItem, override_fulfillment_plan}
use chumma.PlanService.Life.{
  applying_overridden, applying_accepted, overriding_accepted, overriding, accepting, superseding,
  Becomes, stays, status_in,
}
use chumma.PlanService.Changes.{
  PlanChange, adds, sets, PlanChange-Progress, accept-PlanChange, propose-PlanChange,
  consolidate-PlanChange, override-PlanChange, apply-PlanChange,
}

-- A proposal of a deal counts one.
abbrev pub proposal_of : ℕ → FulfillmentPlan → ℕ
proposal_of k p = one_if ((p.deal_id == k) && is_proposal p.status)

abbrev pub proposals : ℕ → List FulfillmentPlan → ℕ
proposals k = sum_of (proposal_of k)

not_counted :
    (x d k : ℕ) (b : Bool)
    → ((x == d) && b) ≡ true
    → one_if ((x == k) && false) ≡ (if d == k then 0 else one_if ((x == k) && b))
not_counted x d k true h = ground arith
not_counted x d k false h = ground arith

counted :
    (x d k : ℕ) (b : Bool)
    → ((x == d) && b) ≡ false
    → one_if ((x == k) && b) ≡ (if d == k then 0 else one_if ((x == k) && b))
counted x d k true h = ground arith
counted x d k false h = ground arith

superseded_proposal :
    (deal k : ℕ) (p : FulfillmentPlan)
    → proposal_of k (supersede_plan deal p) ≡ (if deal == k then 0 else proposal_of k p)
superseded_proposal deal k p =
    if-cases (λ q. proposal_of k q ≡ (if deal == k then 0 else proposal_of k p))
      ((p.deal_id == deal) && is_proposal p.status)
      (record p { status = FulfillmentPlanStatus.superseded }) p
      (λ e. not_counted p.deal_id deal k (is_proposal p.status) e)
      (λ e. counted p.deal_id deal k (is_proposal p.status) e)

supersede-proposals :
    (deal k : ℕ) (ps : List FulfillmentPlan)
    → proposals k (map (supersede_plan deal) ps) ≡ (if deal == k then 0 else proposals k ps)
supersede-proposals deal k [] = ground arith
supersede-proposals deal k (p ∷ ps) =
    add_parts (deal == k) _ _ (proposal_of k p) (proposals k ps) (superseded_proposal deal k p)
      (supersede-proposals deal k ps)
  where
    add_parts :
        (b : Bool) (x y m n : ℕ)
        → x ≡ (if b then 0 else m)
        → y ≡ (if b then 0 else n)
        → x + y ≡ (if b then 0 else m + n)
    add_parts true x y m n e f = omega (arith, e, f)
    add_parts false x y m n e f = omega (arith, e, f)

closed_proposal : (k : ℕ) (p : FulfillmentPlan) → is_proposal p.status ≡ false → proposal_of k p ≡ 0
closed_proposal k p e = ap (λ b. one_if ((p.deal_id == k) && b)) e ∙ nothing (p.deal_id == k)
  where
    nothing : (b : Bool) → one_if (b && false) ≡ 0
    nothing true = refl
    nothing false = refl

modify-proposals :
    (k j : ℕ) (f : FulfillmentPlan → FulfillmentPlan) (ps : List FulfillmentPlan)
    → ((q : FulfillmentPlan) → is_proposal (f q).status ≡ false)
    → proposals k (modify_row plan_id j f ps) ≤ proposals k ps
modify-proposals k j f [] closed = omega arith
modify-proposals k j f (p ∷ ps) closed =
    if-cases (λ qs. proposals k qs ≤ proposals k (p ∷ ps)) (p.id == j) _ _
      (λ _. omega (arith, closed_proposal k (f p) (closed p)))
      (λ _. omega (arith, modify-proposals k j f ps closed))

-- No deal has more than one proposal.
abbrev pub IsSingle : List FulfillmentPlan → Type 0
IsSingle ps = (k : ℕ) → proposals k ps ≤ 1

at_most : (b c : Bool) → one_if (b && c) ≤ one_if (b)
at_most true true = omega arith
at_most true false = omega arith
at_most false c = omega arith

total :
    (b : Bool) {n m s x : ℕ}
    → n ≤ 1
    → m ≡ (if b then 0 else n)
    → s ≡ m + (x + 0)
    → x ≤ one_if (b)
    → s ≤ 1
total true h e f g = omega (arith, h, e, f, g)
total false h e f g = omega (arith, h, e, f, g)

change-IsSingle : {ps qs : List FulfillmentPlan} → PlanChange ps qs → IsSingle ps → IsSingle qs
change-IsSingle (adds deal new ps own) h k =
    let before = supersede-proposals deal k ps in
    let all = sum_of-append (proposal_of k) (map (supersede_plan deal) ps) (new ∷ []) in
    let own_only =
      subst (λ d. one_if ((d == k) && is_proposal new.status) ≤ one_if (deal == k)) (sym own)
        (at_most (deal == k) (is_proposal new.status)) in
    total (deal == k) (h k) before all own_only
change-IsSingle (sets j f p ps found keeps step closed) h k =
    omega (arith, modify-proposals k j f ps closed, h k)

applied_next :
    (a b : FulfillmentPlanStatus)
    → Becomes a b
    → a ≡ FulfillmentPlanStatus.applied
    → b ≡ FulfillmentPlanStatus.applied
applied_next a b stays e = e
applied_next a b superseding e = cc
applied_next a b accepting e = cc
applied_next a b overriding e = cc
applied_next a b overriding_accepted e = cc
applied_next a b applying_accepted e = refl
applied_next a b applying_overridden e = refl

module _ {S : Type 0} (gateway : Gateway S) (is_blank : String → Bool) where
  -- A call of an operation on the plans that is not refused.
  pub data PlanStep : World S → World S → Type 0 where
    proposes :
        (deal_id : ℕ) (strategy : Option Strategy) (now : ℕ) (w : World S) (v : World S × ℕ)
        → propose_fulfillment_plan gateway deal_id strategy now w ≡ ok v
        → PlanStep w v.0
    accepts :
        (deal_id plan_id : ℕ) (actor : Actor) (now : ℕ) (w v : World S)
        → accept_fulfillment_plan deal_id plan_id actor now w ≡ ok v
        → PlanStep w v
    overrides :
        (deal_id plan_id : ℕ) (items : List OverrideItem) (actor : Actor) (reason : String)
        (now : ℕ) (w v : World S)
        → override_fulfillment_plan gateway is_blank deal_id plan_id items actor reason now w ≡ ok v
        → PlanStep w v
    applies :
        (deal_id plan_id : ℕ) (actor : Actor) (now : ℕ) (w v : World S)
        → apply_fulfillment_plan gateway deal_id plan_id actor now w ≡ ok v
        → PlanStep w v
    consolidates :
        (deal_id : ℕ) (actor : Actor) (now : ℕ) (w : World S) (v : World S × ℕ)
        → consolidate_backorder gateway deal_id actor now w ≡ ok v
        → PlanStep w v.0

  pub data PlanRun : World S → World S → Type 0 where
    idle : {w : World S} → PlanRun w w
    further : {u v w : World S} → PlanRun u v → PlanStep v w → PlanRun u w

  pub PlanStep-PlanChange : {v w : World S} → PlanStep v w → PlanChange v.plans w.plans
  PlanStep-PlanChange (proposes deal_id strategy now v w e) =
      propose-PlanChange gateway deal_id strategy now v w e
  PlanStep-PlanChange (accepts deal_id plan_id actor now v w e) =
      accept-PlanChange deal_id plan_id actor now v w e
  PlanStep-PlanChange (overrides deal_id plan_id items actor reason now v w e) =
      override-PlanChange gateway is_blank deal_id plan_id items actor reason now v w e
  PlanStep-PlanChange (applies deal_id plan_id actor now v w e) =
      apply-PlanChange gateway deal_id plan_id actor now v w e
  PlanStep-PlanChange (consolidates deal_id actor now v w e) =
      consolidate-PlanChange gateway deal_id actor now v w e

  -- In a run of the operations on the plans, no deal ever has more than one proposal, if none had.
  pub run-IsSingle : {u w : World S} → PlanRun u w → IsSingle u.plans → IsSingle w.plans
  run-IsSingle idle h = h
  run-IsSingle (further run step) h =
      change-IsSingle (PlanStep-PlanChange step) (run-IsSingle run h)

  -- A plan that was applied stays applied in every run of the operations on the plans.
  pub applied_stays :
      {u w : World S} (j : ℕ)
      → PlanRun u w
      → status_in j u.plans ≡ some FulfillmentPlanStatus.applied
      → status_in j w.plans ≡ some FulfillmentPlanStatus.applied
  applied_stays j idle h = h
  applied_stays j (further run step) h =
      let (b, at, move) =
        PlanChange-Progress (PlanStep-PlanChange step) j FulfillmentPlanStatus.applied
          (applied_stays j run h) in
      at ∙ ap some (applied_next FulfillmentPlanStatus.applied b move refl)
