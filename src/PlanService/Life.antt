-- ===== src/PlanService/Life.antt =====
-- The life of a stored plan under the operations of app/services/fulfillment_service.py.
use chumma.Base.{
  subst, ℕ, ◌≡◌, refl, sym, ap, ◌∙◌, Bool, true, false, ◌&&◌, Option, none, some, List, [], ◌∷◌,
  ◌++◌, map, ◌==◌, if◌then◌else◌, ==_iff, if-cases,
}
use chumma.Enums.{FulfillmentPlanStatus}
use chumma.State.Plans.{FulfillmentPlan}
use chumma.State.Tables.{find_row, modify_row, find_row-append, find_row-map, find_row-modify_row}
use chumma.PlanService.{plan_id, is_proposal}
use chumma.PlanService.Propose.{supersede_plan}

-- What may become of a plan: a proposal is superseded, accepted or overridden; an accepted plan is
-- overridden or applied, an overridden one applied; and no other status is left.
pub data Becomes : FulfillmentPlanStatus → FulfillmentPlanStatus → Type 0 where
  stays : {a : FulfillmentPlanStatus} → Becomes a a
  superseding : Becomes FulfillmentPlanStatus.proposed FulfillmentPlanStatus.superseded
  accepting : Becomes FulfillmentPlanStatus.proposed FulfillmentPlanStatus.accepted
  overriding : Becomes FulfillmentPlanStatus.proposed FulfillmentPlanStatus.overridden
  overriding_accepted : Becomes FulfillmentPlanStatus.accepted FulfillmentPlanStatus.overridden
  applying_accepted : Becomes FulfillmentPlanStatus.accepted FulfillmentPlanStatus.applied
  applying_overridden : Becomes FulfillmentPlanStatus.overridden FulfillmentPlanStatus.applied

abbrev status_shown : Option FulfillmentPlan → Option FulfillmentPlanStatus
status_shown o = elim o [ none ↦ none | some p ↦ some p.status ]

abbrev pub status_in : ℕ → List FulfillmentPlan → Option FulfillmentPlanStatus
status_in j ps = status_shown (find_row plan_id j ps)

abbrev pub Became : FulfillmentPlanStatus → Option FulfillmentPlanStatus → Type 0
Became a o = (b : FulfillmentPlanStatus) × (o ≡ some b) × Becomes a b

-- A change of the plans, each along an allowed step.
abbrev pub Progress : List FulfillmentPlan → List FulfillmentPlan → Type 0
Progress ps qs =
    (j : ℕ) (a : FulfillmentPlanStatus) → status_in j ps ≡ some a → Became a (status_in j qs)

some_injective : (a b : FulfillmentPlanStatus) → some a ≡ some b → a ≡ b
some_injective a b e = cc

changed :
    (f : FulfillmentPlan → FulfillmentPlan) (p : FulfillmentPlan) (a : FulfillmentPlanStatus)
    (same : Bool) (o : Option FulfillmentPlan)
    → Becomes p.status (f p).status
    → (same ≡ true → o ≡ some p)
    → status_shown o ≡ some a
    → Became a (status_shown (elim o [ none ↦ none | some x ↦ some (if same then f x else x) ]))
changed f p a same none step is_row h = cc
changed f p a false (some x) step is_row h = (a, h, stays)
changed f p a true (some x) step is_row h = (
  (f p).status,
  ap (λ z. some (f z).status) row,
  subst (λ b. Becomes b (f p).status)
      (some_injective p.status a (sym (ap (λ (z : FulfillmentPlan). some z.status) row) ∙ h)) step,
)
  where
    row : x ≡ p
    row = of_some x p (is_row refl)
      where
        of_some : (y z : FulfillmentPlan) → some y ≡ some z → y ≡ z
        of_some y z e = cc

-- The change of one plan by its key.
pub modify-Progress :
    (k : ℕ) (f : FulfillmentPlan → FulfillmentPlan) (p : FulfillmentPlan)
    (ps : List FulfillmentPlan)
    → find_row plan_id k ps ≡ some p
    → ((q : FulfillmentPlan) → (f q).id ≡ q.id)
    → Becomes p.status (f p).status
    → Progress ps (modify_row plan_id k f ps)
modify-Progress k f p ps found keeps step j a h =
    subst (λ o. Became a (status_shown o)) (sym (find_row-modify_row plan_id k j f ps keeps))
      (changed f p a (k == j) (find_row plan_id j ps) step
        (λ e. subst (λ i. find_row plan_id i ps ≡ some p) ((==_iff k j).0 e) found) h)

proposed_of :
    (s : FulfillmentPlanStatus) → is_proposal s ≡ true → s ≡ FulfillmentPlanStatus.proposed
proposed_of FulfillmentPlanStatus.proposed e = refl
proposed_of FulfillmentPlanStatus.accepted e = cc
proposed_of FulfillmentPlanStatus.overridden e = cc
proposed_of FulfillmentPlanStatus.applied e = cc
proposed_of FulfillmentPlanStatus.superseded e = cc
proposed_of FulfillmentPlanStatus.cancelled e = cc

and_right : (a b : Bool) → (a && b) ≡ true → b ≡ true
and_right true b h = h
and_right false b h = cc

supersede-Became :
    (deal : ℕ) (p : FulfillmentPlan) → Became p.status (some (supersede_plan deal p).status)
supersede-Became deal p =
    if-cases (λ (q : FulfillmentPlan). Became p.status (some q.status))
      ((p.deal_id == deal) && is_proposal p.status) _ p
      (λ e. (
        FulfillmentPlanStatus.superseded,
        refl,
        subst (λ s. Becomes s FulfillmentPlanStatus.superseded)
            (sym (proposed_of p.status (and_right (p.deal_id == deal) _ e))) superseding,
      ))
      (λ _. (p.status, refl, stays))

supersede-id : (deal : ℕ) (p : FulfillmentPlan) → (supersede_plan deal p).id ≡ p.id
supersede-id deal p =
    if-cases (λ (q : FulfillmentPlan). q.id ≡ p.id) ((p.deal_id == deal) && is_proposal p.status) _
      p (λ _. refl) (λ _. refl)

-- A new proposal, after the old ones of its deal.
pub propose-Progress :
    (deal : ℕ) (new : FulfillmentPlan) (ps : List FulfillmentPlan)
    → Progress ps (map (supersede_plan deal) ps ++ new ∷ [])
propose-Progress deal new ps j a h = from (find_row plan_id j ps) refl h
  where
    from :
        (o : Option FulfillmentPlan)
        → find_row plan_id j ps ≡ o
        → status_shown o ≡ some a
        → Became a (status_in j (map (supersede_plan deal) ps ++ new ∷ []))
    from none e shown = cc
    from (some p) e shown =
        let row =
          find_row-append plan_id j (map (supersede_plan deal) ps) (new ∷ [])
            (supersede_plan deal p)
            (find_row-map plan_id (supersede_plan deal) j ps (supersede-id deal)
              ∙ ap (λ o. elim o [ none ↦ none | some x ↦ some (supersede_plan deal x) ]) e) in
        let (b, at, step) = supersede-Became deal p in
        (
          b,
          ap status_shown row ∙ at,
          subst (λ s. Becomes s b) (some_injective p.status a shown) step,
        )
