-- ===== src/Negotiation/Answered.antt =====
-- What the answer of app/services/negotiation_service.py to a customer's request leaves of the
-- approvals.
use chumma.Base.{
  subst, ℕ, String, ◌≡◌, refl, ap, ◌∙◌, Bool, true, false, not, Option, none, some, List, [], ◌∷◌,
  ◌==◌, if◌then◌else◌, ==_refl,
}
use chumma.Base.Decimal.{Decimal}
use chumma.Enums.{DealStatus, NegotiationRequestStatus, TriggerType, AuditEventType}
use chumma.Context.{DealContext}
use chumma.Context.Build.{build_deal_context}
use chumma.State.{
  ok, Deal, Actor, ActorType, NegotiationRequest, World, Gateway, or_raise, raise_if,
  entity_not_found, negotiation_not_open, odoo_failed, version_conflict,
}
use chumma.State.Results.{>>=_ok, ok_injective, or_raise_ok}
use chumma.State.Tables.{
  find_row, find_deal, find_negotiation, touch, modify_deal, modify_negotiation, record_audit_event,
}
use chumma.Deals.{
  Catalog, actor_type_of, differs_from, find_by_order, refresh, refresh_deal, store_deal,
  sync_deal_from_odoo,
}
use chumma.Evaluation.{evaluate_deal}
use chumma.Evaluation.Effect.{same-IsConsistent, evaluate-IsConsistent}
use chumma.Approval.Effect.{state_of, state_of-keep, audit-state, audit-requests, odoo-state}
use chumma.Approval.Consistent.{IsConsistent}
use chumma.Portal.Gate.{SameApprovals}
use chumma.Negotiation.Respond.{
  Answer, is_opened, set_answered, set_request_status, set_status, assessment_of, apply_changes,
  accept_request, answer_request, respond_negotiation_request,
}

module _ {S : Type 0} where
  Same-trans : (u v w : World S) → SameApprovals u v → SameApprovals v w → SameApprovals u w
  Same-trans u v w first last = (λ j. last.0 j ∙ first.0 j, last.1 ∙ first.1)

  negotiation-same :
      (k : ℕ) (f : NegotiationRequest → NegotiationRequest) (w : World S)
      → SameApprovals w (modify_negotiation k f w)
  unfolding state_of
  negotiation-same k f w = (λ j. refl, refl)

  odoo-same : (s : S) (w : World S) → SameApprovals w (record w { odoo = s })
  odoo-same s w = (λ j. odoo-state s j w, refl)

  deal-same :
      (k : ℕ) (f : Deal → Deal) (w : World S)
      → ((d : Deal) → (f d).id ≡ d.id)
      → ((d : Deal) → (f d).approval_state ≡ d.approval_state)
      → SameApprovals w (modify_deal k f w)
  deal-same k f w keeps sets = (λ j. state_of-keep k j f w keeps sets, refl)

  audit-same :
      (kind : AuditEventType) (entity : Option ℕ) (deal : ℕ) (actor_type : ActorType)
      (actor : Option ℕ) (now : ℕ) (w : World S)
      → SameApprovals w (record_audit_event kind entity deal actor_type actor now w)
  audit-same kind entity deal actor_type actor now w = (
    λ j. audit-state kind entity deal actor_type actor now j w,
    audit-requests kind entity deal actor_type actor now w,
  )

  refresh-same :
      (ctx : DealContext) (deal : Deal) (actor : Option ℕ) (now : ℕ) (w : World S)
      → SameApprovals w (refresh_deal ctx deal actor now w).0
  unfolding refresh_deal
  refresh-same ctx deal actor now w =
      Same-trans w (modify_deal deal.id (refresh ctx now) w) _
        (deal-same deal.id (refresh ctx now) w (λ d. refl) (λ d. refl))
        (audit-same AuditEventType.deal_synced (some deal.id) deal.id (actor_type_of actor) actor
          now _)

  moved-IsConsistent :
      (deal : ℕ) (status : DealStatus) (req : ℕ) (f : NegotiationRequest → NegotiationRequest)
      (w : World S)
      → IsConsistent w
      → IsConsistent (modify_deal deal (set_status status) (modify_negotiation req f w))
  moved-IsConsistent deal status req f w h =
      same-IsConsistent (modify_negotiation req f w) _
        (deal-same deal (set_status status) (modify_negotiation req f w) (λ d. refl) (λ d. refl))
        (same-IsConsistent w (modify_negotiation req f w) (negotiation-same req f w) h)

-- A row that is there is found by another field of its own.
other_case :
    (b c : Bool) (y x : Deal) (o p : Option Deal)
    → (o ≡ some x → (z : Deal) × (p ≡ some z))
    → (y ≡ x → c ≡ true)
    → (if b then some y else o) ≡ some x
    → (z : Deal) × ((if c then some y else p) ≡ some z)
other_case b true y x o p rest key h = (y, refl)
other_case false false y x o p rest key h = rest h
other_case true false y x o p rest key h = (y, clash (key (same h)))
  where
    same : some y ≡ some x → y ≡ x
    same e = cc

    clash : false ≡ true → p ≡ some y
    clash e = cc

order_known :
    (k : ℕ) (ds : List Deal) (d : Deal)
    → find_row (λ (x : Deal). x.id) k ds ≡ some d
    → (e : Deal) × (find_row (λ (x : Deal). x.odoo_sale_order_id) d.odoo_sale_order_id ds ≡ some e)
order_known k [] d h = (d, missing h)
  where
    missing : {o : Option Deal} → none ≡ some d → o ≡ some d
    missing e = cc
order_known k (x ∷ xs) d h =
    other_case (x.id == k) (x.odoo_sale_order_id == d.odoo_sale_order_id) x d
      (find_row (λ (x : Deal). x.id) k xs)
      (find_row (λ (x : Deal). x.odoo_sale_order_id) d.odoo_sale_order_id xs) (order_known k xs d)
      (λ e.
        ap (λ (z : Deal). z.odoo_sale_order_id == d.odoo_sale_order_id) e
        ∙ ==_refl d.odoo_sale_order_id)
      h

module _ {S : Type 0} (gateway : Gateway S) where
  -- The synchronisation of an order that some deal has leaves every approval as it is.
  sync-same :
      (catalog : Catalog) (order : ℕ) (expected actor : Option ℕ) (now : ℕ) (w : World S)
      (v : World S × ℕ) (e : Deal)
      → find_by_order order w ≡ some e
      → sync_deal_from_odoo gateway catalog order expected actor now w ≡ ok v
      → SameApprovals w v.0
  unfolding sync_deal_from_odoo
  sync-same catalog order expected actor now w v d found e =
      let (ctx, answer, e1) =
        >>=_ok
          (or_raise
            (build_deal_context catalog.customers (gateway.get_sale_order order w.odoo)
              (λ ids. gateway.get_availability ids none w.odoo)
              (elim (find_by_order order w) [ none ↦ none | some x ↦ some x.id ]))
            entity_not_found)
          _ v e in
      stored ctx (find_by_order order w) found e1
    where
      stored :
          (ctx : DealContext) (o : Option Deal)
          → o ≡ some d
          → store_deal ctx o expected actor now w ≡ ok v
          → SameApprovals w v.0
      stored ctx none known h = cc
      stored ctx (some x) known h =
          let (u, same_version, h1) =
            >>=_ok (raise_if (differs_from expected x.version) version_conflict) _ v h in
          subst (λ (z : World S × ℕ). SameApprovals w z.0) (ok_injective _ v h1)
            (refresh-same ctx x actor now w)

  accept-IsConsistent :
      (catalog : Catalog) (req : NegotiationRequest) (deal : Deal) (actor : Actor) (now k : ℕ)
      (w v : World S)
      → find_deal k w ≡ some deal
      → IsConsistent w
      → accept_request gateway catalog req deal actor now w ≡ ok v
      → IsConsistent v
  unfolding accept_request
  accept-IsConsistent catalog req deal actor now k w v found h e =
      let (s, granted, e1) =
        >>=_ok
          (or_raise (apply_changes gateway req.id deal.odoo_sale_order_id w.changes w.odoo)
            odoo_failed)
          _ v e in
      let asked = record w { odoo = s } in
      let (synced, done, e2) =
        >>=_ok
          (sync_deal_from_odoo gateway catalog deal.odoo_sale_order_id none
            (some actor.odoo_user_id) now asked)
          _ v e1 in
      let (u, assessed, e3) =
        >>=_ok
          (evaluate_deal gateway catalog (some deal.id) none TriggerType.negotiation_accepted
            (some actor.odoo_user_id) now synced.0)
          _ v e2 in
      let (x, known) = order_known k w.deals deal found in
      let at_sync =
        same-IsConsistent asked synced.0
          (sync-same catalog deal.odoo_sale_order_id none (some actor.odoo_user_id) now asked synced
            x known done)
          (same-IsConsistent w asked (odoo-same s w) h) in
      let at_evaluation =
        evaluate-IsConsistent gateway catalog deal.id none TriggerType.negotiation_accepted
          (some actor.odoo_user_id) now synced.0 u at_sync assessed in
      let marked =
        modify_negotiation req.id
          (λ r. record r { applied_assessment_id = assessment_of (find_deal deal.id u) }) u in
      subst IsConsistent (ok_injective _ v e3) (
        same-IsConsistent marked _
          (deal-same deal.id (set_status DealStatus.sent) marked (λ d. refl) (λ d. refl))
          (same-IsConsistent u marked (negotiation-same req.id _ u) at_evaluation))

  answer-IsConsistent :
      (catalog : Catalog) (action : Answer) (req : NegotiationRequest) (deal : Deal) (actor : Actor)
      (value : Option Decimal) (now k : ℕ) (w v : World S)
      → find_deal k w ≡ some deal
      → IsConsistent w
      → answer_request gateway catalog action req deal actor value now w ≡ ok v
      → IsConsistent v
  unfolding answer_request
  answer-IsConsistent catalog Answer.accept req deal actor value now k w v found h e =
      let marked =
        modify_negotiation req.id (set_request_status NegotiationRequestStatus.accepted) w in
      accept-IsConsistent catalog req deal actor now k marked v found
        (same-IsConsistent w marked (negotiation-same req.id _ w) h) e
  answer-IsConsistent catalog Answer.reject req deal actor value now k w v found h e =
      subst IsConsistent (ok_injective _ v e)
        (moved-IsConsistent deal.id DealStatus.sent req.id _ w h)
  answer-IsConsistent catalog Answer.counter req deal actor value now k w v found h e =
      subst IsConsistent (ok_injective _ v e)
        (moved-IsConsistent deal.id DealStatus.under_negotiation req.id _ w h)
  answer-IsConsistent catalog Answer.unknown req deal actor value now k w v found h e =
      subst IsConsistent (ok_injective w v e) h

  -- An answer to a customer's request, with the changes of the order, the synchronisation and the
  -- evaluation that an acceptance brings, keeps the approval states and the pending requests in
  -- agreement.
  pub respond-IsConsistent :
      (catalog : Catalog) (request_id : ℕ) (actor : Actor) (action : Answer)
      (message : Option String) (value : Option Decimal) (now : ℕ) (w v : World S)
      → IsConsistent w
      → respond_negotiation_request gateway catalog request_id actor action message value now w
        ≡ ok v
      → IsConsistent v
  unfolding respond_negotiation_request
  respond-IsConsistent catalog request_id actor action message value now w v h e =
      let (req, found, e1) =
        >>=_ok (or_raise (find_negotiation request_id w) entity_not_found) _ v e in
      let (u, open_request, e2) =
        >>=_ok (raise_if (not (is_opened req.status)) negotiation_not_open) _ v e1 in
      let (deal, has_deal, e3) =
        >>=_ok (or_raise (find_deal req.deal_id w) entity_not_found) _ v e2 in
      let answered = modify_negotiation req.id (set_answered actor message now) w in
      let (x, done, e4) =
        >>=_ok (answer_request gateway catalog action req deal actor value now answered) _ v e3 in
      let touched = modify_deal deal.id (touch now) x in
      subst IsConsistent (ok_injective _ v e4) (
        same-IsConsistent touched _
          (audit-same AuditEventType.negotiation_responded (some req.id) deal.id ActorType.user
            (some actor.odoo_user_id) now touched)
          (same-IsConsistent x touched (deal-same deal.id (touch now) x (λ d. refl) (λ d. refl)) (
            answer-IsConsistent catalog action req deal actor value now req.deal_id answered x
              (or_raise_ok _ _ deal has_deal)
              (same-IsConsistent w answered (negotiation-same req.id _ w) h) done)))
