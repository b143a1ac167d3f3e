-- ===== src/Portal/Gate.antt =====
-- What the customer's operations leave alone: the approval states, the requests, and, before the
-- approval, the order itself.
use chumma.Base.{
  subst, ℕ, ◌≡◌, refl, sym, ap, ◌∙◌, not, none, some, List, ◌==◌, if◌then◌else◌, if-cases,
}
use chumma.State.{
  NegotiationChange, NegotiationRequest, PortalComment, Deal, World, Gateway, ok, or_raise, Result,
  raise_if, entity_not_found, deal_closed,
}
use chumma.State.Results.{ok_injective, >>=_ok}
use chumma.State.Tables.{find_deal, touch}
use chumma.Portal.{
  confirm_open_deal, ConfirmDealRequest, set_confirmed, set_accepted, add_portal_comment, add_note,
  confirm_approved, confirm_unapproved, confirm_deal_by_customer,
}
use chumma.Portal.View.{is_settled, PortalDealRead}
use chumma.Negotiation.{
  NegotiationSubmit, set_negotiating, add_negotiation, submit_negotiation_request, is_closed,
}
use chumma.Approval.Effect.{
  state_of, state_of-keep, audit-state, notify-state, odoo-state, audit-requests, notify-requests,
}
use chumma.Routing.{is_approved}

module _ {S : Type 0} where
  -- The approval states and the requests are the same.
  abbrev pub SameApprovals : World S → World S → Type 0
  SameApprovals w v = ((j : ℕ) → state_of j v ≡ state_of j w) × (v.requests ≡ w.requests)

  comments-state :
      (cs : List PortalComment) (j : ℕ) (w : World S)
      → state_of j (record w { comments = cs }) ≡ state_of j w
  unfolding state_of
  comments-state cs j w = refl

  rows-state :
      (ns : List NegotiationRequest) (cs : List NegotiationChange) (id j : ℕ) (w : World S)
      → state_of j (record w { negotiations = ns; changes = cs; next_id = id }) ≡ state_of j w
  unfolding state_of
  rows-state ns cs id j w = refl

  note-same :
      (note : ConfirmDealRequest) (deal now : ℕ) (w v : World S)
      → add_note note deal now w ≡ ok v
      → SameApprovals w v
  unfolding add_note add_portal_comment
  note-same none deal now w v e =
      let same : v ≡ w = sym (ok_injective w v e) in
      (λ j. ap (state_of j) same, ap (λ (z : World S). z.requests) same)
  note-same (some body) deal now w v e =
      let (d, found, e1) = >>=_ok (or_raise (find_deal deal w) entity_not_found) _ v e in
      let same = sym (ok_injective _ v e1) in
      (
        λ j.
            ap (state_of j) same
            ∙ state_of-keep d.id j (touch now) _ (λ x. refl) (λ x. refl)
            ∙ comments-state _ j w,
        ap (λ (z : World S). z.requests) same,
      )

  unapproved-same :
      (deal : Deal) (customer now : ℕ) (w : World S)
      → SameApprovals w (confirm_unapproved deal customer now w)
  unfolding confirm_unapproved
  unapproved-same deal customer now w = (
    λ j.
        notify-state _ _ _ _ now j _
        ∙ audit-state _ _ _ _ _ now j _
        ∙ state_of-keep deal.id j (set_accepted now) w (λ x. refl) (λ x. refl),
    notify-requests _ _ _ _ now _ ∙ audit-requests _ _ _ _ _ now _,
  )

  -- A customer's request for other terms leaves every approval state and request as it is.
  pub submit-same :
      (deal_id customer actor : ℕ) (payload : NegotiationSubmit) (now : ℕ) (w v : World S)
      → submit_negotiation_request deal_id customer actor payload now w ≡ ok v
      → SameApprovals w v
  unfolding submit_negotiation_request add_negotiation
  submit-same deal_id customer actor payload now w v e =
      let (d, found, e1) = >>=_ok (or_raise (find_deal deal_id w) entity_not_found) _ v e in
      let (u, partner, e2) =
        >>=_ok (raise_if (not (d.odoo_partner_id == customer)) entity_not_found) _ v e1 in
      let (u2, open_deal, e3) = >>=_ok (raise_if (is_closed d.status) deal_closed) _ v e2 in
      let same = sym (ok_injective _ v e3) in
      (
        λ j.
            ap (state_of j) same
            ∙ notify-state _ _ _ _ now j _
            ∙ audit-state _ _ _ _ _ now j _
            ∙ state_of-keep d.id j (set_negotiating now) _ (λ x. refl) (λ x. refl)
            ∙ rows-state _ _ _ j w,
        ap (λ (z : World S). z.requests) same
            ∙ notify-requests _ _ _ _ now _
            ∙ audit-requests _ _ _ _ _ now _,
      )

module _ {S : Type 0} (gateway : Gateway S) where
  approved-same :
      (deal : Deal) (customer now : ℕ) (w : World S)
      → SameApprovals w (confirm_approved gateway deal customer now w)
  unfolding confirm_approved
  approved-same deal customer now w = (
    λ j.
        notify-state _ _ _ _ now j _
        ∙ audit-state _ _ _ _ _ now j _
        ∙ audit-state _ _ _ _ _ now j _
        ∙ state_of-keep deal.id j (set_confirmed now) _ (λ x. refl) (λ x. refl)
        ∙ odoo-state _ j w,
    notify-requests _ _ _ _ now _ ∙ audit-requests _ _ _ _ _ now _ ∙ audit-requests _ _ _ _ _ now _,
  )

  open-same :
      (d : Deal) (customer : ℕ) (note : ConfirmDealRequest) (now : ℕ) (w v : World S)
      → confirm_open_deal gateway d customer note now w ≡ ok v
      → SameApprovals w v
  unfolding confirm_open_deal
  open-same d customer note now w v =
      if-cases (λ r. r ≡ ok v → SameApprovals w v) (is_settled d.status) (ok w) _
        (λ _ h.
          let same : v ≡ w = sym (ok_injective w v h) in
          (λ j. ap (state_of j) same, ap (λ (z : World S). z.requests) same))
        (λ _ h.
          let u3 =
            if is_approved d.approval_state
            then confirm_approved gateway d customer now w
            else confirm_unapproved d customer now w in
          let first : SameApprovals w u3 =
            if-cases (SameApprovals w) (is_approved d.approval_state) _ _
              (λ _. approved-same d customer now w) (λ _. unapproved-same d customer now w) in
          let last = note-same note d.id now u3 v h in
          (λ j. last.0 j ∙ first.0 j, last.1 ∙ first.1))

  -- A customer's confirmation leaves every approval state and request as it is.
  pub confirm-same :
      (deal_id customer : ℕ) (note : ConfirmDealRequest) (now : ℕ) (w v : World S)
      (view : Result PortalDealRead)
      → confirm_deal_by_customer gateway deal_id customer note now w ≡ ok (v, view)
      → SameApprovals w v
  unfolding confirm_deal_by_customer
  confirm-same deal_id customer note now w v view e =
      let (d, found, e1) = >>=_ok (or_raise (find_deal deal_id w) entity_not_found) _ (v, view) e in
      let (u, partner, e2) =
        >>=_ok (raise_if (not (d.odoo_partner_id == customer)) entity_not_found) _ (v, view) e1 in
      let (x, changed, e3) =
        >>=_ok (confirm_open_deal gateway d customer note now w) _ (v, view) e2 in
      subst (SameApprovals w)
        (ap (λ (z : World S × Result PortalDealRead). z.0) (ok_injective _ (v, view) e3))
        (open-same d customer note now w x changed)
