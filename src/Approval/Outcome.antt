-- ===== src/Approval/Outcome.antt =====
-- The approval state and the requests after each action of app/services/approval_service.py.
use chumma.Base.{
  ◌==◌, ℕ, String, ◌≡◌, refl, sym, ap, ◌∙◌, Bool, true, false, Option, none, some, List, [], ◌∷◌,
  ◌++◌, arith, if◌then◌else◌,
}
use chumma.Enums.{ApprovalState, AuditEventType, ApprovalRequestStatus, ApprovalActionType, Stage}
use chumma.State.{Deal, ApprovalRequest, Actor, World, Gateway, ActorType}
use chumma.State.Tables.{modify_row, modify_request, record_audit_event}
use chumma.Approval.{
  approve_deal, decide_deal, ApprovalState, close_request, needs_finance, open_finance_stage,
  final_approval, perform, record_action,
}
use chumma.Approval.Effect.{
  approved_to, on_if, sync-state, auto_confirm-state, notify-state, state_of-set, audit-state,
  new_state, replace, state_of, notify-requests, sync-requests, auto_confirm-requests,
}

-- What a decision makes of the request.
abbrev pub decided :
    ApprovalActionType → Actor → Option String → ℕ → ApprovalRequest → ApprovalRequest
decided ApprovalActionType.approve actor reason now r =
    close_request ApprovalRequestStatus.approved actor.odoo_user_id now reason r
decided ApprovalActionType.reject actor reason now r =
    close_request ApprovalRequestStatus.rejected actor.odoo_user_id now reason r
decided ApprovalActionType.return actor reason now r =
    close_request ApprovalRequestStatus.returned actor.odoo_user_id now reason r
decided ApprovalActionType.escalate actor reason now r = record r { decision_reason = reason }
decided ApprovalActionType.invalidate actor reason now r = r

-- The request for the second stage.
abbrev pub finance_request : Deal → ApprovalRequest → ℕ → ℕ → ApprovalRequest
finance_request deal req now id = record {
  id = id;
  deal_id = deal.id;
  risk_assessment_id = req.risk_assessment_id;
  required_level = Stage.finance;
  sequence = 2;
  status = ApprovalRequestStatus.pending;
  requested_at = now;
  completed_at = none;
  decided_by = none;
  decision_reason = none;
}

-- The requests that a decision opens.
abbrev pub follow_up : ApprovalActionType → Deal → ApprovalRequest → ℕ → ℕ → List ApprovalRequest
follow_up ApprovalActionType.approve deal req now id =
    if needs_finance deal.required_level req.required_level
    then finance_request deal req now id ∷ []
    else []
follow_up _ deal req now id = []

++_nil : {A : Type 0} (xs : List A) → xs ++ [] ≡ xs
++_nil [] = refl
++_nil (x ∷ xs) = ap (λ ys. x ∷ ys) (++_nil xs)

modify_row_same : (k : ℕ) (xs : List ApprovalRequest) → modify_row (λ r. r.id) k (λ r. r) xs ≡ xs
modify_row_same k [] = refl
modify_row_same k (x ∷ xs) = ground (arith, modify_row_same k xs)

module _ {S : Type 0} where
  pub record_action-state :
      (action : ApprovalActionType) (req : ApprovalRequest) (actor : Actor) (reason : Option String)
      (now j : ℕ) (w : World S)
      → state_of j (record_action action req actor reason now w) ≡ state_of j w
  unfolding record_action state_of
  record_action-state action req actor reason now j w = refl

  requests-state :
      (rs : List ApprovalRequest) (id j : ℕ) (w : World S)
      → state_of j (record w { requests = rs; next_id = id }) ≡ state_of j w
  unfolding state_of
  requests-state rs id j w = refl

module _ {S : Type 0} (gateway : Gateway S) where
  pub perform-requests :
      (action : ApprovalActionType) (deal : Deal) (req : ApprovalRequest) (actor : Actor)
      (reason : Option String) (now : ℕ) (w : World S)
      → (perform gateway action deal req actor reason now w).requests
        ≡ modify_row (λ r. r.id) req.id (decided action actor reason now) w.requests
          ++ follow_up action deal req now w.next_id
  unfolding perform open_finance_stage final_approval record_audit_event
  perform-requests ApprovalActionType.approve deal req actor reason now w =
      by_level (needs_finance deal.required_level req.required_level)
    where
      closed : World S
      closed =
          record_audit_event AuditEventType.approval_approved (some req.id) deal.id ActorType.user
            (some actor.odoo_user_id) now
            (modify_request req.id
              (close_request ApprovalRequestStatus.approved actor.odoo_user_id now reason) w)

      final : (final_approval gateway deal req now closed).requests ≡ closed.requests
      final =
          notify-requests _ _ _ _ now _
          ∙ auto_confirm-requests gateway deal now _
          ∙ sync-requests gateway deal _ _ _

      by_level :
          (b : Bool)
          → (if b
              then open_finance_stage gateway deal req now closed
              else final_approval gateway deal req now closed).requests
            ≡ closed.requests ++ (if b then finance_request deal req now w.next_id ∷ [] else [])
      by_level true = refl
      by_level false = final ∙ sym (++_nil closed.requests)
  perform-requests ApprovalActionType.reject deal req actor reason now w =
      notify-requests _ _ _ _ now _ ∙ sync-requests gateway deal _ _ _ ∙ sym (++_nil _)
  perform-requests ApprovalActionType.return deal req actor reason now w =
      notify-requests _ _ _ _ now _ ∙ sync-requests gateway deal _ _ _ ∙ sym (++_nil _)
  perform-requests ApprovalActionType.escalate deal req actor reason now w =
      notify-requests _ _ _ _ now _ ∙ sym (++_nil _)
  perform-requests ApprovalActionType.invalidate deal req actor reason now w =
      sym (modify_row_same req.id w.requests) ∙ sym (++_nil _)

  -- The approval state of every deal after an action: that of the request's deal becomes the
  -- action's, if it is there, and the others stay.
  pub perform-state :
      (action : ApprovalActionType) (deal : Deal) (req : ApprovalRequest) (actor : Actor)
      (reason : Option String) (now j : ℕ) (w : World S)
      → state_of j (perform gateway action deal req actor reason now w) ≡ (
          if deal.id == j
          then replace (new_state action deal.required_level req.required_level) (state_of j w)
          else state_of j w)
  unfolding perform open_finance_stage final_approval
  perform-state ApprovalActionType.approve deal req actor reason now j w =
      by_level (needs_finance deal.required_level req.required_level)
      ∙ ap (λ to. if deal.id == j then replace to (state_of j w) else state_of j w)
          (approved_to deal.required_level req.required_level)
    where
      closed : World S
      closed =
          record_audit_event AuditEventType.approval_approved (some req.id) deal.id ActorType.user
            (some actor.odoo_user_id) now
            (modify_request req.id
              (close_request ApprovalRequestStatus.approved actor.odoo_user_id now reason) w)

      closed-state : state_of j closed ≡ state_of j w
      closed-state =
          audit-state AuditEventType.approval_approved (some req.id) deal.id ActorType.user
            (some actor.odoo_user_id) now j _
          ∙ requests-state _ w.next_id j w

      by_level :
          (b : Bool)
          → state_of j (
              if b
              then open_finance_stage gateway deal req now closed
              else final_approval gateway deal req now closed)
            ≡ (if deal.id == j
                then replace
                    (some (if b then ApprovalState.pending_finance else ApprovalState.approved))
                    (state_of j w)
                else state_of j w)
      by_level true =
          audit-state _ _ _ _ _ now j _
          ∙ state_of-set deal.id j (decide_deal ApprovalState.pending_finance now)
              ApprovalState.pending_finance _ (λ d. refl) (λ d. refl)
          ∙ ap (λ st. if deal.id == j then replace (some ApprovalState.pending_finance) st else st)
              (requests-state _ _ j closed ∙ closed-state)
      by_level false =
          notify-state _ _ _ _ now j _
          ∙ auto_confirm-state gateway deal now j _
          ∙ sync-state gateway deal _ _ j _
          ∙ state_of-set deal.id j (approve_deal req.risk_assessment_id now) ApprovalState.approved
              _ (λ d. refl) (λ d. refl)
          ∙ ap (λ st. if deal.id == j then replace (some ApprovalState.approved) st else st)
              closed-state
  perform-state ApprovalActionType.reject deal req actor reason now j w =
      notify-state _ _ _ _ now j _
      ∙ audit-state _ _ _ _ _ now j _
      ∙ sync-state gateway deal _ _ j _
      ∙ state_of-set deal.id j (decide_deal ApprovalState.rejected now) ApprovalState.rejected _
          (λ d. refl) (λ d. refl)
      ∙ ap (λ st. if deal.id == j then replace (some ApprovalState.rejected) st else st)
          (requests-state _ w.next_id j w)
  perform-state ApprovalActionType.return deal req actor reason now j w =
      notify-state _ _ _ _ now j _
      ∙ audit-state _ _ _ _ _ now j _
      ∙ sync-state gateway deal _ _ j _
      ∙ state_of-set deal.id j (decide_deal ApprovalState.returned now) ApprovalState.returned _
          (λ d. refl) (λ d. refl)
      ∙ ap (λ st. if deal.id == j then replace (some ApprovalState.returned) st else st)
          (requests-state _ w.next_id j w)
  perform-state ApprovalActionType.escalate deal req actor reason now j w =
      notify-state _ _ _ _ now j _
      ∙ audit-state _ _ _ _ _ now j _
      ∙ requests-state _ w.next_id j w
      ∙ sym (on_if (λ st. st) (deal.id == j) _ _ refl refl)
  perform-state ApprovalActionType.invalidate deal req actor reason now j w =
      sym (on_if (λ st. st) (deal.id == j) _ _ refl refl)
