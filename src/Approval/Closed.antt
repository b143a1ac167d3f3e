-- ===== src/Approval/Closed.antt =====
-- A request that app/services/approval_service.py has closed stays closed in every run of the
-- services.
use chumma.Base.{
  ℕ, String, ◌≡◌, refl, ap, ◌∙◌, Bool, true, false, Option, some, ◌==◌, if◌then◌else◌,
}
use chumma.Portal.Gate.{confirm-same, submit-same}
use chumma.State.Tables.{find_row-append, find_modified}
use chumma.Enums.{ApprovalActionType, ApprovalLevel, ApprovalState}
use chumma.State.{ApprovalRequest, Actor, Deal, World, Gateway, ok, err, request_not_pending}
use chumma.State.Tables.{find_row, find_row_id, find_request}
use chumma.Routing.{is_pending, apply_approval_routing}
use chumma.Approval.{decide_approval_request}
use chumma.Approval.Outcome.{decided, follow_up}
use chumma.Approval.Guards.{decide_accepts}
use chumma.Approval.Counts.{leaves_open}
use chumma.Approval.Consistent.{after-requests}
use chumma.Base.{List, none, ◌++◌, if-cases, ◌&&◌, ==_iff, subst, sym}
use chumma.State.Tables.{modify_row, find_row-modify_row, find_row-map, record_audit_event}
use chumma.Routing.{
  is_pending_for, supersede, supersede_all, request_manager, route, invalidate_pending, is_approved,
}
use chumma.Approval.Run.{Run, stop, next, Step, decides, routes, evaluates, confirms, submits}
use chumma.Approval.Routed.{invalidate-requests}
use chumma.Evaluation.{assess, has_open_counter, is_covered}
use chumma.Evaluation.Effect.{evaluated, closing-same, add_assessment-same}

decided_closed :
    (action : ApprovalActionType) (actor : Actor) (reason : Option String) (now : ℕ)
    (r : ApprovalRequest)
    → leaves_open action ≡ false
    → is_pending (decided action actor reason now r).status ≡ false
decided_closed ApprovalActionType.approve actor reason now r e = refl
decided_closed ApprovalActionType.reject actor reason now r e = refl
decided_closed ApprovalActionType.return actor reason now r e = refl
decided_closed ApprovalActionType.escalate actor reason now r e = cc
decided_closed ApprovalActionType.invalidate actor reason now r e = cc

decided_id :
    (action : ApprovalActionType) (actor : Actor) (reason : Option String) (now : ℕ)
    (r : ApprovalRequest)
    → (decided action actor reason now r).id ≡ r.id
decided_id ApprovalActionType.approve actor reason now r = refl
decided_id ApprovalActionType.reject actor reason now r = refl
decided_id ApprovalActionType.return actor reason now r = refl
decided_id ApprovalActionType.escalate actor reason now r = refl
decided_id ApprovalActionType.invalidate actor reason now r = refl

abbrev request_key : ApprovalRequest → ℕ
request_key r = r.id

-- The request with a key is there and no longer pending.
abbrev IsClosed : ℕ → List ApprovalRequest → Type 0
IsClosed k rs =
    (r : ApprovalRequest) × (find_row request_key k rs ≡ some r) × (is_pending r.status ≡ false)

IsClosed-append : (k : ℕ) (rs qs : List ApprovalRequest) → IsClosed k rs → IsClosed k (rs ++ qs)
IsClosed-append k rs qs (r, found, closed) =
    (r, find_row-append request_key k rs qs r found, closed)

IsClosed-supersede_all :
    (k deal now : ℕ) (rs : List ApprovalRequest)
    → IsClosed k rs
    → IsClosed k (supersede_all deal now rs)
IsClosed-supersede_all k deal now rs (r, found, closed) = (
  _,
  find_row-map request_key (λ q. if is_pending_for deal q then supersede now q else q) k rs
        (λ q.
          if-cases (λ (x : ApprovalRequest). x.id ≡ q.id) (is_pending_for deal q) (supersede now q)
            q (λ _. refl) (λ _. refl))
      ∙ ap
          (λ o. elim o [
            | none ↦ none
            | some q ↦ some (if is_pending_for deal q then supersede now q else q)
          ])
          found,
  if-cases (λ (x : ApprovalRequest). is_pending x.status ≡ false) (is_pending_for deal r)
      (supersede now r) r (λ _. refl) (λ _. closed),
)

-- A change of a pending request is one of another.
IsClosed-modify_row :
    (k j : ℕ) (f : ApprovalRequest → ApprovalRequest) (rs : List ApprovalRequest)
    (q : ApprovalRequest)
    → ((x : ApprovalRequest) → (f x).id ≡ x.id)
    → find_row request_key j rs ≡ some q
    → is_pending q.status ≡ true
    → IsClosed k rs
    → IsClosed k (modify_row request_key j f rs)
IsClosed-modify_row k j f rs q keeps there pending (r, found, closed) = (
  r,
  find_row-modify_row request_key j k f rs keeps
      ∙ ap (λ o. elim o [ none ↦ none | some x ↦ some (if j == k then f x else x) ]) found
      ∙ if-cases (λ x. some x ≡ some r) (j == k) (f r) r (λ e. clash (there_too ((==_iff j k).0 e)))
          (λ _. refl),
  closed,
)
  where
    there_too : j ≡ k → some q ≡ some r
    there_too e = sym there ∙ ap (λ i. find_row request_key i rs) e ∙ found

    clash : some q ≡ some r → some (f r) ≡ some r
    clash e =
        let same : q ≡ r = cc in
        cc (sym pending ∙ ap (λ (x : ApprovalRequest). is_pending x.status) same ∙ closed)

module _ {S : Type 0} where
  route-IsClosed :
      (level : ApprovalLevel) (deal assessment now k : ℕ) (w : World S)
      → IsClosed k w.requests
      → IsClosed k (route level deal assessment now (invalidate_pending deal now w)).0.requests
  unfolding route request_manager record_audit_event
  route-IsClosed ApprovalLevel.none deal assessment now k w h =
      subst (IsClosed k) (sym (invalidate-requests deal now w))
        (IsClosed-supersede_all k deal now _ h)
  route-IsClosed ApprovalLevel.manager deal assessment now k w h = IsClosed-append k _ _ (
      subst (IsClosed k) (sym (invalidate-requests deal now w))
        (IsClosed-supersede_all k deal now _ h))
  route-IsClosed ApprovalLevel.manager_and_finance deal assessment now k w h =
      IsClosed-append k _ _ (
        subst (IsClosed k) (sym (invalidate-requests deal now w))
          (IsClosed-supersede_all k deal now _ h))

  routing-IsClosed :
      (deal : Deal) (assessment : ℕ) (level : ApprovalLevel) (cover : Bool) (now k : ℕ)
      (w : World S)
      → IsClosed k w.requests
      → IsClosed k (apply_approval_routing deal assessment level cover now w).0.requests
  unfolding apply_approval_routing
  routing-IsClosed deal assessment level cover now k w h =
      if-cases (λ (r : World S × ApprovalState). IsClosed k r.0.requests)
        (cover && is_approved deal.approval_state) (w, ApprovalState.approved) _ (λ _. h)
        (λ _. route-IsClosed level deal.id assessment now k w h)

module _ {S : Type 0} (gateway : Gateway S) where
  Step-IsClosed :
      {v w : World S} (k : ℕ) → Step gateway v w → IsClosed k v.requests → IsClosed k w.requests
  Step-IsClosed k (decides request_id actor action reason now v w e) h =
      let (req, deal, found, pending, has_deal, differs, role, same) =
        decide_accepts gateway request_id actor action reason now v w e in
      let there =
        subst (λ i. find_row request_key i v.requests ≡ some req)
          (sym (find_row_id request_key request_id v.requests req found)) found in
      subst (IsClosed k)
        (sym (
          ap (λ (z : World S). z.requests) same
          ∙ after-requests gateway action deal req actor reason now v))
        (IsClosed-append k _ _ (
          IsClosed-modify_row k req.id (decided action actor reason now) v.requests req
            (decided_id action actor reason now) there pending h))
  Step-IsClosed k (routes deal assessment level cover now v) h =
      routing-IsClosed deal assessment level cover now k v h
  Step-IsClosed k (evaluates catalog id order trigger actor now v w e) h =
      let (deal, ctx, found, context, same) =
        evaluated gateway catalog id order trigger actor now v w e in
      let r = assess catalog ctx (has_open_counter deal.id v) in
      subst (IsClosed k)
        (sym (
          ap (λ (z : World S). z.requests) same
          ∙ (closing-same gateway deal r trigger actor now v).1))
        (routing-IsClosed deal v.next_id r.required_level (is_covered deal r v) now k _
          (subst (IsClosed k) (sym (add_assessment-same deal r trigger now v).1) h))
  Step-IsClosed k (confirms deal_id customer note now v w view e) h =
      subst (IsClosed k) (sym (confirm-same gateway deal_id customer note now v w view e).1) h
  Step-IsClosed k (submits deal_id customer actor payload now v w e) h =
      subst (IsClosed k) (sym (submit-same deal_id customer actor payload now v w e).1) h

  run-IsClosed :
      {u w : World S} (k : ℕ) → Run gateway u w → IsClosed k u.requests → IsClosed k w.requests
  run-IsClosed k stop h = h
  run-IsClosed k (next run step) h = Step-IsClosed k step (run-IsClosed k run h)

  not_pending :
      (request_id : ℕ) (actor : Actor) (action : ApprovalActionType) (reason : Option String)
      (now : ℕ) (w : World S) (r : ApprovalRequest)
      → find_request request_id w ≡ some r
      → is_pending r.status ≡ false
      → decide_approval_request gateway request_id actor action reason now w
        ≡ err request_not_pending
  unfolding decide_approval_request
  not_pending request_id actor action reason now w r found closed = rw (found, closed)

  -- A request that was approved, rejected or returned is not decided again: after every run of the
  -- services that follows, any decision on it, by anyone, is refused.
  pub decide_once :
      (request_id : ℕ) (actor : Actor) (action : ApprovalActionType) (reason : Option String)
      (now : ℕ) (w v x : World S)
      → leaves_open action ≡ false
      → decide_approval_request gateway request_id actor action reason now w ≡ ok v
      → Run gateway v x
      → (other : Actor) (again : ApprovalActionType) (why : Option String) (later : ℕ)
      → decide_approval_request gateway request_id other again why later x ≡ err request_not_pending
  decide_once request_id actor action reason now w v x final e run other again why later =
      let (req, deal, found, pending, has_deal, differs, role, same) =
        decide_accepts gateway request_id actor action reason now w v e in
      let change = decided action actor reason now in
      let closed : IsClosed request_id v.requests = (
        change req,
        ap (λ (z : World S). find_request request_id z) same
            ∙ ap (find_row (λ (r : ApprovalRequest). r.id) request_id)
                (after-requests gateway action deal req actor reason now w)
            ∙ find_row-append (λ r. r.id) request_id _ (follow_up action deal req now w.next_id)
                (change req)
                (find_modified (λ r. r.id) request_id req.id change w.requests req
                  (decided_id action actor reason now) found
                  (find_row_id (λ r. r.id) request_id w.requests req found)),
        decided_closed action actor reason now req final,
      ) in
      let (r, still, shut) = run-IsClosed request_id run closed in
      not_pending request_id other again why later x r still shut
