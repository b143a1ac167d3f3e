-- ===== src/Approval/Routed.antt =====
-- What app/guardian/approval_routing.py does to the approval states and to the pending requests.
use chumma.Base.{
  ℕ, ◌+◌, ◌≡◌, refl, sym, ap, ◌∙◌, Bool, true, false, ◌&&◌, Option, none, some, List, [], ◌∷◌,
  arith, ◌==◌, if◌then◌else◌, sum_of-append,
}
use chumma.Enums.{AuditEventType, ApprovalState, ApprovalLevel, Stage}
use chumma.State.{ApprovalRequest, ActorType, Deal, World}
use chumma.State.Tables.{record_audit_event}
use chumma.Routing.{
  is_approved, supersede_all, audit_superseded, invalidate_pending, set_state, request_manager,
  route, apply_approval_routing,
}
use chumma.Routing.Pending.{pending_at, is_stage, waiting, expected, waiting-supersede_all}
use chumma.Approval.Effect.{state_of, replace, state_of-set, audit-state}
use chumma.Approval.Consistent.{IsConsistent}

asked : (b c : Bool) → (if (b && true) && c then 1 else 0) + 0 ≡ (if b && c then 1 else 0)
asked true true = refl
asked true false = refl
asked false c = refl

manager_count :
    (b : Bool) (s : Stage) (n : ℕ)
    → (if b then 0 else n) + (if b && is_stage s Stage.sales_manager then 1 else 0)
      ≡ (if b then expected ApprovalState.pending_manager s else n)
manager_count b s n = ground arith

routed_counts :
    (own : Bool) (new st : ApprovalState) (s : Stage) (old : Option ApprovalState) (n before : ℕ)
    → n ≡ (if own then expected new s else before)
    → ((x : ApprovalState) → old ≡ some x → before ≡ expected x s)
    → (if own then replace (some new) old else old) ≡ some st
    → n ≡ expected st s
routed_counts true new st s none n before e was h = cc
routed_counts true new st s (some o) n before e was h =
    e ∙ ap (λ x. expected x s) (some_injective new st h)
  where
    some_injective : (x y : ApprovalState) → some x ≡ some y → x ≡ y
    some_injective x y e = cc
routed_counts false new st s old n before e was h = e ∙ was st h

module _ {S : Type 0} where
  superseded-state :
      (deal now j : ℕ) (rs : List ApprovalRequest) (w : World S)
      → state_of j (audit_superseded deal now rs w) ≡ state_of j w
  unfolding audit_superseded
  superseded-state deal now j [] w = refl
  superseded-state deal now j (r ∷ rs) w =
      superseded-state deal now j rs _
      ∙ audit-state AuditEventType.approval_invalidated (some r.id) deal ActorType.system none now j
          w

  superseded-requests :
      (deal now : ℕ) (rs : List ApprovalRequest) (w : World S)
      → (audit_superseded deal now rs w).requests ≡ w.requests
  unfolding audit_superseded record_audit_event
  superseded-requests deal now [] w = refl
  superseded-requests deal now (r ∷ rs) w = superseded-requests deal now rs _

  table-state :
      (rs : List ApprovalRequest) (id j : ℕ) (w : World S)
      → state_of j (record w { requests = rs; next_id = id }) ≡ state_of j w
  unfolding state_of
  table-state rs id j w = refl

  pub invalidate-state :
      (deal now j : ℕ) (w : World S) → state_of j (invalidate_pending deal now w) ≡ state_of j w
  unfolding invalidate_pending
  invalidate-state deal now j w = superseded-state deal now j _ _ ∙ table-state _ w.next_id j w

  pub invalidate-requests :
      (deal now : ℕ) (w : World S)
      → (invalidate_pending deal now w).requests ≡ supersede_all deal now w.requests
  unfolding invalidate_pending
  invalidate-requests deal now w = superseded-requests deal now _ _

  pub manager-state :
      (deal assessment now j : ℕ) (w : World S)
      → state_of j (request_manager deal assessment now w) ≡ (
          if deal == j
          then replace (some ApprovalState.pending_manager) (state_of j w)
          else state_of j w)
  unfolding request_manager
  manager-state deal assessment now j w =
      audit-state AuditEventType.approval_created (some w.next_id) deal ActorType.system none now j
        _
      ∙ state_of-set deal j (set_state ApprovalState.pending_manager) ApprovalState.pending_manager
          _ (λ d. refl) (λ d. refl)
      ∙ ap (λ o. if deal == j then replace (some ApprovalState.pending_manager) o else o)
          (table-state _ _ j w)

  manager-waiting :
      (deal assessment now j : ℕ) (s : Stage) (w : World S)
      → waiting j s (request_manager deal assessment now w).requests
        ≡ waiting j s w.requests + (if (deal == j) && is_stage s Stage.sales_manager then 1 else 0)
  unfolding request_manager record_audit_event
  manager-waiting deal assessment now j s w =
      sum_of-append (pending_at j s) w.requests _
      ∙ ap (λ n. waiting j s w.requests + n) (asked (deal == j) (is_stage s Stage.sales_manager))

  manager-IsConsistent :
      (deal assessment now : ℕ) (w : World S)
      → IsConsistent w
      → IsConsistent (request_manager deal assessment now (invalidate_pending deal now w))
  manager-IsConsistent deal assessment now w agree k s st h =
      routed_counts (deal == k) ApprovalState.pending_manager st s (state_of k w) _
        (waiting k s w.requests)
        (manager-waiting deal assessment now k s (invalidate_pending deal now w)
          ∙ ap (λ n. n + (if (deal == k) && is_stage s Stage.sales_manager then 1 else 0))
              (ap (waiting k s) (invalidate-requests deal now w)
                ∙ waiting-supersede_all deal now k s w.requests)
          ∙ manager_count (deal == k) s (waiting k s w.requests))
        (agree k s)
        (sym (
            manager-state deal assessment now k (invalidate_pending deal now w)
            ∙ ap (λ o. if deal == k then replace (some ApprovalState.pending_manager) o else o)
                (invalidate-state deal now k w))
          ∙ h)

  route-IsConsistent :
      (level : ApprovalLevel) (deal assessment now : ℕ) (w : World S)
      → IsConsistent w
      → IsConsistent (route level deal assessment now (invalidate_pending deal now w)).0
  unfolding route
  route-IsConsistent ApprovalLevel.none deal assessment now w agree k s st h =
      routed_counts (deal == k) ApprovalState.evaluated_no_approval st s (state_of k w) _
        (waiting k s w.requests)
        (ap (waiting k s) (invalidate-requests deal now w)
          ∙ waiting-supersede_all deal now k s w.requests)
        (agree k s)
        (sym (
            state_of-set deal k (set_state ApprovalState.evaluated_no_approval)
              ApprovalState.evaluated_no_approval (invalidate_pending deal now w) (λ d. refl)
              (λ d. refl)
            ∙ ap
                (λ o. if deal == k then replace (some ApprovalState.evaluated_no_approval) o else o)
                (invalidate-state deal now k w))
          ∙ h)
  route-IsConsistent ApprovalLevel.manager deal assessment now w agree k s st h =
      manager-IsConsistent deal assessment now w agree k s st h
  route-IsConsistent ApprovalLevel.manager_and_finance deal assessment now w agree k s st h =
      manager-IsConsistent deal assessment now w agree k s st h

  -- Routing keeps the approval states and the pending requests in agreement: it replaces whatever
  -- was pending for the deal by what its new state calls for.
  pub routing-IsConsistent :
      (deal : Deal) (assessment : ℕ) (level : ApprovalLevel) (is_covered : Bool) (now : ℕ)
      (w : World S)
      → IsConsistent w
      → IsConsistent (apply_approval_routing deal assessment level is_covered now w).0
  unfolding apply_approval_routing
  routing-IsConsistent deal assessment level is_covered now w agree =
      by_cover (is_covered && is_approved deal.approval_state)
    where
      by_cover :
          (b : Bool)
          → IsConsistent
              (if b
                then (w, ApprovalState.approved)
                else route level deal.id assessment now (invalidate_pending deal.id now w)).0
      by_cover true = agree
      by_cover false = route-IsConsistent level deal.id assessment now w agree
