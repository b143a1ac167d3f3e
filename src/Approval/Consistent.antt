-- ===== src/Approval/Consistent.antt =====
-- The deals' approval states and the pending requests agree: a decision of
-- app/services/approval_service.py keeps it.
use chumma.Base.{
  subst, ℕ, ◌+◌, ◌≤◌, String, ◌≡◌, sym, ap, ◌∙◌, true, ◌&&◌, Option, none, some, ◌++◌, arith, ◌==◌,
  if◌then◌else◌, ==_iff, ==_refl, sum_of-append,
}
use chumma.Enums.{ApprovalState, ApprovalActionType, Stage}
use chumma.State.{ApprovalRequest, Deal, Actor, World, ok, Gateway}
use chumma.Approval.{decide_approval_request, perform, record_action}
use chumma.Approval.Effect.{state_of, replace, new_state}
use chumma.Routing.Pending.{pending_at, is_stage, waiting, expected, sum_of-modify_row}
use chumma.Approval.Outcome.{
  decided, follow_up, perform-requests, perform-state, record_action-state,
}
use chumma.Routing.{is_pending}
use chumma.State.Tables.{find_row, find_row_id, modify_row, find_deal}
use chumma.Approval.Guards.{decide_accepts}
use chumma.Approval.Counts.{
  leaves_open, opens_finance, one_if, counts_of, is_stage_refl, find_row-sum_of,
  pending_at_of_pending, pending_at-decided, waiting-follow_up,
}

module _ {S : Type 0} where
  -- Each deal has the pending requests that its approval state calls for: one at the manager's stage
  -- in `PENDING_MANAGER`, one at the finance stage in `PENDING_FINANCE`, and no others.
  abbrev pub IsConsistent : World S → Type 0
  IsConsistent w =
      (k : ℕ) (s : Stage) (st : ApprovalState)
      → state_of k w ≡ some st
      → waiting k s w.requests ≡ expected st s

module _ {S : Type 0} (gateway : Gateway S) where
  pub after-requests :
      (action : ApprovalActionType) (deal : Deal) (req : ApprovalRequest) (actor : Actor)
      (reason : Option String) (now : ℕ) (w : World S)
      → (perform gateway action deal req actor reason now
          (record_action action req actor reason now w)).requests
        ≡ modify_row (λ r. r.id) req.id (decided action actor reason now) w.requests
          ++ follow_up action deal req now w.next_id
  unfolding record_action
  after-requests action deal req actor reason now w =
      perform-requests gateway action deal req actor reason now _

  pub found-state :
      (k : ℕ) (w : World S) (deal : Deal)
      → find_deal k w ≡ some deal
      → state_of k w ≡ some deal.approval_state
  unfolding state_of
  found-state k w deal e = ap (λ o. elim o [ none ↦ none | some d ↦ some d.approval_state ]) e

  pub waits :
      (req : ApprovalRequest) (w : World S)
      → find_row (λ r. r.id) req.id w.requests ≡ some req
      → is_pending req.status ≡ true
      → 1 ≤ waiting req.deal_id req.required_level w.requests
  waits req w found h =
      let one = pending_at_of_pending req.deal_id req.required_level req h in
      let least =
        find_row-sum_of (λ (r : ApprovalRequest). r.id) (pending_at req.deal_id req.required_level)
          req.id w.requests req found in
      let own =
        ap (λ b. one_if (b && is_stage req.required_level req.required_level))
          (==_refl req.deal_id) in
      let stage = is_stage_refl req.required_level in
      omega (arith, one, least, own, ap one_if stage)

  -- The requests that wait after an action, for a pending request that is in the table.
  after-waiting :
      (action : ApprovalActionType) (deal : Deal) (req : ApprovalRequest) (actor : Actor)
      (reason : Option String) (now : ℕ) (w : World S) (k : ℕ) (s : Stage)
      → find_row (λ r. r.id) req.id w.requests ≡ some req
      → is_pending req.status ≡ true
      → waiting k s
            (perform gateway action deal req actor reason now
              (record_action action req actor reason now w)).requests
          + one_if ((req.deal_id == k) && is_stage s req.required_level)
        ≡ waiting k s w.requests
          + one_if ((req.deal_id == k) && (leaves_open action && is_stage s req.required_level))
          + one_if (
              (deal.id == k)
              && (opens_finance action deal.required_level req.required_level
                  && is_stage s Stage.finance))
  after-waiting action deal req actor reason now w k s found h = omega (
    arith,
    ap (waiting k s) (after-requests action deal req actor reason now w),
    sum_of-append (pending_at k s)
        (modify_row (λ r. r.id) req.id (decided action actor reason now) w.requests)
        (follow_up action deal req now w.next_id),
    sum_of-modify_row (λ r. r.id) (pending_at k s) req.id (decided action actor reason now) req
        w.requests found,
    pending_at_of_pending k s req h,
    pending_at-decided action actor reason now k s req h,
    waiting-follow_up action deal req now w.next_id k s,
  )

  -- Every accepted decision keeps the approval states and the pending requests in agreement.
  pub decide-IsConsistent :
      (request_id : ℕ) (actor : Actor) (action : ApprovalActionType) (reason : Option String)
      (now : ℕ) (w v : World S)
      → IsConsistent w
      → decide_approval_request gateway request_id actor action reason now w ≡ ok v
      → IsConsistent v
  decide-IsConsistent request_id actor action reason now w v agree e k s st h =
      let (req, deal, found, pending, has_deal, other, role, same) =
        decide_accepts gateway request_id actor action reason now w v e in
      let own = find_row_id (λ (d : Deal). d.id) req.deal_id w.deals deal has_deal in
      let key = find_row_id (λ (r : ApprovalRequest). r.id) request_id w.requests req found in
      let in_table =
        subst (λ i. find_row (λ (r : ApprovalRequest). r.id) i w.requests ≡ some req) (sym key)
          found in
      let was = found-state req.deal_id w deal has_deal in
      counts_of (deal.id == k) action deal.required_level req.required_level s deal.approval_state
        st (state_of k w) (waiting k s v.requests) (waiting k s w.requests)
        (ap (λ z. z + one_if ((deal.id == k) && is_stage s req.required_level))
            (ap (λ (z : World S). waiting k s z.requests) same)
          ∙ subst
              (λ i.
                waiting k s
                    (perform gateway action deal req actor reason now
                      (record_action action req actor reason now w)).requests
                  + one_if ((i == k) && is_stage s req.required_level)
                ≡ waiting k s w.requests
                  + one_if ((i == k) && (leaves_open action && is_stage s req.required_level))
                  + one_if (
                      (deal.id == k)
                      && (opens_finance action deal.required_level req.required_level
                          && is_stage s Stage.finance)))
              (sym own) (after-waiting action deal req actor reason now w k s in_table pending))
        (λ t.
          subst (λ i. state_of i w ≡ some deal.approval_state) (sym own ∙ (==_iff deal.id k).0 t)
            was)
        (subst (λ n. 1 ≤ n) (agree req.deal_id req.required_level deal.approval_state was)
          (waits req w in_table pending))
        (agree k s)
        (sym (
            ap (state_of k) same
            ∙ perform-state gateway action deal req actor reason now k _
            ∙ ap
                (λ o.
                  if deal.id == k
                  then replace (new_state action deal.required_level req.required_level) o
                  else o)
                (record_action-state action req actor reason now k w))
          ∙ h)
