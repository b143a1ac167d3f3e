-- ===== src/Approval/Guards.antt =====
-- When app/services/approval_service.py accepts a decision.
use chumma.Base.{◌↔◌, ◌⊎◌, refl, ℕ, String, ◌≡◌, ◌≢◌, true, false, not, Option, some, arith, ◌==◌}
use chumma.Enums.{ApprovalActionType, ApprovalRequestStatus, Role, Stage}
use chumma.State.{
  raise_if, or_raise, Deal, ApprovalRequest, Actor, World, Gateway, ok, entity_not_found,
  request_not_pending, own_deal, forbidden,
}
use chumma.State.Results.{>>=_ok, or_raise_ok, raise_if_ok, not-false}
use chumma.State.Tables.{find_deal, find_request}
use chumma.Routing.{is_pending}
use chumma.Approval.{
  raise_if, or_raise, may_decide, perform, record_action, decide_approval_request,
}

module _ {S : Type 0} (gateway : Gateway S) where
  -- What an accepted decision passed, and its result.
  pub decide_accepts :
      (request_id : ℕ) (actor : Actor) (action : ApprovalActionType) (reason : Option String)
      (now : ℕ) (w v : World S)
      → decide_approval_request gateway request_id actor action reason now w ≡ ok v
      → (req : ApprovalRequest) × (deal : Deal) × (find_request request_id w ≡ some req)
        × (is_pending req.status ≡ true)
        × (find_deal req.deal_id w ≡ some deal)
        × (deal.owner_odoo_user_id ≢ actor.odoo_user_id)
        × (may_decide actor.role req.required_level ≡ true)
        × (v
            ≡ perform gateway action deal req actor reason now
                (record_action action req actor reason now w))
  unfolding decide_approval_request
  decide_accepts request_id actor action reason now w v e =
      let (req, found, e1) = >>=_ok (or_raise (find_request request_id w) entity_not_found) _ v e in
      let (u, pending, e2) =
        >>=_ok (raise_if (not (is_pending req.status)) request_not_pending) _ v e1 in
      let (deal, has_deal, e3) =
        >>=_ok (or_raise (find_deal req.deal_id w) entity_not_found) _ v e2 in
      let (u2, other, e4) =
        >>=_ok (raise_if (deal.owner_odoo_user_id == actor.odoo_user_id) own_deal) _ v e3 in
      let (u3, role, e5) =
        >>=_ok (raise_if (not (may_decide actor.role req.required_level)) forbidden) _ v e4 in
      (
        req,
        deal,
        or_raise_ok _ _ req found,
        not-false _ (raise_if_ok _ _ u pending),
        or_raise_ok _ _ deal has_deal,
        differs deal.owner_odoo_user_id actor.odoo_user_id (raise_if_ok _ _ u2 other),
        not-false _ (raise_if_ok _ _ u3 role),
        cc,
      )
    where
      differs : (m n : ℕ) → (m == n) ≡ false → m ≢ n
      differs m n e same = ground arith

-- The role that a stage is decided by.
abbrev pub stage_role : Stage → Role
stage_role Stage.sales_manager = Role.sales_manager
stage_role Stage.finance = Role.finance

abbrev pub HasRole : Role → Stage → Type 0
HasRole role s = (role ≡ Role.admin) ⊎ (role ≡ stage_role s)

may_decide_iff : (role : Role) (s : Stage) → (may_decide role s ≡ true) ↔ HasRole role s
may_decide_iff role s = ground arith

pending_iff :
    (s : ApprovalRequestStatus) → (is_pending s ≡ true) ↔ (s ≡ ApprovalRequestStatus.pending)
pending_iff s = ground arith

module _ {S : Type 0} where
  -- The guards of a decision.
  abbrev pub MayDecide : ℕ → Actor → World S → Type 0
  MayDecide request_id actor w =
      (req : ApprovalRequest) × (deal : Deal) × (find_request request_id w ≡ some req)
      × (req.status ≡ ApprovalRequestStatus.pending)
      × (find_deal req.deal_id w ≡ some deal)
      × (deal.owner_odoo_user_id ≢ actor.odoo_user_id)
      × HasRole actor.role req.required_level

module _ {S : Type 0} (gateway : Gateway S) where
  -- A decision is accepted exactly when its request exists and is pending, the request's deal
  -- exists and is not owned by the user, and the user is an administrator or has the role of the
  -- request's stage: a sales manager for the first, the finance team for the second.
  pub decide_accepted_iff :
      (request_id : ℕ) (actor : Actor) (action : ApprovalActionType) (reason : Option String)
      (now : ℕ) (w : World S)
      → ((v : World S) × (decide_approval_request gateway request_id actor action reason now w
            ≡ ok v))
        ↔ MayDecide request_id actor w
  unfolding decide_approval_request
  decide_accepted_iff request_id actor action reason now w = (
    λ (v, e).
        let (req, deal, found, pending, has_deal, other, role, same) =
          decide_accepts gateway request_id actor action reason now w v e in
        (
          req,
          deal,
          found,
          (pending_iff req.status).0 pending,
          has_deal,
          other,
          (may_decide_iff actor.role req.required_level).0 role,
        ),
    λ (req, deal, found, pending, has_deal, other, role). (
      perform gateway action deal req actor reason now
          (record_action action req actor reason now w),
      rw
          (
            found,
            pending,
            has_deal,
            not_same deal.owner_odoo_user_id actor.odoo_user_id other,
            (may_decide_iff actor.role req.required_level).1 role,
          )
          refl,
    ),
  )
    where
      not_same : (m n : ℕ) → m ≢ n → (m == n) ≡ false
      not_same m n h = ground arith
