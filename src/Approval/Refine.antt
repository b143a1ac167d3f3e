-- ===== src/Approval/Refine.antt =====
-- The services of app/services and app/guardian make only the moves of the abstract machine.
use chumma.Base.{
  List, [], ◌∷◌, none, subst, ℕ, ◌≤◌, String, ◌≡◌, refl, sym, ap, ◌∙◌, Bool, ◌&&◌, Option, some,
  ◌==◌, ==_iff, if-cases,
}
use chumma.Enums.{ApprovalState, ApprovalActionType, ApprovalLevel}
use chumma.State.{ApprovalRequest, Actor, Deal, World, Gateway, Result, ok, err}
use chumma.Context.{DealContext}
use chumma.State.Tables.{find_row, find_row_id, find_deal, find_request}
use chumma.Routing.{apply_approval_routing, is_approved}
use chumma.Approval.Effect.{state_of}
use chumma.Approval.Consistent.{IsConsistent, waits}
use chumma.Approval.Run.{
  Run, stop, next, run-IsConsistent, Step, decides, routes, confirms, submits, evaluates,
  decide_state,
}
use chumma.Enums.{TriggerType}
use chumma.Deals.{Catalog}
use chumma.Evaluation.{
  assess, has_open_counter, is_covered, add_assessment, context_for, evaluate_deal,
}
use chumma.Approval.{decide_approval_request}
use chumma.Evaluation.Effect.{closing-same, add_assessment-same, evaluated}
use chumma.Evaluation.Outcome.{route-state}
use chumma.Portal.Gate.{SameApprovals, confirm-same, submit-same}
use chumma.Approval.Machine.{
  Call, Moves, listens, Trail, begins, goes_on, Moved, move_same, move_next, evaluation_keeps,
  by_deal, is_about, level_of_deal,
}

module _ {S : Type 0} where
  same-Moves :
      {c : Call} (v w : World S) (j : ℕ) (a : ApprovalState)
      → Moves c a a
      → SameApprovals v w
      → state_of j v ≡ some a
      → Moved c a (state_of j w)
  same-Moves v w j a m same h = move_same a (state_of j v) (state_of j w) m (same.0 j) h

  routing_moves :
      (deal : Deal) (assessment : ℕ) (level : ApprovalLevel) (cover : Bool) (now j : ℕ)
      (w : World S) (a : ApprovalState)
      → state_of j w ≡ some a
      → Moved
          (Call.evaluation (deal.id == j) (some level))
          a
          (state_of j (apply_approval_routing deal assessment level cover now w).0)
  unfolding apply_approval_routing
  routing_moves deal assessment level cover now j w a h =
      if-cases
        (λ (r : World S × ApprovalState).
          Moved (Call.evaluation (deal.id == j) (some level)) a (state_of j r.0))
        (cover && is_approved deal.approval_state) (w, ApprovalState.approved) _
        (λ _.
          move_same a (state_of j w) (state_of j w) (evaluation_keeps (deal.id == j) (some level) a)
            refl h)
        (λ _.
          move_next (deal.id == j) level a (state_of j w) _
            (route-state level deal.id assessment now j w) h)

module _ {S : Type 0} (gateway : Gateway S) where
  -- The level of the risk that an evaluation of a deal finds.
  abbrev level_from : Catalog → ℕ → World S → Result DealContext → Option ApprovalLevel
  level_from catalog deal w (err problem) = none
  level_from catalog deal w (ok ctx) =
      some (assess catalog ctx (has_open_counter deal w)).required_level

  abbrev level_in : Catalog → World S → Option Deal → Option ApprovalLevel
  level_in catalog w none = none
  level_in catalog w (some d) =
      level_from catalog d.id w (context_for gateway catalog d d.odoo_sale_order_id w)

  -- The calls of a run, the last one first, as the deal with a key sees them.
  abbrev pub call_of : {v w : World S} → ℕ → Step gateway v w → Call
  call_of j (decides request_id actor action reason now v w e) =
      Call.decision (is_about j (find_request request_id v)) action (level_of_deal (find_deal j v))
  call_of j (routes deal assessment level cover now v) = Call.evaluation (deal.id == j) (some level)
  call_of j (evaluates catalog id order trigger actor now v w e) =
      Call.evaluation (id == j) (level_in catalog v (find_deal id v))
  call_of j (confirms deal_id partner message now v w view e) = Call.customer
  call_of j (submits deal_id partner actor payload now v w e) = Call.customer

  abbrev pub calls : {u w : World S} → ℕ → Run gateway u w → List Call
  calls j stop = []
  calls j (next run step) = call_of j step ∷ calls j run

  decides_moves :
      (request_id : ℕ) (actor : Actor) (action : ApprovalActionType) (reason : Option String)
      (now : ℕ) (v w : World S) (j : ℕ) (a : ApprovalState)
      → IsConsistent v
      → decide_approval_request gateway request_id actor action reason now v ≡ ok w
      → state_of j v ≡ some a
      → Moved
          (Call.decision
            (is_about j (find_request request_id v))
            action
            (level_of_deal (find_deal j v)))
          a
          (state_of j w)
  decides_moves request_id actor action reason now v w j a agree e h =
      let (req, deal, found, pending, has_deal, states) =
        decide_state gateway request_id actor action reason now v w e in
      let in_table =
        subst (λ i. find_row (λ (r : ApprovalRequest). r.id) i v.requests ≡ some req)
          (sym (find_row_id (λ (r : ApprovalRequest). r.id) request_id v.requests req found))
          found in
      subst
        (λ o.
          Moved (Call.decision (is_about j o) action (level_of_deal (find_deal j v))) a
            (state_of j w))
        (sym found)
        (by_deal (req.deal_id == j) action deal.required_level (level_of_deal (find_deal j v))
          req.required_level a (state_of j v) (state_of j w) (states j)
          (λ own.
            let same = (==_iff req.deal_id j).0 own in
            let was = subst (λ i. state_of i v ≡ some a) (sym same) h in
            (
              subst (λ n. 1 ≤ n) (agree req.deal_id req.required_level a was)
                  (waits gateway req v in_table pending),
              ap level_of_deal (subst (λ i. find_deal i v ≡ some deal) same has_deal),
            ))
          h)

  evaluates_moves :
      (catalog : Catalog) (id : ℕ) (order : Option ℕ) (trigger : TriggerType) (actor : Option ℕ)
      (now : ℕ) (v w : World S) (j : ℕ) (a : ApprovalState)
      → evaluate_deal gateway catalog (some id) order trigger actor now v ≡ ok w
      → state_of j v ≡ some a
      → Moved (Call.evaluation (id == j) (level_in catalog v (find_deal id v))) a (state_of j w)
  evaluates_moves catalog id order trigger actor now v w j a e h =
      let (deal, ctx, found, context, same) =
        evaluated gateway catalog id order trigger actor now v w e in
      let r = assess catalog ctx (has_open_counter deal.id v) in
      let own = find_row_id (λ (d : Deal). d.id) id v.deals deal found in
      let moved : Moved (Call.evaluation (deal.id == j) (some r.required_level)) a (state_of j w) =
        let (b, at, move) =
          routing_moves deal v.next_id r.required_level (is_covered deal r v) now j
            (add_assessment deal r trigger now v) a
            ((add_assessment-same deal r trigger now v).0 j ∙ h) in
        (
          b,
          ap (state_of j) same ∙ (closing-same gateway deal r trigger actor now v).0 j ∙ at,
          move,
        ) in
      let level = ap (level_in catalog v) found ∙ ap (level_from catalog deal.id v) context in
      subst (λ l. Moved (Call.evaluation (id == j) l) a (state_of j w)) (sym level)
        (subst (λ i. Moved (Call.evaluation (i == j) (some r.required_level)) a (state_of j w)) own
          moved)

  -- In a state in which approval states and pending requests agree, a step of the services takes
  -- every deal along a move of its call.
  pub Step-Moved :
      {v w : World S} (j : ℕ) (a : ApprovalState) (step : Step gateway v w)
      → IsConsistent v
      → state_of j v ≡ some a
      → Moved (call_of j step) a (state_of j w)
  Step-Moved j a (decides request_id actor action reason now v w e) agree h =
      decides_moves request_id actor action reason now v w j a agree e h
  Step-Moved j a (routes deal assessment level cover now v) agree h =
      routing_moves deal assessment level cover now j v a h
  Step-Moved j a (evaluates catalog id order trigger actor now v w e) agree h =
      evaluates_moves catalog id order trigger actor now v w j a e h
  Step-Moved j a (confirms deal_id partner message now v w view e) agree h =
      same-Moves v w j a listens (confirm-same gateway deal_id partner message now v w view e) h
  Step-Moved j a (submits deal_id partner actor payload now v w e) agree h =
      same-Moves v w j a listens (submit-same deal_id partner actor payload now v w e) h

  -- In a run of the services from a state in which approval states and pending requests agree, every
  -- deal keeps a state of approval, and comes from its first to its last along moves of an abstract
  -- machine, one for each call: a manager's approval completes the approval only of a deal that
  -- does not require both levels, and passes one that does on to the finance team; a rejection
  -- and a return act where the request waits; an evaluation keeps the state, clears a deal whose
  -- risk needs no approval or asks the manager; and the calls of customers, and those about other
  -- deals, move nothing.
  pub run-Trail :
      {u w : World S} (j : ℕ) (a : ApprovalState) (run : Run gateway u w)
      → IsConsistent u
      → state_of j u ≡ some a
      → (b : ApprovalState) × (state_of j w ≡ some b) × Trail (calls j run) a b
  run-Trail j a stop agree h = (a, h, begins)
  run-Trail j a (next run step) agree h =
      let (b, at, trail) = run-Trail j a run agree h in
      let (c, last, move) = Step-Moved j b step (run-IsConsistent gateway run agree) at in
      (c, last, goes_on trail move)
