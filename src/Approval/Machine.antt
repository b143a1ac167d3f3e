-- ===== src/Approval/Machine.antt =====
-- The abstract machine of a deal's approval: its calls and its moves, with what a decision of
-- app/services/approval_service.py and a routing of app/guardian/approval_routing.py come to in it.
use chumma.Base.{
  List, [], ◌∷◌, none, ◌≢◌, subst, ℕ, ◌≤◌, ◌≡◌, refl, sym, ap, ◌∙◌, ◌⊎◌, inl, inr, Bool, true,
  false, Option, some, arith, ◌==◌, if◌then◌else◌,
}
use chumma.Enums.{ApprovalState, ApprovalActionType, ApprovalLevel, Stage}
use chumma.State.{ApprovalRequest, Deal}
use chumma.Routing.Pending.{expected}
use chumma.Approval.Effect.{replace, new_state}
use chumma.Evaluation.Outcome.{next_state}

-- What a call asks, as a deal sees it: whether the call is about this deal, the action of a decision
-- with the level that the deal requires, or the level that an evaluation finds.
pub data Call : Type 0 where
  decision : Bool → ApprovalActionType → Option ApprovalLevel → Call
  evaluation : Bool → Option ApprovalLevel → Call
  customer : Call

-- The moves of the abstract machine. A manager's approval ends the approval of a deal, except where
-- both levels are required: there it passes the deal on to the finance team. A request is decided
-- where it waits. An evaluation keeps the state, clears a deal that needs no approval, or asks the
-- manager. No other call moves a deal.
pub data Moves : Call → ApprovalState → ApprovalState → Type 0 where
  undecided :
      {action : ApprovalActionType} {level : Option ApprovalLevel} {a : ApprovalState}
      → Moves (Call.decision false action level) a a
  escalates :
      {level : Option ApprovalLevel} {a : ApprovalState}
      → Moves (Call.decision true ApprovalActionType.escalate level) a a
  invalidates :
      {level : Option ApprovalLevel} {a : ApprovalState}
      → Moves (Call.decision true ApprovalActionType.invalidate level) a a
  forwards :
      Moves
        (Call.decision true ApprovalActionType.approve (some ApprovalLevel.manager_and_finance))
        ApprovalState.pending_manager
        ApprovalState.pending_finance
  manager_approves :
      {level : ApprovalLevel}
      → level ≢ ApprovalLevel.manager_and_finance
      → Moves
          (Call.decision true ApprovalActionType.approve (some level))
          ApprovalState.pending_manager
          ApprovalState.approved
  finance_approves :
      {level : Option ApprovalLevel}
      → Moves
          (Call.decision true ApprovalActionType.approve level)
          ApprovalState.pending_finance
          ApprovalState.approved
  manager_rejects :
      {level : Option ApprovalLevel}
      → Moves
          (Call.decision true ApprovalActionType.reject level)
          ApprovalState.pending_manager
          ApprovalState.rejected
  finance_rejects :
      {level : Option ApprovalLevel}
      → Moves
          (Call.decision true ApprovalActionType.reject level)
          ApprovalState.pending_finance
          ApprovalState.rejected
  manager_returns :
      {level : Option ApprovalLevel}
      → Moves
          (Call.decision true ApprovalActionType.return level)
          ApprovalState.pending_manager
          ApprovalState.returned
  finance_returns :
      {level : Option ApprovalLevel}
      → Moves
          (Call.decision true ApprovalActionType.return level)
          ApprovalState.pending_finance
          ApprovalState.returned
  unevaluated :
      {level : Option ApprovalLevel} {a : ApprovalState} → Moves (Call.evaluation false level) a a
  keeps :
      {level : Option ApprovalLevel} {a : ApprovalState} → Moves (Call.evaluation true level) a a
  clears :
      {a : ApprovalState}
      → Moves (Call.evaluation true (some ApprovalLevel.none)) a ApprovalState.evaluated_no_approval
  asks :
      {level : ApprovalLevel} {a : ApprovalState}
      → level ≢ ApprovalLevel.none
      → Moves (Call.evaluation true (some level)) a ApprovalState.pending_manager
  listens : {a : ApprovalState} → Moves Call.customer a a

-- Moves one after the other, the last call first.
pub data Trail : List Call → ApprovalState → ApprovalState → Type 0 where
  begins : {a : ApprovalState} → Trail [] a a
  goes_on :
      {c : Call} {cs : List Call} {a b d : ApprovalState}
      → Trail cs a b
      → Moves c b d
      → Trail (c ∷ cs) a d

-- A deal that was in a state has moved to the one it is in.
abbrev pub Moved : Call → ApprovalState → Option ApprovalState → Type 0
Moved c a p = (b : ApprovalState) × (p ≡ some b) × Moves c a b

move_to :
    {c : Call} (a b : ApprovalState) (p : Option ApprovalState)
    → Moves c a b
    → p ≡ some b
    → Moved c a p
move_to a b p m e = (b, e, m)

pub move_same :
    {c : Call} (a : ApprovalState) (o p : Option ApprovalState)
    → Moves c a a
    → p ≡ o
    → o ≡ some a
    → Moved c a p
move_same a o p m e h = move_to a a p m (e ∙ h)

pub routed_by :
    (level : ApprovalLevel) (a : ApprovalState)
    → Moves (Call.evaluation true (some level)) a (next_state level)
routed_by ApprovalLevel.none a = clears
routed_by ApprovalLevel.manager a = asks (λ e. ground arith)
routed_by ApprovalLevel.manager_and_finance a = asks (λ e. ground arith)

pub evaluation_keeps :
    (own : Bool) (level : Option ApprovalLevel) (a : ApprovalState)
    → Moves (Call.evaluation own level) a a
evaluation_keeps true level a = keeps
evaluation_keeps false level a = unevaluated

pub move_next :
    (own : Bool) (level : ApprovalLevel) (a : ApprovalState) (o p : Option ApprovalState)
    → p ≡ (if own then replace (some (next_state level)) o else o)
    → o ≡ some a
    → Moved (Call.evaluation own (some level)) a p
move_next false level a o p e h = move_same a o p unevaluated e h
move_next true level a o p e h =
    move_to a (next_state level) p (routed_by level a)
      (e ∙ ap (replace (some (next_state level))) h)

-- Where a request is expected, the state is that of its stage.
stage_state :
    (a : ApprovalState) (s : Stage)
    → 1 ≤ expected a s
    → ((a ≡ ApprovalState.pending_manager) × (s ≡ Stage.sales_manager))
      ⊎ ((a ≡ ApprovalState.pending_finance) × (s ≡ Stage.finance))
stage_state ApprovalState.pending_manager Stage.sales_manager h = inl (refl, refl)
stage_state ApprovalState.pending_finance Stage.finance h = inr (refl, refl)
stage_state ApprovalState.pending_manager Stage.finance h = absurd (omega (arith, h))
stage_state ApprovalState.pending_finance Stage.sales_manager h = absurd (omega (arith, h))
stage_state ApprovalState.not_evaluated s h = absurd (omega (arith, h))
stage_state ApprovalState.evaluated_no_approval s h = absurd (omega (arith, h))
stage_state ApprovalState.approved s h = absurd (omega (arith, h))
stage_state ApprovalState.rejected s h = absurd (omega (arith, h))
stage_state ApprovalState.returned s h = absurd (omega (arith, h))
stage_state ApprovalState.invalidated s h = absurd (omega (arith, h))

manager_moves :
    (action : ApprovalActionType) (level : ApprovalLevel)
    → Moved
        (Call.decision true action (some level))
        ApprovalState.pending_manager
        (replace (new_state action level Stage.sales_manager) (some ApprovalState.pending_manager))
manager_moves ApprovalActionType.approve ApprovalLevel.manager_and_finance = (_, refl, forwards)
manager_moves ApprovalActionType.approve ApprovalLevel.manager =
    (_, refl, manager_approves (λ e. ground arith))
manager_moves ApprovalActionType.approve ApprovalLevel.none =
    (_, refl, manager_approves (λ e. ground arith))
manager_moves ApprovalActionType.reject level = (_, refl, manager_rejects)
manager_moves ApprovalActionType.return level = (_, refl, manager_returns)
manager_moves ApprovalActionType.escalate level = (_, refl, escalates)
manager_moves ApprovalActionType.invalidate level = (_, refl, invalidates)

finance_moves :
    (action : ApprovalActionType) (level : ApprovalLevel)
    → Moved
        (Call.decision true action (some level))
        ApprovalState.pending_finance
        (replace (new_state action level Stage.finance) (some ApprovalState.pending_finance))
finance_moves ApprovalActionType.approve ApprovalLevel.manager_and_finance =
    (_, refl, finance_approves)
finance_moves ApprovalActionType.approve ApprovalLevel.manager = (_, refl, finance_approves)
finance_moves ApprovalActionType.approve ApprovalLevel.none = (_, refl, finance_approves)
finance_moves ApprovalActionType.reject level = (_, refl, finance_rejects)
finance_moves ApprovalActionType.return level = (_, refl, finance_returns)
finance_moves ApprovalActionType.escalate level = (_, refl, escalates)
finance_moves ApprovalActionType.invalidate level = (_, refl, invalidates)

decision_moves :
    (action : ApprovalActionType) (level : ApprovalLevel) (s : Stage) (a : ApprovalState)
    → 1 ≤ expected a s
    → Moved (Call.decision true action (some level)) a (replace (new_state action level s) (some a))
decision_moves action level s a h = elim (stage_state a s h) [
  | inl (at, stage) ↦ rw (at, stage) (manager_moves action level)
  | inr (at, stage) ↦ rw (at, stage) (finance_moves action level)
]

pub by_deal :
    (own : Bool) (action : ApprovalActionType) (level : ApprovalLevel) (at : Option ApprovalLevel)
    (s : Stage) (a : ApprovalState) (o p : Option ApprovalState)
    → p ≡ (if own then replace (new_state action level s) o else o)
    → (own ≡ true → (1 ≤ expected a s) × (at ≡ some level))
    → o ≡ some a
    → Moved (Call.decision own action at) a p
by_deal false action level at s a o p e waiting h = move_same a o p undecided e h
by_deal true action level at s a o p e waiting h =
    let (waits_here, requires) = waiting refl in
    subst (λ l. Moved (Call.decision true action l) a p) (sym requires)
      (subst (Moved (Call.decision true action (some level)) a)
        (sym (e ∙ ap (replace (new_state action level s)) h))
        (decision_moves action level s a waits_here))

-- Whether a request is one of a deal.
abbrev pub is_about : ℕ → Option ApprovalRequest → Bool
is_about j none = false
is_about j (some r) = r.deal_id == j

abbrev pub level_of_deal : Option Deal → Option ApprovalLevel
level_of_deal none = none
level_of_deal (some d) = some d.required_level
