-- ===== src/Approval/Counts.antt =====
-- How a decision of app/services/approval_service.py moves the counts of pending requests.
use chumma.Base.{
  ℕ, ◌+◌, ◌≤◌, String, ◌≡◌, refl, sym, ap, ◌∙◌, Bool, true, false, ◌&&◌, Option, some, List, [],
  ◌∷◌, arith, ◌==◌, if◌then◌else◌, sum_of,
}
use chumma.Enums.{ApprovalState, ApprovalLevel, ApprovalActionType, Stage}
use chumma.State.{ApprovalRequest, Deal, Actor}
use chumma.Approval.{needs_finance}
use chumma.Approval.Effect.{replace, new_state}
use chumma.Routing.Pending.{pending_at, is_stage, waiting, expected}
use chumma.Approval.Outcome.{decided, follow_up}
use chumma.Routing.{is_pending}
use chumma.State.Tables.{find_row}

abbrev pub leaves_open : ApprovalActionType → Bool
leaves_open ApprovalActionType.escalate = true
leaves_open ApprovalActionType.invalidate = true
leaves_open _ = false

abbrev pub opens_finance : ApprovalActionType → ApprovalLevel → Stage → Bool
opens_finance ApprovalActionType.approve level stage = needs_finance level stage
opens_finance _ level stage = false

abbrev pub one_if : Bool → ℕ
one_if b = if b then 1 else 0

-- The count at a stage, of the deal that a decision is about, by the state before and after.
counts :
    (action : ApprovalActionType) (level : ApprovalLevel) (stage s : Stage) (old st : ApprovalState)
    (n : ℕ)
    → n + one_if (is_stage s stage)
      ≡ expected old s
        + one_if (leaves_open action && is_stage s stage)
        + one_if (opens_finance action level stage && is_stage s Stage.finance)
    → 1 ≤ expected old stage
    → replace (new_state action level stage) (some old) ≡ some st
    → n ≡ expected st s
counts ApprovalActionType.approve level stage s old st n = ground arith
counts ApprovalActionType.reject level stage s old st n = ground arith
counts ApprovalActionType.return level stage s old st n = ground arith
counts ApprovalActionType.escalate level stage s old st n = ground arith
counts ApprovalActionType.invalidate level stage s old st n = ground arith

-- The count of any deal; `own` tells whether the decision is about it.
pub counts_of :
    (own : Bool) (action : ApprovalActionType) (level : ApprovalLevel) (stage s : Stage)
    (o st : ApprovalState) (old : Option ApprovalState) (n before : ℕ)
    → n + one_if (own && is_stage s stage)
      ≡ before
        + one_if (own && (leaves_open action && is_stage s stage))
        + one_if (own && (opens_finance action level stage && is_stage s Stage.finance))
    → (own ≡ true → old ≡ some o)
    → 1 ≤ expected o stage
    → ((x : ApprovalState) → old ≡ some x → before ≡ expected x s)
    → (if own then replace (new_state action level stage) old else old) ≡ some st
    → n ≡ expected st s
counts_of true action level stage s o st old n before e is_old enough was h =
    let at_old = is_old refl in
    let b = was o at_old in
    counts action level stage s o st n (omega (arith, e, b)) enough
      (sym (ap (replace (new_state action level stage)) at_old) ∙ h)
counts_of false action level stage s o st old n before e is_old enough was h =
    omega (arith, e, was st h)

pub is_stage_refl : (s : Stage) → is_stage s s ≡ true
is_stage_refl Stage.sales_manager = refl
is_stage_refl Stage.finance = refl

pub find_row-sum_of :
    {A : Type 0} (id_of : A → ℕ) (f : A → ℕ) (k : ℕ) (xs : List A) (x : A)
    → find_row id_of k xs ≡ some x
    → f x ≤ sum_of f xs
find_row-sum_of id_of f k [] x e = cc
find_row-sum_of id_of f k (y ∷ xs) x e = step (id_of y == k) (find_row-sum_of id_of f k xs x) e
  where
    step :
        (b : Bool)
        → (find_row id_of k xs ≡ some x → f x ≤ sum_of f xs)
        → (if b then some y else find_row id_of k xs) ≡ some x
        → f x ≤ f y + sum_of f xs
    step true rest e = let same : y ≡ x = cc in omega (arith, ap f same)
    step false rest e = omega (arith, rest e)

none_closed : (b c : Bool) → one_if ((b && false) && c) ≡ one_if (b && false)
none_closed true c = refl
none_closed false c = refl

pub pending_at_of_pending :
    (k : ℕ) (s : Stage) (r : ApprovalRequest)
    → is_pending r.status ≡ true
    → pending_at k s r ≡ one_if ((r.deal_id == k) && is_stage s r.required_level)
pending_at_of_pending k s r h =
    ap (λ b. one_if (((r.deal_id == k) && b) && is_stage s r.required_level)) h
    ∙ ap (λ b. one_if (b && is_stage s r.required_level)) (and_true (r.deal_id == k))
  where
    and_true : (b : Bool) → (b && true) ≡ b
    and_true true = refl
    and_true false = refl

pub pending_at-decided :
    (action : ApprovalActionType) (actor : Actor) (reason : Option String) (now k : ℕ) (s : Stage)
    (r : ApprovalRequest)
    → is_pending r.status ≡ true
    → pending_at k s (decided action actor reason now r)
      ≡ one_if ((r.deal_id == k) && (leaves_open action && is_stage s r.required_level))
pending_at-decided ApprovalActionType.approve actor reason now k s r h =
    none_closed (r.deal_id == k) (is_stage s r.required_level)
pending_at-decided ApprovalActionType.reject actor reason now k s r h =
    none_closed (r.deal_id == k) (is_stage s r.required_level)
pending_at-decided ApprovalActionType.return actor reason now k s r h =
    none_closed (r.deal_id == k) (is_stage s r.required_level)
pending_at-decided ApprovalActionType.escalate actor reason now k s r h =
    pending_at_of_pending k s (record r { decision_reason = reason }) h
pending_at-decided ApprovalActionType.invalidate actor reason now k s r h =
    pending_at_of_pending k s r h

pub waiting-follow_up :
    (action : ApprovalActionType) (deal : Deal) (req : ApprovalRequest) (now id k : ℕ) (s : Stage)
    → waiting k s (follow_up action deal req now id)
      ≡ one_if (
          (deal.id == k)
          && (opens_finance action deal.required_level req.required_level
              && is_stage s Stage.finance))
waiting-follow_up action deal req now id k s = by_action action
  where
    by_level :
        (n b c : Bool) (r : ApprovalRequest)
        → pending_at k s r ≡ one_if ((b && true) && c)
        → waiting k s (if n then r ∷ [] else []) ≡ one_if (b && (n && c))
    by_level true true c r h = omega (arith, h)
    by_level true false c r h = omega (arith, h)
    by_level false true c r h = refl
    by_level false false c r h = refl

    none_open : (b : Bool) → 0 ≡ one_if (b && false)
    none_open true = refl
    none_open false = refl

    by_action :
        (a : ApprovalActionType)
        → waiting k s (follow_up a deal req now id)
          ≡ one_if (
              (deal.id == k)
              && (opens_finance a deal.required_level req.required_level
                  && is_stage s Stage.finance))
    by_action ApprovalActionType.approve =
        by_level (needs_finance deal.required_level req.required_level) (deal.id == k)
          (is_stage s Stage.finance) _ refl
    by_action ApprovalActionType.reject = none_open (deal.id == k)
    by_action ApprovalActionType.return = none_open (deal.id == k)
    by_action ApprovalActionType.escalate = none_open (deal.id == k)
    by_action ApprovalActionType.invalidate = none_open (deal.id == k)
