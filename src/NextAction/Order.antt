-- ===== src/NextAction/Order.antt =====
-- What the order of the rules of app/guardian/next_action.py promises.
use chumma.Base.{
  leb, [], subst, ◌∷◌, List, ◌∙◌, ltb, sym, ◌&&◌, ℕ, refl, ◌||◌, if◌then◌else◌, if-cases, ◌≡◌, ◌↔◌,
  Bool, true, false, Option, some, arith,
}
use chumma.Enums.{Role, ApprovalState, NextBestActionType, Stage}
use chumma.Approval.{may_decide}
use chumma.NextAction.{
  is_sent, is_draft, is_confirmed, is_refused, is_proposed, is_invalidated, is_above_zero, action,
  Priority, is_cleared, is_finance_approver, is_mgr_approver, NextBestAction, is_pending_finance,
  is_pending_manager, DealFacts, later_rules, determine_next_best_action,
}

-- Whether a deal waits for a decision whose role guard (app/services/approval_service.py) lets a
-- user's role pass.
abbrev pub role_passes : Option Role → ApprovalState → Bool
role_passes (some role) ApprovalState.pending_manager = may_decide role Stage.sales_manager
role_passes (some role) ApprovalState.pending_finance = may_decide role Stage.finance
role_passes _ _ = false

finance_case :
    (role : Option Role) (st : ApprovalState)
    → is_pending_finance st ≡ true
    → ((if is_finance_approver role
          then NextBestActionType.awaiting_approver
          else NextBestActionType.finance_approval_required)
        ≡ NextBestActionType.awaiting_approver)
      ↔ (role_passes role st ≡ true)
finance_case role st h = ground arith

manager_case :
    (role : Option Role) (st : ApprovalState)
    → is_pending_manager st ≡ true
    → ((if is_mgr_approver role
          then NextBestActionType.awaiting_approver
          else NextBestActionType.manager_approval_required)
        ≡ NextBestActionType.awaiting_approver)
      ↔ (role_passes role st ≡ true)
manager_case role st h = ground arith

no_act :
    (role : Option Role) (st : ApprovalState)
    → is_pending_finance st ≡ false
    → is_pending_manager st ≡ false
    → role_passes role st ≡ false
no_act role st h k = ground arith

abbrev is_awaiting : NextBestActionType → Bool
is_awaiting NextBestActionType.awaiting_approver = true
is_awaiting _ = false

no_iff :
    (t : NextBestActionType) (b : Bool)
    → is_awaiting t ≡ false
    → b ≡ false
    → (t ≡ NextBestActionType.awaiting_approver) ↔ (b ≡ true)
no_iff t b h k = ground arith

-- The rules as a table: the first whose condition holds gives the action.
abbrev Rules : Type 0
Rules = List (Bool × NextBestAction)

abbrev first_rule : Rules → NextBestAction → NextBestAction
first_rule [] default = default
first_rule ((b, a) ∷ rules) default = if b then a else first_rule rules default

-- `P` holds of each rule's action, where its condition holds and none before does.
abbrev Holds : (NextBestAction → Type 0) → Rules → NextBestAction → Type 0
Holds P [] default = P default
Holds P ((b, a) ∷ rules) default = (b ≡ true → P a) × (b ≡ false → Holds P rules default)

first_rule-Holds :
    (P : NextBestAction → Type 0) (rules : Rules) (default : NextBestAction)
    → Holds P rules default
    → P (first_rule rules default)
first_rule-Holds P [] default h = h
first_rule-Holds P ((b, a) ∷ rules) default h =
    if-cases P b a (first_rule rules default) h.0 (λ e. first_rule-Holds P rules default (h.1 e))

abbrev later_table : DealFacts → Rules
later_table f =
    (is_above_zero f.margin_exposure, action NextBestActionType.restore_margin Priority.medium)
    ∷ (
      is_proposed f.fulfillment_plan_status && is_confirmed f.deal_status,
      action NextBestActionType.accept_fulfillment_plan Priority.medium,
    )
    ∷ (
      f.has_consolidatable_backorder,
      action NextBestActionType.consolidate_backorder Priority.medium,
    )
    ∷ (
      is_draft f.deal_status && is_cleared f.approval_state,
      action NextBestActionType.send_to_customer Priority.medium,
    )
    ∷ (
      is_sent f.deal_status && leb f.stalled_days f.days_since_activity,
      action NextBestActionType.follow_up_customer Priority.medium,
    )
    ∷ (
      f.customer_confirmed_pending && is_cleared f.approval_state,
      action NextBestActionType.confirm_order Priority.high,
    )
    ∷ (f.has_recommendation, action NextBestActionType.add_recommendation Priority.low)
    ∷ []

abbrev table : DealFacts → Rules
table f =
    (
      is_pending_finance f.approval_state,
      action
          (if is_finance_approver f.user_role
            then NextBestActionType.awaiting_approver
            else NextBestActionType.finance_approval_required)
          Priority.high,
    )
    ∷ (
      is_pending_manager f.approval_state,
      action
          (if is_mgr_approver f.user_role
            then NextBestActionType.awaiting_approver
            else NextBestActionType.manager_approval_required)
          Priority.high,
    )
    ∷ (
      f.just_invalidated || is_invalidated f.approval_state,
      action NextBestActionType.reapproval_required Priority.high,
    )
    ∷ (
      ltb 0 f.open_negotiation_requests,
      action NextBestActionType.respond_to_customer Priority.high,
    )
    ∷ (
      is_refused f.approval_state && is_above_zero f.max_overage,
      action NextBestActionType.reduce_discount Priority.high,
    )
    ∷ []

later_first :
    (f : DealFacts)
    → later_rules f ≡ first_rule (later_table f) (action NextBestActionType.none Priority.low)
unfolding later_rules
later_first f = refl

determine_first :
    (f : DealFacts) → determine_next_best_action f ≡ first_rule (table f) (later_rules f)
unfolding determine_next_best_action
determine_first f = refl

abbrev Calm : NextBestAction → Type 0
Calm a = is_awaiting a.type ≡ false

later-Calm : (f : DealFacts) → Calm (later_rules f)
later-Calm f = subst Calm (sym (later_first f)) (
    first_rule-Holds Calm (later_table f) _ (
      λ _. refl,
      λ _. (
        λ _. refl,
        λ _. (
          λ _. refl,
          λ _. (λ _. refl, λ _. (λ _. refl, λ _. (λ _. refl, λ _. (λ _. refl, λ _. refl)))),
        ),
      ),
    ))

abbrev Told : DealFacts → NextBestAction → Type 0
Told f a =
    (a.type ≡ NextBestActionType.awaiting_approver)
    ↔ (role_passes f.user_role f.approval_state ≡ true)

-- A user is told that the deal awaits an approver exactly when an approval is pending and the user's
-- role passes the role guard that the approval service has for its stage. Who owns the deal, which
-- that service also asks, makes no difference.
pub awaiting_iff :
    (f : DealFacts)
    → ((determine_next_best_action f).type ≡ NextBestActionType.awaiting_approver)
      ↔ (role_passes f.user_role f.approval_state ≡ true)
awaiting_iff f =
    let idle = no_act f.user_role f.approval_state in
    subst (Told f) (sym (determine_first f)) (
      first_rule-Holds (Told f) (table f) (later_rules f) (
        finance_case f.user_role f.approval_state,
        λ x. (
          manager_case f.user_role f.approval_state,
          λ y. (
            λ _. no_iff _ _ refl (idle x y),
            λ _. (
              λ _. no_iff _ _ refl (idle x y),
              λ _. (
                λ _. no_iff _ _ refl (idle x y),
                λ _. no_iff (later_rules f).type _ (later-Calm f) (idle x y),
              ),
            ),
          ),
        ),
      ))

abbrev pub is_closing : NextBestActionType → Bool
is_closing NextBestActionType.confirm_order = true
is_closing NextBestActionType.send_to_customer = true
is_closing _ = false

and_true : (b c : Bool) → (b && c) ≡ true → c ≡ true
and_true true c h = h
and_true false c h = cc

or_false : (b c : Bool) → (b || c) ≡ false → b ≡ false
or_false true c h = cc
or_false false c h = refl

vacuous : {C : Type 0} → false ≡ true → C
vacuous h = cc

none_open : (n : ℕ) → ltb 0 n ≡ false → n ≡ 0
none_open n h = ground arith

told :
    (b : Bool) (t : NextBestActionType)
    → is_closing t ≡ false
    → is_closing (if b then NextBestActionType.awaiting_approver else t) ≡ false
told true t h = refl
told false t h = h

abbrev Cleared : DealFacts → NextBestAction → Type 0
Cleared f a = is_closing a.type ≡ true → is_cleared f.approval_state ≡ true

later-Cleared : (f : DealFacts) → Cleared f (later_rules f)
later-Cleared f = subst (Cleared f) (sym (later_first f)) (
    first_rule-Holds (Cleared f) (later_table f) _ (
      λ _ h. vacuous h,
      λ _. (
        λ _ h. vacuous h,
        λ _. (
          λ _ h. vacuous h,
          λ _. (
            λ t h. and_true _ _ t,
            λ _. (
              λ _ h. vacuous h,
              λ _. (λ t h. and_true _ _ t, λ _. (λ _ h. vacuous h, λ _ h. vacuous h)),
            ),
          ),
        ),
      ),
    ))

abbrev Quiet : DealFacts → NextBestAction → Type 0
Quiet f a =
    is_closing a.type ≡ true
    → (is_cleared f.approval_state ≡ true)
      × (f.just_invalidated ≡ false)
      × (f.open_negotiation_requests ≡ 0)

-- A quotation is to be sent, or an order to be confirmed, only when the deal is cleared, was not
-- invalidated just now, and no negotiation request is open.
pub closing_only :
    (f : DealFacts)
    → is_closing (determine_next_best_action f).type ≡ true
    → (is_cleared f.approval_state ≡ true)
      × (f.just_invalidated ≡ false)
      × (f.open_negotiation_requests ≡ 0)
closing_only f = subst (Quiet f) (sym (determine_first f)) (
    first_rule-Holds (Quiet f) (table f) (later_rules f) (
      λ _ h. vacuous (
          sym (
            told (is_finance_approver f.user_role) NextBestActionType.finance_approval_required
              refl)
          ∙ h),
      λ _. (
        λ _ h. vacuous (
            sym
              (told (is_mgr_approver f.user_role) NextBestActionType.manager_approval_required refl)
            ∙ h),
        λ _. (
          λ _ h. vacuous h,
          λ fresh. (
            λ _ h. vacuous h,
            λ settled. (
              λ _ h. vacuous h,
              λ _ h. (later-Cleared f h, or_false _ _ fresh, none_open _ settled),
            ),
          ),
        ),
      ),
    ))
