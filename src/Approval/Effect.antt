-- ===== src/Approval/Effect.antt =====
-- What a decision of app/services/approval_service.py does to the deals' approval states and to
-- the table of requests.
use chumma.Base.{
  [], ap, List, ◌∷◌, ◌++◌, ℕ, ◌≡◌, refl, ◌∙◌, Bool, true, false, Option, none, some, ◌==◌,
  if◌then◌else◌,
}
use chumma.Enums.{AuditEventType, ApprovalState, ApprovalLevel, ApprovalActionType, Stage}
use chumma.State.{AuditEvent, ActorType, NotificationType, Deal, World, Gateway}
use chumma.State.Tables.{
  touch, find_row-modify_row, find_deal, modify_deal, record_audit_event, create_notification,
  is_duplicate,
}
use chumma.Approval.{confirm_deal, auto_confirm, needs_finance, sync_governance}

pub on_if {ℓ κ} :
    {A : Type ℓ} {B : Type κ} (f : A → B) (b : Bool) (x y : A) {z : B}
    → f x ≡ z
    → f y ≡ z
    → f (if b then x else y) ≡ z
on_if f true x y hx hy = hx
on_if f false x y hx hy = hy

-- A state put in place of one that is there.
abbrev pub replace : Option ApprovalState → Option ApprovalState → Option ApprovalState
replace none old = old
replace (some new) none = none
replace (some new) (some old) = some new

-- The state that a decision leads to, if it leads to another, written out by level and stage.
abbrev pub new_state : ApprovalActionType → ApprovalLevel → Stage → Option ApprovalState
new_state ApprovalActionType.approve ApprovalLevel.manager_and_finance Stage.sales_manager =
    some ApprovalState.pending_finance
new_state ApprovalActionType.approve ApprovalLevel.manager_and_finance Stage.finance =
    some ApprovalState.approved
new_state ApprovalActionType.approve ApprovalLevel.manager stage = some ApprovalState.approved
new_state ApprovalActionType.approve ApprovalLevel.none stage = some ApprovalState.approved
new_state ApprovalActionType.reject level stage = some ApprovalState.rejected
new_state ApprovalActionType.return level stage = some ApprovalState.returned
new_state _ level stage = none

pub approved_to :
    (level : ApprovalLevel) (stage : Stage)
    → some (
        if needs_finance level stage then ApprovalState.pending_finance else ApprovalState.approved)
      ≡ new_state ApprovalActionType.approve level stage
approved_to ApprovalLevel.manager_and_finance Stage.sales_manager = refl
approved_to ApprovalLevel.manager_and_finance Stage.finance = refl
approved_to ApprovalLevel.manager stage = refl
approved_to ApprovalLevel.none stage = refl

module _ {S : Type 0} where
  -- The approval state of the deal with a key.
  unfoldable pub state_of : ℕ → World S → Option ApprovalState
  state_of k w = elim (find_deal k w) [ none ↦ none | some d ↦ some d.approval_state ]

  pub state_of-set :
      (k j : ℕ) (f : Deal → Deal) (st : ApprovalState) (w : World S)
      → ((d : Deal) → (f d).id ≡ d.id)
      → ((d : Deal) → (f d).approval_state ≡ st)
      → state_of j (modify_deal k f w)
        ≡ (if k == j then replace (some st) (state_of j w) else state_of j w)
  unfolding state_of
  state_of-set k j f st w keeps sets =
      ap shown (find_row-modify_row (λ d. d.id) k j f w.deals keeps)
      ∙ by_row (find_deal j w) (k == j)
    where
      shown : Option Deal → Option ApprovalState
      shown o = elim o [ none ↦ none | some d ↦ some d.approval_state ]

      by_row :
          (o : Option Deal) (b : Bool)
          → shown (elim o [ none ↦ none | some x ↦ some (if b then f x else x) ])
            ≡ (if b then replace (some st) (shown o) else shown o)
      by_row none true = refl
      by_row none false = refl
      by_row (some d) true = ap some (sets d)
      by_row (some d) false = refl

  pub state_of-keep :
      (k j : ℕ) (f : Deal → Deal) (w : World S)
      → ((d : Deal) → (f d).id ≡ d.id)
      → ((d : Deal) → (f d).approval_state ≡ d.approval_state)
      → state_of j (modify_deal k f w) ≡ state_of j w
  unfolding state_of
  state_of-keep k j f w keeps sets =
      ap shown (find_row-modify_row (λ d. d.id) k j f w.deals keeps)
      ∙ by_row (find_deal j w) (k == j)
    where
      shown : Option Deal → Option ApprovalState
      shown o = elim o [ none ↦ none | some d ↦ some d.approval_state ]

      by_row :
          (o : Option Deal) (b : Bool)
          → shown (elim o [ none ↦ none | some x ↦ some (if b then f x else x) ]) ≡ shown o
      by_row none true = refl
      by_row none false = refl
      by_row (some d) true = ap some (sets d)
      by_row (some d) false = refl

  pub audits-state :
      (events : List AuditEvent) (j : ℕ) (w : World S)
      → state_of j (record w { audits = events }) ≡ state_of j w
  unfolding state_of
  audits-state events j w = refl

  pub audit-state :
      (kind : AuditEventType) (entity : Option ℕ) (deal : ℕ) (actor_type : ActorType)
      (actor : Option ℕ) (now j : ℕ) (w : World S)
      → state_of j (record_audit_event kind entity deal actor_type actor now w) ≡ state_of j w
  unfolding record_audit_event
  audit-state kind entity deal actor_type actor now j w =
      state_of-keep deal j (touch now)
        (record w {
          audits =
              w.audits
              ++ record {
                event_type = kind;
                entity_id = entity;
                deal_id = deal;
                actor_type = actor_type;
                actor_id = actor;
                created_at = now;
              }
                ∷ [];
        })
        (λ d. refl) (λ d. refl)
      ∙ audits-state _ j w

  pub notify-state :
      (recipient : ℕ) (kind : NotificationType) (entity : ℕ) (key : Option ℕ) (now j : ℕ)
      (w : World S)
      → state_of j (create_notification recipient kind entity key now w) ≡ state_of j w
  unfolding create_notification state_of
  notify-state recipient kind entity key now j w =
      on_if (state_of j) (is_duplicate key w.notifications) w _ refl refl

  pub audit-requests :
      (kind : AuditEventType) (entity : Option ℕ) (deal : ℕ) (actor_type : ActorType)
      (actor : Option ℕ) (now : ℕ) (w : World S)
      → (record_audit_event kind entity deal actor_type actor now w).requests ≡ w.requests
  unfolding record_audit_event
  audit-requests kind entity deal actor_type actor now w = refl

  pub notify-requests :
      (recipient : ℕ) (kind : NotificationType) (entity : ℕ) (key : Option ℕ) (now : ℕ)
      (w : World S)
      → (create_notification recipient kind entity key now w).requests ≡ w.requests
  unfolding create_notification
  notify-requests recipient kind entity key now w =
      on_if (λ (v : World S). v.requests) (is_duplicate key w.notifications) w _ refl refl

  pub odoo-state : (s : S) (j : ℕ) (w : World S) → state_of j (record w { odoo = s }) ≡ state_of j w
  unfolding state_of
  odoo-state s j w = refl

module _ {S : Type 0} (gateway : Gateway S) where
  pub sync-state :
      (deal : Deal) (st : ApprovalState) (locked : Bool) (j : ℕ) (w : World S)
      → state_of j (sync_governance gateway deal st locked w) ≡ state_of j w
  unfolding sync_governance state_of
  sync-state deal st locked j w = refl

  pub sync-requests :
      (deal : Deal) (st : ApprovalState) (locked : Bool) (w : World S)
      → (sync_governance gateway deal st locked w).requests ≡ w.requests
  unfolding sync_governance
  sync-requests deal st locked w = refl

  pub auto_confirm-requests :
      (deal : Deal) (now : ℕ) (w : World S)
      → (auto_confirm gateway deal now w).requests ≡ w.requests
  unfolding auto_confirm record_audit_event
  auto_confirm-requests deal now w =
      on_if (λ (v : World S). v.requests) deal.customer_confirmed_pending _ w
        (on_if (λ (v : World S). v.requests) (gateway.confirm deal.odoo_sale_order_id w.odoo).1 _ _
          refl refl)
        refl

  pub auto_confirm-state :
      (deal : Deal) (now j : ℕ) (w : World S)
      → state_of j (auto_confirm gateway deal now w) ≡ state_of j w
  unfolding auto_confirm
  auto_confirm-state deal now j w =
      on_if (state_of j) deal.customer_confirmed_pending _ w
        (on_if (state_of j) (gateway.confirm deal.odoo_sale_order_id w.odoo).1 _ _
          (audit-state AuditEventType.order_confirmed (some deal.id) deal.id ActorType.system none
              now j _
            ∙ state_of-keep deal.id j (confirm_deal now) called (λ d. refl) (λ d. refl)
            ∙ odoo-state _ j w)
          (odoo-state _ j w))
        refl
    where
      called : World S
      called = record w { odoo = (gateway.confirm deal.odoo_sale_order_id w.odoo).0 }
