-- ===== src/State/Tables.antt =====
-- Queries and updates of the tables, the audit trail (app/services/audit_service.py) and the
-- notifications (app/services/notification_service.py).
use chumma.Base.{
  ◌+◌, map, true, ap, ◌∙◌, ==_refl, ℕ, ◌≡◌, refl, Bool, false, Option, none, some, List, [], ◌∷◌,
  ◌++◌, arith, ◌==◌, if◌then◌else◌, any,
}
use chumma.Base.Decimal.{Decimal, dec}
use chumma.Enums.{AuditEventType}
use chumma.State.{
  Deal, ApprovalRequest, ActorType, Notification, NotificationType, NegotiationRequest, World,
}

-- `query(T).filter(T.id == key).first()`, and the assignment to the fields of that row.
module _ {A : Type 0} (id_of : A → ℕ) where
  abbrev pub find_row : ℕ → List A → Option A
  find_row k [] = none
  find_row k (x ∷ xs) = if id_of x == k then some x else find_row k xs

  abbrev pub modify_row : ℕ → (A → A) → List A → List A
  modify_row k f [] = []
  modify_row k f (x ∷ xs) = if id_of x == k then f x ∷ xs else x ∷ modify_row k f xs

  pub find_row-modify_row :
      (k j : ℕ) (f : A → A) (xs : List A)
      → ((x : A) → id_of (f x) ≡ id_of x)
      → find_row j (modify_row k f xs)
        ≡ elim (find_row j xs) [ none ↦ none | some x ↦ some (if k == j then f x else x) ]
  find_row-modify_row k j f [] keeps = refl
  find_row-modify_row k j f (x ∷ xs) keeps =
      ground (arith, keeps x, find_row-modify_row k j f xs keeps)

  pub find_row_id : (k : ℕ) (xs : List A) (x : A) → find_row k xs ≡ some x → id_of x ≡ k
  find_row_id k [] x e = cc
  find_row_id k (y ∷ xs) x e = ground (arith, find_row_id k xs x)

pub find_modified :
    {A : Type 0} (id_of : A → ℕ) (k j : ℕ) (f : A → A) (xs : List A) (x : A)
    → ((y : A) → id_of (f y) ≡ id_of y)
    → find_row id_of k xs ≡ some x
    → j ≡ k
    → find_row id_of k (modify_row id_of j f xs) ≡ some (f x)
find_modified id_of k j f xs x keeps found same =
    find_row-modify_row id_of j k f xs keeps
    ∙ ap (λ o. elim o [ none ↦ none | some y ↦ some (if j == k then f y else y) ]) found
    ∙ ap (λ b. some (if b then f x else x)) (ap (λ i. i == k) same ∙ ==_refl k)

pub find_row-append :
    {A : Type 0} (id_of : A → ℕ) (k : ℕ) (xs ys : List A) (x : A)
    → find_row id_of k xs ≡ some x
    → find_row id_of k (xs ++ ys) ≡ some x
find_row-append id_of k [] ys x e = cc
find_row-append id_of k (y ∷ xs) ys x e = step (id_of y == k) (find_row-append id_of k xs ys x) e
  where
    step :
        (b : Bool)
        → (find_row id_of k xs ≡ some x → find_row id_of k (xs ++ ys) ≡ some x)
        → (if b then some y else find_row id_of k xs) ≡ some x
        → (if b then some y else find_row id_of k (xs ++ ys)) ≡ some x
    step true rest e = e
    step false rest e = rest e

pub find_row-map :
    {A : Type 0} (id_of : A → ℕ) (f : A → A) (k : ℕ) (xs : List A)
    → ((x : A) → id_of (f x) ≡ id_of x)
    → find_row id_of k (map f xs) ≡ elim (find_row id_of k xs) [ none ↦ none | some x ↦ some (f x) ]
find_row-map id_of f k [] keeps = refl
find_row-map id_of f k (x ∷ xs) keeps = ground (arith, keeps x, find_row-map id_of f k xs keeps)

abbrev deal_id : Deal → ℕ
deal_id d = d.id

abbrev request_id : ApprovalRequest → ℕ
request_id r = r.id

abbrev negotiation_id : NegotiationRequest → ℕ
negotiation_id n = n.id

abbrev pub touch : ℕ → Deal → Deal
touch now d = record d { last_activity_at = now }

abbrev pub has_key : ℕ → Notification → Bool
has_key k n = elim n.dedupe_key [ none ↦ false | some j ↦ j == k ]

abbrev pub is_duplicate : Option ℕ → List Notification → Bool
is_duplicate none ns = false
is_duplicate (some k) ns = any (has_key k) ns

-- `deal.current_risk_score or Decimal("0.00")`
abbrev pub score_or_zero : Option Decimal → Decimal
score_or_zero none = dec 0 2
score_or_zero (some d) = d

module _ {S : Type 0} where
  abbrev pub find_deal : ℕ → World S → Option Deal
  find_deal k w = find_row deal_id k w.deals

  abbrev pub find_request : ℕ → World S → Option ApprovalRequest
  find_request k w = find_row request_id k w.requests

  abbrev pub find_negotiation : ℕ → World S → Option NegotiationRequest
  find_negotiation k w = find_row negotiation_id k w.negotiations

  abbrev pub modify_deal : ℕ → (Deal → Deal) → World S → World S
  modify_deal k f w = record w { deals = modify_row deal_id k f w.deals }

  abbrev pub modify_request : ℕ → (ApprovalRequest → ApprovalRequest) → World S → World S
  modify_request k f w = record w { requests = modify_row request_id k f w.requests }

  abbrev pub modify_negotiation : ℕ → (NegotiationRequest → NegotiationRequest) → World S → World S
  modify_negotiation k f w = record w {
    negotiations = modify_row negotiation_id k f w.negotiations;
  }

  -- `record_audit_event`, which also marks activity on the deal.
  unfoldable pub record_audit_event :
      AuditEventType → Option ℕ → ℕ → ActorType → Option ℕ → ℕ → World S → World S
  record_audit_event kind entity deal actor_type actor now w =
      modify_deal deal (touch now) (record w {
        audits =
            w.audits
            ++ record {
              event_type = kind;
              entity_id = entity;
              deal_id = deal;
              actor_type = actor_type;
              actor_id = actor;
              created_at = now;
            }
              ∷ [];
      })

  -- `create_notification`; one with a key that is there already is not made again.
  unfoldable pub create_notification : ℕ → NotificationType → ℕ → Option ℕ → ℕ → World S → World S
  create_notification recipient kind entity key now w =
      if is_duplicate key w.notifications then w else record w {
        notifications =
            w.notifications
            ++ record {
              id = w.next_id;
              recipient = recipient;
              type = kind;
              entity_id = entity;
              is_read = false;
              dedupe_key = key;
              created_at = now;
            }
              ∷ [];
        next_id = w.next_id + 1;
      }

  -- A gateway call under `try ... except Exception: pass`, with whether it returned.
  abbrev pub try_call : (S → S × Bool) → World S → World S × Bool
  try_call call w = let (s, returned) = call w.odoo in (record w { odoo = s }, returned)
