-- ===== src/State.antt =====
-- The rows of app/models that the governance services read and write, the tables that hold them,
-- and the interface of the Odoo gateway (app/odoo/interface.py), whose implementations call Odoo:
-- they stay a parameter.
-- A table is a list of rows in the order of insertion. A primary key is drawn by a counter, where
-- the code draws a `uuid4`; it names one row, so an update changes the first row with the key.
-- One time stamp `now` serves for all calls of `utc_now` in an operation. Columns that no modelled
-- operation reads or writes, and the free text of messages, are left out.
pub mod Plans
pub mod Results
pub mod Tables
use chumma.Base.{ℕ, String, Bool, true, false, Option, none, some, List}
use chumma.Base.Decimal.{Decimal}
use chumma.State.Plans.{
  FulfillmentPlan, FulfillmentPlanLine, WarehouseProfile, RawProduct, RawWarehouse, Shipment,
}
use chumma.Context.Build.{RawOrder, StockMap}
use chumma.Risk.{RiskFactor, Decision}
use chumma.Enums.{
  HealthStatus, TriggerType, Role, DealStatus, ApprovalState, ApprovalLevel, Stage,
  ApprovalRequestStatus, ApprovalActionType, RiskSeverity, NegotiationRequestType,
  NegotiationRequestStatus, AuditEventType,
}

-- `reference` is the number n of the text `D-n`.
pub record Deal : Type 0 where
  pub id : ℕ
  pub reference : ℕ
  pub odoo_sale_order_id : ℕ
  pub odoo_partner_id : ℕ
  pub owner_odoo_user_id : ℕ
  pub odoo_company_id : ℕ
  pub tier_code : Option ℕ
  pub status : DealStatus
  pub approval_state : ApprovalState
  pub health_status : HealthStatus
  pub current_risk_score : Option Decimal
  pub current_severity : Option RiskSeverity
  pub current_assessment_id : Option ℕ
  pub approved_assessment_id : Option ℕ
  pub required_level : ApprovalLevel
  pub order_discount_pct : Decimal
  pub amount_total_cache : Decimal
  pub amount_untaxed_cache : Decimal
  pub margin_pct_cache : Decimal
  pub one_time_total_cache : Decimal
  pub recurring_first_cycle_total_cache : Decimal
  pub customer_confirmed_pending : Bool
  pub confirmed_at : Option ℕ
  pub last_activity_at : ℕ
  pub last_synced_at : ℕ
  pub version : ℕ

-- `RiskAssessment`; its snapshots, which repeat the context, are left out.
pub record RiskAssessment : Type 0 where
  pub id : ℕ
  pub deal_id : ℕ
  pub risk_score : Decimal
  pub severity : RiskSeverity
  pub required_level : ApprovalLevel
  pub decision : Decision
  pub trigger_type : TriggerType
  pub calculated_at : ℕ

-- `NumberSequence`; a key is modelled by a number.
pub record NumberSequence : Type 0 where
  pub key : ℕ
  pub next_value : ℕ

pub record ApprovalRequest : Type 0 where
  pub id : ℕ
  pub deal_id : ℕ
  pub risk_assessment_id : ℕ
  pub required_level : Stage
  pub sequence : ℕ
  pub status : ApprovalRequestStatus
  pub requested_at : ℕ
  pub completed_at : Option ℕ
  pub decided_by : Option ℕ
  pub decision_reason : Option String

pub record ApprovalAction : Type 0 where
  pub approval_request_id : ℕ
  pub actor_odoo_user_id : ℕ
  pub actor_role : Role
  pub action : ApprovalActionType
  pub reason : Option String
  pub created_at : ℕ

pub data ActorType : Type 0 where
  user system customer : ActorType

-- `entity_id` is `none` where the code stores the text "None".
pub record AuditEvent : Type 0 where
  pub event_type : AuditEventType
  pub entity_id : Option ℕ
  pub deal_id : ℕ
  pub actor_type : ActorType
  pub actor_id : Option ℕ
  pub created_at : ℕ

pub data NotificationType : Type 0 where
  approval_approved approval_rejected approval_returned approval_escalated : NotificationType
  negotiation_received order_confirmed customer_accepted_pending : NotificationType

-- The one key in use, `f"app_approved_{deal.id}"`, is modelled by the deal's identifier.
pub record Notification : Type 0 where
  pub id : ℕ
  pub recipient : ℕ
  pub type : NotificationType
  pub entity_id : ℕ
  pub is_read : Bool
  pub dedupe_key : Option ℕ
  pub created_at : ℕ

pub record NegotiationRequest : Type 0 where
  pub id : ℕ
  pub deal_id : ℕ
  pub odoo_sale_order_id : ℕ
  pub customer_partner_id : ℕ
  pub requested_by : ℕ
  pub type : NegotiationRequestType
  pub status : NegotiationRequestStatus
  pub message : Option String
  pub counter_value : Option Decimal
  pub based_on_assessment_id : Option ℕ
  pub created_at : ℕ
  pub processed_at : Option ℕ
  pub processed_by : Option ℕ
  pub response_message : Option String
  pub applied_assessment_id : Option ℕ

-- `NegotiationChange.field_name` with `requested_value`.
pub data Change : Type 0 where
  product_uom_qty : Option Decimal → Change
  discount : Option Decimal → Change
  remove_line : Change
  add_product : Option ℕ → Change

pub record NegotiationChange : Type 0 where
  pub negotiation_request_id : ℕ
  pub line_id : Option ℕ
  pub change : Change

-- An entry of the payload of `apply_line_changes`.
pub data LineUpdate : Type 0 where
  quantity_of : ℕ → Decimal → LineUpdate
  discount_of : ℕ → Decimal → LineUpdate

pub record PortalComment : Type 0 where
  pub deal_id : ℕ
  pub line_id : Option ℕ
  pub author_odoo_user_id : ℕ
  pub author_role : Role
  pub body : String
  pub is_internal : Bool
  pub created_at : ℕ

-- `DealflowUser`, as far as the services read it.
pub record Actor : Type 0 where
  pub odoo_user_id : ℕ
  pub role : Role

-- The database (a factor stands with the key of its assessment), and the state `S` of Odoo behind the gateway.
pub record World (S : Type 0) : Type 0 where
  pub deals : List Deal
  pub sequences : List NumberSequence
  pub assessments : List RiskAssessment
  pub factors : List (ℕ × RiskFactor)
  pub requests : List ApprovalRequest
  pub actions : List ApprovalAction
  pub audits : List AuditEvent
  pub notifications : List Notification
  pub negotiations : List NegotiationRequest
  pub changes : List NegotiationChange
  pub comments : List PortalComment
  pub plans : List FulfillmentPlan
  pub plan_lines : List FulfillmentPlanLine
  pub profiles : List WarehouseProfile
  pub next_id : ℕ
  pub odoo : S

-- The first four calls read; `none` is an exception that they raise. Another call returns Odoo's new
-- state, and `false` or `none` where it raised one.
pub record Gateway (S : Type 0) : Type 0 where
  pub get_sale_order : ℕ → S → Option RawOrder
  pub get_availability : List ℕ → Option (List ℕ) → S → Option StockMap
  pub get_products : List ℕ → S → Option (List (ℕ × RawProduct))
  pub get_warehouses : S → Option (List RawWarehouse)
  pub set_governance : ℕ → ApprovalState → Decimal → Bool → S → S × Bool
  pub confirm : ℕ → S → S × Bool
  pub apply_line_changes : ℕ → List LineUpdate → S → S × Bool
  pub add_line : ℕ → ℕ → Decimal → S → S × Bool
  pub apply_fulfillment_plan : ℕ → List Shipment → S → S × Option (List ℕ)

pub data Error : Type 0 where
  entity_not_found request_not_pending own_deal forbidden deal_closed negotiation_not_open : Error
  version_conflict missing_identifier odoo_failed : Error
  no_lines invalid_plan_status deal_not_confirmed reason_required invalid_line_id type_error : Error
  duplicate_warehouse : Error

-- What a service comes to: the exception it raises, or its value.
pub data Result {ℓ} (V : Type ℓ) : Type ℓ where
  err : Error → Result V
  ok : V → Result V

module _ {ℓ κ} {V : Type ℓ} {W : Type κ} where
  infixl 5 ◌>>=◌
  abbrev pub ◌>>=◌ : Result V → (V → Result W) → Result W
  err problem >>= rest = err problem
  ok value >>= rest = rest value

module _ {ℓ} {V : Type ℓ} where
  infixl 5 ◌>>◌
  abbrev pub ◌>>◌ : Result (Unit {0}) → Result V → Result V
  check >> rest = check >>= λ done. rest

  -- `if not row: raise problem`
  abbrev pub or_raise : Option V → Error → Result V
  or_raise none problem = err problem
  or_raise (some row) problem = ok row

-- `if condition: raise problem`
abbrev pub raise_if : Bool → Error → Result (Unit {0})
raise_if true problem = err problem
raise_if false problem = ok tt
