-- ===== src/State/Plans.antt =====
-- The stored fulfillment plans of app/models/fulfillment.py, and what Odoo tells of products and
-- warehouses (app/odoo/interface.py).
use chumma.Base.{ℕ, String, Bool, Option, List}
use chumma.Base.Int.{ℤ}
use chumma.Base.Decimal.{Decimal}
use chumma.Enums.{FulfillmentPlanStatus}
use chumma.Fulfillment.{Strategy}

-- A plan's strategy: the one computed, or 'MANUAL'.
pub data PlanStrategy : Type 0 where
  computed : Strategy → PlanStrategy
  manual : PlanStrategy

pub record FulfillmentPlan : Type 0 where
  pub id : ℕ
  pub deal_id : ℕ
  pub odoo_sale_order_id : ℕ
  pub status : FulfillmentPlanStatus
  pub estimated_shipments : ℕ
  pub estimated_shipping_cost : Decimal
  pub strategy : PlanStrategy
  pub generated_at : ℕ
  pub accepted_by_odoo_user_id : Option ℕ
  pub accepted_at : Option ℕ
  pub applied_at : Option ℕ
  pub odoo_picking_ids : Option (List ℕ)

pub record FulfillmentPlanLine : Type 0 where
  pub fulfillment_plan_id : ℕ
  pub odoo_sale_order_line_id : ℕ
  pub odoo_product_id : ℕ
  pub odoo_warehouse_id : Option ℕ
  pub requested_qty : ℤ
  pub allocated_qty : ℤ
  pub backorder_qty : ℤ
  pub shipping_cost : Decimal

pub record WarehouseProfile : Type 0 where
  pub id : ℕ
  pub odoo_warehouse_id : ℕ
  pub shipping_cost_weight : Decimal
  pub priority : ℤ
  pub lead_time_days : ℤ
  pub active : Bool

-- `is_stockable` tells whether `type` is 'STOCKABLE'.
pub record RawProduct : Type 0 where
  pub is_stockable : Bool
  pub is_recurring : Bool

pub record RawWarehouse : Type 0 where
  pub id : ℕ
  pub name : String

-- An entry of the payload of `apply_fulfillment_plan`.
pub record Shipment : Type 0 where
  pub line_id : ℕ
  pub product_id : ℕ
  pub warehouse_id : ℕ
  pub qty : ℤ
