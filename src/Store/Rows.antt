-- ===== src/Store/Rows.antt =====
-- The rows and the enums of prisma/schema.prisma. Identifiers are numbers (a UUID is one of 128
-- bits; other keys are only compared), and times are milliseconds. Columns that the modelled code
-- neither reads nor decides by (names, `created_at` of most tables, `updated_at`) are left out.
use flash_core.Common.{ℕ, Bool, Option, List}

pub record Sku : Type 0 where
  pub id : ℕ
  pub price_vnd : ℕ
  pub stock : ℕ
  pub is_active : Bool
  pub version : ℕ

pub record SaleEvent : Type 0 where
  pub id : ℕ
  pub slug : ℕ
  pub starts_at : ℕ
  pub ends_at : ℕ
  pub is_published : Bool
  pub is_settled : Bool

pub record SaleSku : Type 0 where
  pub id : ℕ
  pub sale_event_id : ℕ
  pub sku_id : ℕ
  pub sale_price_vnd : ℕ
  pub allocated_stock : ℕ
  pub stock : ℕ
  pub per_user_limit : ℕ

pub record Purchase : Type 0 where
  pub sale_sku_id : ℕ
  pub user_id : ℕ
  pub quantity : ℕ

pub data OrderStatus : Type 0 where
  pending paid cancelled : OrderStatus

abbrev pub is_pending : OrderStatus → Bool
is_pending OrderStatus.pending = Bool.true
is_pending OrderStatus.paid = Bool.false
is_pending OrderStatus.cancelled = Bool.false

abbrev pub is_paid : OrderStatus → Bool
is_paid OrderStatus.pending = Bool.false
is_paid OrderStatus.paid = Bool.true
is_paid OrderStatus.cancelled = Bool.false

abbrev pub is_cancelled : OrderStatus → Bool
is_cancelled OrderStatus.pending = Bool.false
is_cancelled OrderStatus.paid = Bool.false
is_cancelled OrderStatus.cancelled = Bool.true

pub record Order : Type 0 where
  pub id : ℕ
  pub user_id : ℕ
  pub status : OrderStatus
  pub total_vnd : ℕ
  pub idempotency_key : ℕ
  pub expires_at : ℕ
  pub created_at : ℕ
  pub payment_intent_id : Option ℕ

pub record OrderItem : Type 0 where
  pub order_id : ℕ
  pub sku_id : ℕ
  pub sale_event_sku_id : Option ℕ
  pub quantity : ℕ
  pub unit_price_vnd : ℕ

pub data OutboxStatus : Type 0 where
  waiting dispatched failed : OutboxStatus

-- `order.placed`, or a type that no consumer is written for.
pub data EventType : Type 0 where
  order_placed : EventType
  other : ℕ → EventType

pub record OutboxEvent : Type 0 where
  pub id : ℕ
  pub event_type : EventType
  pub aggregate_id : ℕ
  pub user_id : ℕ
  pub total_vnd : ℕ
  pub status : OutboxStatus
  pub attempts : ℕ
  pub created_at : ℕ
  pub dispatched_at : Option ℕ

pub data RefundReason : Type 0 where
  order_already_cancelled amount_mismatch : RefundReason

pub record RefundRequest : Type 0 where
  pub order_id : ℕ
  pub payment_intent_id : ℕ
  pub amount_vnd : ℕ
  pub reason : RefundReason

pub data Consumer : Type 0 where
  order_payment order_email_confirm : Consumer

pub record ProcessedEvent : Type 0 where
  pub event_id : ℕ
  pub consumer : Consumer
  pub processed_at : ℕ

-- The database: one list of rows for each table.
pub record Db : Type 0 where
  pub skus : List Sku
  pub sale_events : List SaleEvent
  pub sale_skus : List SaleSku
  pub purchases : List Purchase
  pub orders : List Order
  pub order_items : List OrderItem
  pub outbox : List OutboxEvent
  pub refunds : List RefundRequest
  pub processed : List ProcessedEvent
